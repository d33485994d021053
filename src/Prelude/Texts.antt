-- ===== src/Prelude/Texts.antt =====
-- Go strings: the native texts, and association lists for maps with text keys.
use Prim.Native.Nat.{ℕ, zero, suc, ◌+◌, ◌/◌, ◌%◌}
use Prim.Native.Char.{Char, code}
use Prim.Native.String.{String, ◌++◌, slice}
use mathlib.Core.Path.{◌≡◌, refl}
use mathlib.Core.Bool.{Bool, not, ◌&&◌, ◌||◌}
use mathlib.Core.Option.{Option, none, some}
use mathlib.Core.List.{List, [], ◌∷◌}
use native.Mathlib.Omega.{arith}
use text.Mathlib.Text.{◌==◌}
use text.Mathlib.TextEquality.{eq_iff}
use agentroll.Prelude.Tests.{if◌then◌else◌, ltb, leb}

abbrev pub is_set : String → Bool
is_set s = not (s == "")

-- `if v == "" { v = default }`.
abbrev pub or_default : String → String → String
or_default v fallback = if v == "" then fallback else v

abbrev pub Dict {ℓ} : Type ℓ → Type ℓ
Dict V = List (String × V)

module _ {ℓ} {V : Type ℓ} where
  -- `v, ok := labels[key]`.
  unfoldable pub lookup : String → Dict V → Option V
  lookup key [] = none
  lookup key (entry ∷ entries) =
      let found = lookup key entries in if entry.0 == key then some entry.1 else found

  -- `labels[key] = value`: the entry of the key, or else a new one at the end.
  unfoldable pub insert : String → V → Dict V → Dict V
  insert key value [] = (key, value) ∷ []
  insert key value (entry ∷ entries) =
      let later = insert key value entries in
      if entry.0 == key then (key, value) ∷ entries else entry ∷ later

  pub lookup-insert :
      (key other : String) (value : V) (entries : Dict V)
      → lookup other (insert key value entries)
        ≡ (if key == other then some value else lookup other entries)
  unfolding lookup insert
  lookup-insert key other value [] = refl
  lookup-insert key other value (entry ∷ entries) = ground (
    arith,
    eq_iff key other,
    eq_iff entry.0 key,
    eq_iff entry.0 other,
    lookup-insert key other value entries,
  )

-- `m[k]` on a map of strings: the zero value "" when the key is missing.
abbrev pub text_or_empty : Option String → String
text_or_empty none = ""
text_or_empty (some v) = v

-- fmt's `%d` at a number that is not negative, with fuel for the digits: a number has at most as many
-- as itself and one more.
decimal_fuel : ℕ → ℕ → String
decimal_fuel zero n = ""
decimal_fuel (suc f) n =
    let rest = decimal_fuel f (n / 10) in
    let digit = slice "0123456789" (n % 10) (n % 10 + 1) in
    if ltb n 10 then digit else rest ++ digit

unfoldable pub decimal : ℕ → String
unfolding decimal_fuel
decimal n = decimal_fuel (suc n) n

decimal_example : decimal 8080 ≡ "8080"
unfolding decimal
decimal_example = refl

-- fmt's `%q` at a text with nothing to escape, as the names of Kubernetes objects are.
abbrev pub quoted : String → String
quoted s = "\"" ++ s ++ "\""

abbrev is_code : ℕ → Char → Bool
is_code n c = leb n (code c) && leb (code c) n

-- unicode.IsSpace: the code points of Latin-1, and the others with the property White_Space.
abbrev pub is_space : Char → Bool
is_space c =
    leb 9 (code c) && leb (code c) 13
    || is_code 32 c
    || is_code 0x85 c
    || is_code 0xa0 c
    || is_code 0x1680 c
    || leb 0x2000 (code c) && leb (code c) 0x200a
    || is_code 0x2028 c
    || is_code 0x2029 c
    || is_code 0x202f c
    || is_code 0x205f c
    || is_code 0x3000 c

trim_left : String → String
trim_left String.[] = ""
trim_left (String.◌∷◌ c s) = let rest = trim_left s in if is_space c then rest else String.◌∷◌ c s

trim_right : String → String
trim_right String.[] = ""
trim_right (String.◌∷◌ c s) =
    let rest = trim_right s in if is_space c && rest == "" then "" else String.◌∷◌ c rest

-- strings.TrimSpace.
unfoldable pub trim_space : String → String
unfolding trim_left trim_right
trim_space s = trim_left (trim_right s)

-- strings.HasSuffix(s, "%").
unfoldable pub has_percent : String → Bool
has_percent String.[] = mathlib.Core.Bool.false
has_percent (String.◌∷◌ c s) = let rest = has_percent s in if s == "" then is_code 37 c else rest

-- strings.TrimSuffix(s, "%").
unfoldable pub trim_percent : String → String
trim_percent String.[] = ""
trim_percent (String.◌∷◌ c s) =
    let rest = trim_percent s in if is_code 37 c && s == "" then "" else String.◌∷◌ c rest
