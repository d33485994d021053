-- ===== src/Prelude/Words.antt =====
-- More of Go's package strings, on the native texts.
use Prim.Native.Nat.{◌+◌, ◌-◌}
use Prim.Native.Char.{Char, code}
use Prim.Native.String.{String, ◌++◌, slice}
use Prim.Native.String.append as append
use std.Path.{subst}
use mathlib.Core.Path.{◌≡◌, refl, ap, sym, ◌∙◌}
use native.Mathlib.Omega.{arith}
use mathlib.Core.Bool.{Bool, true, false, ◌&&◌, ◌||◌}
use mathlib.Core.Option.{Option, none, some}
use mathlib.Core.List.{List, [], ◌∷◌}
use text.Mathlib.Text.{◌==◌}
use agentroll.Prelude.Tests.{if◌then◌else◌, leb}
use agentroll.Prelude.Texts.{is_space}

abbrev pub same_char : Char → Char → Bool
same_char c d = leb (code c) (code d) && leb (code d) (code c)

-- strings.CutPrefix: what follows the prefix, if the text has it.
unfoldable pub cut_prefix : String → String → Option String
cut_prefix String.[] s = some s
cut_prefix (String.◌∷◌ c p) String.[] = none
cut_prefix (String.◌∷◌ c p) (String.◌∷◌ d s) =
    let rest = cut_prefix p s in if same_char c d then rest else none

-- strings.HasPrefix.
abbrev pub has_prefix : String → String → Bool
has_prefix prefix s = elim (cut_prefix prefix s) [ none ↦ false | some _ ↦ true ]

-- strings.Contains(s, part).
unfoldable pub contains : String → String → Bool
contains part String.[] = part == ""
contains part (String.◌∷◌ c s) =
    let later = contains part s in has_prefix part (String.◌∷◌ c s) || later

abbrev add_word : String → List String → List String
add_word word words = if word == "" then words else word ∷ words

-- The word that the text begins with, and the words after it.
words_from : String → String × List String
words_from String.[] = ("", [])
words_from (String.◌∷◌ c s) =
    let (word, later) = words_from s in
    if is_space c then ("", add_word word later) else (String.◌∷◌ c word, later)

-- strings.Fields.
unfoldable pub fields : String → List String
unfolding words_from
fields s = let (word, later) = words_from s in add_word word later

-- strings.TrimRight(s, "/").
unfoldable pub trim_slashes : String → String
trim_slashes String.[] = ""
trim_slashes (String.◌∷◌ c s) =
    let rest = trim_slashes s in
    if leb 47 (code c) && leb (code c) 47 && rest == "" then "" else String.◌∷◌ c rest

-- strings.TrimRight(s, "\n").
unfoldable pub trim_newlines : String → String
trim_newlines String.[] = ""
trim_newlines (String.◌∷◌ c s) =
    let rest = trim_newlines s in
    if leb 10 (code c) && leb (code c) 10 && rest == "" then "" else String.◌∷◌ c rest

-- The text before its first ':', if it has one: `s[:strings.Index(s, ":")]`.
unfoldable pub before_colon : String → Option String
before_colon String.[] = none
before_colon (String.◌∷◌ c s) =
    let rest = before_colon s in
    if leb 58 (code c) && leb (code c) 58
    then some ""
    else elim rest [ none ↦ none | some before ↦ some (String.◌∷◌ c before) ]

lower_char : Char → String
lower_char c =
    let n = code c in
    if leb b'A' n && leb n b'Z'
    then slice "abcdefghijklmnopqrstuvwxyz" (n - b'A') (n - b'A' + 1)
    else String.◌∷◌ c String.[]

-- strings.ToLower, on ASCII texts.
unfoldable pub to_lower : String → String
unfolding lower_char
to_lower String.[] = ""
to_lower (String.◌∷◌ c s) = lower_char c ++ to_lower s

same_char_refl : (c : Char) → same_char c c ≡ true
same_char_refl c = ground arith

-- A text that begins with the prefix is the prefix and what follows it.
pub cut_prefix-append : (prefix s : String) → cut_prefix prefix (prefix ++ s) ≡ some s
unfolding cut_prefix
cut_prefix-append String.[] s = ap some (append.nil s)
cut_prefix-append (String.◌∷◌ c p) s =
    ap (λ t. cut_prefix (String.◌∷◌ c p) t) (append.cons c p s)
    ∙ rw (same_char_refl c) (cut_prefix-append p s)

append_empty : (s : String) → s ++ "" ≡ s
append_empty String.[] = append.nil ""
append_empty (String.◌∷◌ c s) = append.cons c s "" ∙ ap (λ t. String.◌∷◌ c t) (append_empty s)

-- A text without white space.
abbrev pub IsWord : String → Type 0
IsWord String.[] = Unit
IsWord (String.◌∷◌ c s) = (is_space c ≡ false) × IsWord s

-- A text that is empty or begins with white space.
abbrev pub IsBreak : String → Type 0
IsBreak String.[] = Unit
IsBreak (String.◌∷◌ c s) = is_space c ≡ true

pub IsWord-append : (w v : String) → IsWord w → IsWord v → IsWord (w ++ v)
IsWord-append String.[] v _ q = subst IsWord (sym (append.nil v)) q
IsWord-append (String.◌∷◌ c w) v (p, ps) q =
    subst IsWord (sym (append.cons c w v)) (p, IsWord-append w v ps q)

words_from-word :
    (w s : String) → IsWord w → words_from (w ++ s) ≡ (w ++ (words_from s).0, (words_from s).1)
unfolding words_from
words_from-word String.[] s _ =
    ap words_from (append.nil s)
    ∙ ap (λ t. (t, (words_from s).1)) (sym (append.nil (words_from s).0))
words_from-word (String.◌∷◌ c w) s (p, ps) =
    ap words_from (append.cons c w s)
    ∙ rw (words_from-word w s ps, p)
        (ap (λ t. (t, (words_from s).1)) (sym (append.cons c w (words_from s).0)))

words_from-break : (s : String) → IsBreak s → words_from s ≡ ("", fields s)
unfolding words_from fields
words_from-break String.[] _ = refl
words_from-break (String.◌∷◌ c s) p = rw p refl

-- A word at the front of a text is its first field.
pub fields-word :
    (w s : String) → IsWord w → (w == "") ≡ false → IsBreak s → fields (w ++ s) ≡ w ∷ fields s
unfolding fields
fields-word w s word full after =
    ap (λ p. add_word p.0 p.1)
      (words_from-word w s word ∙ ap (λ p. (w ++ p.0, p.1)) (words_from-break s after))
    ∙ ap (λ t. add_word t (fields s)) (append_empty w)
    ∙ rw full refl
