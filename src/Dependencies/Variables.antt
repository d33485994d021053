-- ===== src/Dependencies/Variables.antt =====
-- The variables of the container that hold the endpoints of the tools.
use std.Path.{subst}
use Prim.Native.Char.{Char, code}
use Prim.Native.Nat.{◌-◌, compare, Ordering}
use Prim.Native.String.{slice}
use Prim.Native.String.append as append
use text.Mathlib.TextEquality.{codes_equal}
use text.Mathlib.TextPositions.{compare_self}
use text.Mathlib.TextLemmas.{
  cons≢nil, head-eq_of_cons-eq, tail-eq_of_cons-eq, append_cancel_left, append_cancel_right,
}
use agentroll.Prelude.{
  ◌≡◌, refl, sym, ◌∙◌, ap, ◌⊎◌, inl, inr, ℕ, ◌+◌, ◌<◌, ◌≤◌, String, ◌<>◌, ◌↔◌, arith, leb, ◌&&◌,
  ◌||◌, ◌==◌, eq_iff, Bool, true, false,
}
use agentroll.Dependencies.Tools.{env_char, env_text, endpoint_var}

-- The number of a character that the name of a Service may have: a small letter, a digit or "-".
abbrev pub IsLabelCode : ℕ → Type 0
IsLabelCode n = ((97 ≤ n) × (n < 123)) ⊎ ((48 ≤ n) × (n < 58)) ⊎ (n ≡ 45)

abbrev pub IsLabel : String → Type 0
IsLabel String.[] = Unit
IsLabel (String.◌∷◌ c s) = IsLabelCode (code c) × IsLabel s

-- The number of a character that the name of a variable may have: a capital letter, a digit or "_".
abbrev pub IsVariableCode : ℕ → Type 0
IsVariableCode n = ((65 ≤ n) × (n < 91)) ⊎ ((48 ≤ n) × (n < 58)) ⊎ (n ≡ 95)

abbrev pub IsVariable : String → Type 0
IsVariable String.[] = Unit
IsVariable (String.◌∷◌ c s) = IsVariableCode (code c) × IsVariable s

-- The capital letter with this number in the alphabet.
abbrev Capital : ℕ → Type 0
Capital k =
    (d : Char) × (slice "ABCDEFGHIJKLMNOPQRSTUVWXYZ" k (k + 1) ≡ String.◌∷◌ d String.[])
    × (code d ≡ 65 + k)

-- Whether these are the capital letters from this number on.
abbrev capitals : ℕ → String → Bool
capitals k String.[] = true
capitals k (String.◌∷◌ d ds) =
    (slice "ABCDEFGHIJKLMNOPQRSTUVWXYZ" k (k + 1) == String.◌∷◌ d String.[])
    && ((leb (65 + k) (code d) && leb (code d) (65 + k)) && capitals (k + 1) ds)

abbrev count : String → ℕ
count String.[] = 0
count (String.◌∷◌ d ds) = count ds + 1

both : (b c : Bool) → (b && c) ≡ true → (b ≡ true) × (c ≡ true)
both true true h = (refl, refl)
both true false h = cc
both false c h = cc

capitals-at :
    (k : ℕ) (ds : String) (n : ℕ) → capitals k ds ≡ true → k ≤ n → n < k + count ds → Capital n
capitals-at k String.[] n _ low high = absurd (omega arith)
capitals-at k (String.◌∷◌ d ds) n h low high =
    let (letter, h') = both _ _ h in
    let (number, rest) = both _ _ h' in
    elim (cases) [
      | inl same ↦ subst Capital same (d, (eq_iff _ _).0 letter, equal number)
      | inr above ↦ capitals-at (k + 1) ds n rest above (omega arith)
    ]
  where
    cases : (k ≡ n) ⊎ (k + 1 ≤ n)
    cases = ground arith

    equal : (leb (65 + k) (code d) && leb (code d) (65 + k)) ≡ true → code d ≡ 65 + k
    equal h = ground arith

-- The one character that a character of a label becomes.
abbrev Image : Char → Type 0
Image c =
    (d : Char) × (env_char c ≡ String.◌∷◌ d String.[])
    × (((97 ≤ code c) × (code c < 123) × (code d + 32 ≡ code c))
        ⊎ ((48 ≤ code c) × (code c < 58) × (code d ≡ code c))
        ⊎ ((code c ≡ 45) × (code d ≡ 95)))

inside : (lo hi n : ℕ) → lo ≤ n → n ≤ hi → (leb lo n && leb n hi) ≡ true
inside lo hi n low high = ground arith

outside : (lo hi n : ℕ) → (n < lo) ⊎ (hi < n) → (leb lo n && leb n hi) ≡ false
outside lo hi n (inl low) = ground arith
outside lo hi n (inr high) = ground arith

image : (c : Char) → IsLabelCode (code c) → Image c
unfolding env_char
image c (inl (low, high)) =
    letter
      (capitals-at 0 "ABCDEFGHIJKLMNOPQRSTUVWXYZ" (code c - 97) refl (omega arith) (omega arith))
  where
    letter : Capital (code c - 97) → Image c
    letter (d, e, n) =
        (d, rw (inside 97 122 (code c) low (omega arith)) e, inl (low, high, omega arith))
image c (inr (inl (low, high))) = (
  c,
  rw (outside 97 122 (code c) (inl (omega arith)), outside 45 45 (code c) (inr (omega arith))) refl,
  inr (inl (low, high, refl)),
)
image c (inr (inr e)) = ("_", rw e refl, inr (inr (e, refl)))

Image-inj : (c d : Char) (x : Image c) (y : Image d) → x.0 ≡ y.0 → c ≡ d
Image-inj c d (c', _, p) (d', _, q) same = codes_equal c d (
    subst (λ n. compare (code c) n ≡ Ordering.eq) (codes p q (ap code same))
      (compare_self (code c)))
  where
    codes :
        ((97 ≤ code c) × (code c < 123) × (code c' + 32 ≡ code c))
          ⊎ ((48 ≤ code c) × (code c < 58) × (code c' ≡ code c))
          ⊎ ((code c ≡ 45) × (code c' ≡ 95))
        → ((97 ≤ code d) × (code d < 123) × (code d' + 32 ≡ code d))
          ⊎ ((48 ≤ code d) × (code d < 58) × (code d' ≡ code d))
          ⊎ ((code d ≡ 45) × (code d' ≡ 95))
        → code c' ≡ code d'
        → code c ≡ code d
    codes p q e = ground arith

Image-IsVariable : (c : Char) (x : Image c) → IsVariableCode (code x.0)
Image-IsVariable c (d, _, inl (low, high, e)) = inl (omega arith, omega arith)
Image-IsVariable c (d, _, inr (inl (low, high, e))) = inr (inl (omega arith, omega arith))
Image-IsVariable c (d, _, inr (inr (_, e))) = inr (inr e)

-- The text of a label is the images of its characters.
env_text-cons :
    (c : Char) (s : String) (x : Image c) → env_text (String.◌∷◌ c s) ≡ String.◌∷◌ x.0 (env_text s)
unfolding env_text
env_text-cons c s (d, e, _) =
    ap (λ t. t <> env_text s) e
    ∙ append.cons d String.[] (env_text s)
    ∙ ap (λ t. String.◌∷◌ d t) (append.nil (env_text s))

env_text-nil : env_text "" ≡ ""
unfolding env_text
env_text-nil = refl

env_text-inj : (s t : String) → IsLabel s → IsLabel t → env_text s ≡ env_text t → s ≡ t
env_text-inj String.[] String.[] _ _ e = refl
env_text-inj String.[] (String.◌∷◌ d t) _ (q, _) e =
    absurd (cons≢nil (sym (env_text-cons d t (image d q)) ∙ sym e ∙ env_text-nil))
env_text-inj (String.◌∷◌ c s) String.[] (p, _) _ e =
    absurd (cons≢nil (sym (env_text-cons c s (image c p)) ∙ e ∙ env_text-nil))
env_text-inj (String.◌∷◌ c s) (String.◌∷◌ d t) (p, ps) (q, qs) e =
    let conses = sym (env_text-cons c s (image c p)) ∙ e ∙ env_text-cons d t (image d q) in
    let head = Image-inj c d (image c p) (image d q) (head-eq_of_cons-eq conses) in
    let tail = env_text-inj s t ps qs (tail-eq_of_cons-eq conses) in
    λ i. String.◌∷◌ (head i) (tail i)

IsVariable-append : (s t : String) → IsVariable s → IsVariable t → IsVariable (s <> t)
IsVariable-append String.[] t _ q = subst IsVariable (sym (append.nil t)) q
IsVariable-append (String.◌∷◌ c s) t (p, ps) q =
    subst IsVariable (sym (append.cons c s t)) (p, IsVariable-append s t ps q)

env_text-IsVariable : (s : String) → IsLabel s → IsVariable (env_text s)
env_text-IsVariable String.[] _ = subst IsVariable (sym env_text-nil) tt
env_text-IsVariable (String.◌∷◌ c s) (p, ps) =
    subst IsVariable (sym (env_text-cons c s (image c p)))
      (Image-IsVariable c (image c p), env_text-IsVariable s ps)

-- Whether a text has only capital letters and "_".
abbrev spelled : String → Bool
spelled String.[] = true
spelled (String.◌∷◌ c s) =
    ((leb 65 (code c) && leb (code c) 90) || (leb 95 (code c) && leb (code c) 95)) && spelled s

spelled-IsVariable : (s : String) → spelled s ≡ true → IsVariable s
spelled-IsVariable String.[] h = tt
spelled-IsVariable (String.◌∷◌ c s) h =
    let (first, rest) = both _ _ h in (ranges first, spelled-IsVariable s rest)
  where
    ranges :
        ((leb 65 (code c) && leb (code c) 90) || (leb 95 (code c) && leb (code c) 95)) ≡ true
        → IsVariableCode (code c)
    ranges h = ground arith

-- For tools named as Services are, by small letters, digits and "-", the variable that holds the endpoint
-- has a name that an environment allows, of capital letters, digits and "_", and two tools share a
-- variable only if they have the same name.
pub endpoint_var-IsVariable :
    (tool other : String)
    → IsLabel tool
    → IsLabel other
    → IsVariable (endpoint_var tool) × ((endpoint_var tool ≡ endpoint_var other) ↔ (tool ≡ other))
unfolding endpoint_var
endpoint_var-IsVariable tool other p q = (
  IsVariable-append "MCP_TOOL_" _ (spelled-IsVariable "MCP_TOOL_" refl) (
      IsVariable-append (env_text tool) _ (env_text-IsVariable tool p)
        (spelled-IsVariable "_ENDPOINT" refl)),
  (
    λ e.
        env_text-inj tool other p q
          (append_cancel_right _ _ "_ENDPOINT" (append_cancel_left "MCP_TOOL_" _ _ e)),
    λ e. ap endpoint_var e,
  ),
)
