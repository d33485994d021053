-- ===== src/Rollout/Version/Order.antt =====
-- The order by which sort.Strings sorts.
use Prim.Native.Char.{Char, code}
use Prim.Native.Nat.{compare as compare_ℕ, Ordering}
use Prim.Native.String.compare as clauses
use mathlib.Core.List.{Perm, foldr}
use mathlib.Core.List.Perm
use text.Mathlib.Text as Text
use text.Mathlib.TextEquality.{path_by_compare, IsScalar-prop}
use agentroll.Prelude.{
  List, [], ◌∷◌, Bool-cases, inl, inr, ◌≡◌, refl, sym, ap, ◌∙◌, true, false, String, arith,
}
use agentroll.Rollout.Version.{text_le, insert_text, sort_texts}

cons_lem :
    (c d : Char) (s t : String)
    → text_le (String.◌∷◌ c s) (String.◌∷◌ d t)
      ≡ Text.is_le
          (Prim.Native.String.then (compare_ℕ (code c) (code d)) (Prim.Native.String.compare s t))
cons_lem c d s t = ap Text.is_le (clauses.cons-cons c d s t)

nil_lem : (t : String) → text_le String.[] t ≡ true
nil_lem String.[] = ap Text.is_le clauses.nil-nil
nil_lem (String.◌∷◌ d t) = ap Text.is_le (clauses.nil-cons d t)

not_nil : (c : Char) (s : String) → text_le (String.◌∷◌ c s) String.[] ≡ false
not_nil c s = ap Text.is_le (clauses.cons-nil c s)

pub text_le_total : (s t : String) → text_le s t ≡ false → text_le t s ≡ true
text_le_total String.[] t h = cc (nil_lem t)
text_le_total (String.◌∷◌ c s) String.[] h = nil_lem (String.◌∷◌ c s)
text_le_total (String.◌∷◌ c s) (String.◌∷◌ d t) h =
    ground (arith, cons_lem c d s t, cons_lem d c t s, text_le_total s t)

compare_antisymm :
    (s t : String)
    → text_le s t ≡ true
    → text_le t s ≡ true
    → Prim.Native.String.compare s t ≡ Ordering.eq
compare_antisymm String.[] String.[] h k = clauses.nil-nil
compare_antisymm String.[] (String.◌∷◌ d t) h k = cc (not_nil d t)
compare_antisymm (String.◌∷◌ c s) String.[] h k = cc (not_nil c s)
compare_antisymm (String.◌∷◌ c s) (String.◌∷◌ d t) h k =
    ground
      (arith, cons_lem c d s t, cons_lem d c t s, clauses.cons-cons c d s t, compare_antisymm s t)

pub text_le_antisymm : (s t : String) → text_le s t ≡ true → text_le t s ≡ true → s ≡ t
text_le_antisymm s t h k = path_by_compare s t (compare_antisymm s t h k)

pub text_le_trans : (s t u : String) → text_le s t ≡ true → text_le t u ≡ true → text_le s u ≡ true
text_le_trans String.[] t u h k = nil_lem u
text_le_trans (String.◌∷◌ c s) String.[] u h k = cc (not_nil c s)
text_le_trans (String.◌∷◌ c s) (String.◌∷◌ d t) String.[] h k = cc (not_nil d t)
text_le_trans (String.◌∷◌ c s) (String.◌∷◌ d t) (String.◌∷◌ e u) h k =
    ground (arith, cons_lem c d s t, cons_lem d e t u, cons_lem c e s u, text_le_trans s t u)

pub insert_text_comm :
    (s t : String) (xs : List String)
    → insert_text s (insert_text t xs) ≡ insert_text t (insert_text s xs)
unfolding insert_text
insert_text_comm s t [] = elim (Bool-cases (text_le s t)) [
  | inl a ↦ elim (Bool-cases (text_le t s)) [
    | inl b ↦ rw (text_le_antisymm s t a b) refl
    | inr b ↦ rw (a, b) refl
  ]
  | inr a ↦ rw (a, text_le_total s t a) refl
]
insert_text_comm s t (x ∷ xs) = ground (
  arith,
  text_le_total s t,
  text_le_antisymm s t,
  text_le_trans s t x,
  text_le_trans t s x,
  insert_text_comm s t xs,
)

sort_texts-foldr : (xs : List String) → sort_texts xs ≡ foldr insert_text [] xs
unfolding sort_texts
sort_texts-foldr [] = refl
sort_texts-foldr (x ∷ xs) = ap (insert_text x) (sort_texts-foldr xs)

-- Sorting forgets the order.
pub sort_texts-perm : {xs ys : List String} → Perm xs ys → sort_texts xs ≡ sort_texts ys
sort_texts-perm {xs} {ys} p =
    sort_texts-foldr xs
    ∙ Perm.foldr-eq (hlevel IsScalar-prop) insert_text insert_text_comm p []
    ∙ sym (sort_texts-foldr ys)
