-- ===== src/Evaluation/Comments.antt =====
-- The version that judge_runner writes into the comment of a score.
use Prim.Native.String.append as append
use agentroll.Prelude.{
  Bool-cases, inl, inr, eq_iff, ◌≡◌, refl, ap, ◌∙◌, false, String, ◌<>◌, Option, none, some, fields,
  cut_prefix-append, fields-word, IsWord, IsWord-append, IsBreak, ◌==◌,
}
use agentroll.Evaluation.Scores.{version_word, parse_composite_version_from_comment}

not_empty : (version : String) → (("cv=" <> version) == "") ≡ false
not_empty version = elim (Bool-cases (("cv=" <> version) == "")) [
  | inl e ↦
      let d = (eq_iff ("cv=" <> version) "").0 e in let cons = append.cons "c" "v=" version in cc
  | inr e ↦ e
]

-- A version without white space comes back from a comment that begins with "cv=" and the version,
-- whatever follows after white space.
pub parse_composite_version_lem :
    (version rest : String)
    → IsWord version
    → IsBreak rest
    → parse_composite_version_from_comment (("cv=" <> version) <> rest) ≡ version
unfolding parse_composite_version_from_comment version_word
parse_composite_version_lem version rest word after =
    ap version_word (
      fields-word ("cv=" <> version) rest
        (IsWord-append "cv=" version (refl, (refl, (refl, tt))) word) (not_empty version) after)
    ∙ ap (λ (o : Option String). elim o [ none ↦ version_word (fields rest) | some v ↦ v ])
        (cut_prefix-append "cv=" version)
