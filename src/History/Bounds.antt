-- ===== src/History/Bounds.antt =====
-- A ring buffer holds the newest entries of everything that was appended.
use agentroll.Prelude.{
  ℕ, ◌+◌, ◌-◌, ◌≤◌, ◌≡◌, refl, ◌∙◌, ap, List, [], ◌∷◌, ◌++◌, length, drop, keep_last, drop-append,
  drop-drop, length-append, length-drop, arith, ltb, ltb→le, sym, Bool-cases, inl, inr,
}
use mathlib.Core.List.{append_assoc, append-nil}
use agentroll.Api.{AgentDeploymentStatus, EvalHistoryEntry, PromptLineageEntry, ToolLineageEntry}
use agentroll.History.{
  append_capped, append_eval_history, append_prompt_lineage, append_tool_lineage, max_eval_history,
  max_prompt_lineage, max_tool_lineage,
}

-- What a run of appends leaves: `for _, e := range es { append…(status, e) }`.
abbrev pub append_all {ℓ} : {A : Type ℓ} → ℕ → List A → List A → List A
append_all cap xs [] = xs
append_all cap xs (e ∷ es) = append_all cap (append_capped cap xs e) es

module _ {ℓ} {A : Type ℓ} where
  pub append_capped-eq-keep_last :
      (cap : ℕ) (xs : List A) (x : A) → append_capped cap xs x ≡ keep_last cap (xs ++ x ∷ [])
  unfolding append_capped keep_last
  append_capped-eq-keep_last cap xs x =
      let ys = xs ++ x ∷ [] in
      elim (Bool-cases (ltb cap (length ys))) [
        | inl full ↦ rw full
        | inr room ↦ rw room (
            let e : length ys - cap ≡ 0 = omega (arith, ltb→le cap (length ys) room) in
            sym (ap (λ k. drop k ys) e))
      ]

  pub length-append_capped : (cap : ℕ) (xs : List A) (x : A) → length (append_capped cap xs x) ≤ cap
  unfolding append_capped
  length-append_capped cap xs x =
      ground (arith, length-drop (length (xs ++ x ∷ []) - cap) (xs ++ x ∷ []))

  -- Cutting a suffix twice is cutting it once.
  keep_last-append :
      (cap : ℕ) (xs ys : List A) → keep_last cap (keep_last cap xs ++ ys) ≡ keep_last cap (xs ++ ys)
  unfolding keep_last
  keep_last-append cap xs ys =
      let k = length xs - cap in
      let n : length (drop k (xs ++ ys)) ≡ length (xs ++ ys) - k = length-drop k (xs ++ ys) in
      let m : length (xs ++ ys) ≡ length xs + length ys = length-append xs ys in
      rw (drop-append k xs ys (omega arith)) (
        drop-drop (length (drop k (xs ++ ys)) - cap) k (xs ++ ys)
        ∙ ap (λ j. drop j (xs ++ ys)) (omega arith))

  pub append_all-eq-keep_last :
      (cap : ℕ) (xs es : List A) → length xs ≤ cap → append_all cap xs es ≡ keep_last cap (xs ++ es)
  unfolding keep_last
  append_all-eq-keep_last cap xs [] h =
      rw append-nil (let e : length xs - cap ≡ 0 = omega arith in sym (ap (λ k. drop k xs) e))
  append_all-eq-keep_last cap xs (e ∷ es) h =
      append_all-eq-keep_last cap (append_capped cap xs e) es (length-append_capped cap xs e)
      ∙ ap (λ zs. keep_last cap (zs ++ es)) (append_capped-eq-keep_last cap xs e)
      ∙ keep_last-append cap (xs ++ e ∷ []) es
      ∙ ap (keep_last cap) (append_assoc xs (e ∷ []) es)

module _ {F : Type 0} where
  -- The bounds that the appends keep.
  abbrev pub WithinCaps : AgentDeploymentStatus F → Type 0
  WithinCaps status =
      (length status.eval_history ≤ max_eval_history)
      × (length status.prompt_lineage ≤ max_prompt_lineage)
      × (length status.tool_lineage ≤ max_tool_lineage)

  -- Each of the three appends to a status keeps all the bounds: at most 50 evaluations, 20 prompt
  -- experiments and 20 tool experiments.
  appends-WithinCaps :
      (status : AgentDeploymentStatus F)
      → WithinCaps status
      → ((e : EvalHistoryEntry F) → WithinCaps (append_eval_history status e))
        × ((e : PromptLineageEntry F) → WithinCaps (append_prompt_lineage status e))
        × ((e : ToolLineageEntry F) → WithinCaps (append_tool_lineage status e))
  unfolding append_eval_history append_prompt_lineage append_tool_lineage
  appends-WithinCaps status (h, p, t) = (
    (λ e. (length-append_capped max_eval_history status.eval_history e, p, t)),
    (λ e. (h, length-append_capped max_prompt_lineage status.prompt_lineage e, t)),
    (λ e. (h, p, length-append_capped max_tool_lineage status.tool_lineage e)),
  )

  -- A run of appends to the evaluation history.
  abbrev pub record_evaluations :
      AgentDeploymentStatus F → List (EvalHistoryEntry F) → AgentDeploymentStatus F
  record_evaluations status [] = status
  record_evaluations status (e ∷ es) = record_evaluations (append_eval_history status e) es

  recorded-append_all :
      (status : AgentDeploymentStatus F) (es : List (EvalHistoryEntry F))
      → (record_evaluations status es).eval_history
        ≡ append_all max_eval_history status.eval_history es
  unfolding append_eval_history
  recorded-append_all status [] = refl
  recorded-append_all status (e ∷ es) = recorded-append_all (append_eval_history status e) es

  -- After any number of appends, the evaluation history is the 50 newest of all the evaluations that it
  -- has had, oldest first, if it was within its bound before.
  pub record_evaluations_newest :
      (status : AgentDeploymentStatus F) (es : List (EvalHistoryEntry F))
      → length status.eval_history ≤ max_eval_history
      → (record_evaluations status es).eval_history
        ≡ keep_last max_eval_history (status.eval_history ++ es)
  record_evaluations_newest status es h =
      recorded-append_all status es
      ∙ append_all-eq-keep_last max_eval_history status.eval_history es h
