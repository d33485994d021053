-- ===== src/Deletion/Order.antt =====
-- The finalizer outlives the Rollout.
use agentroll.Prelude.{◌≡◌, refl, ◌⊎◌, inl, inr, true, String, ◌∷◌, Bool-cases}
use agentroll.Kube.{Env, delete_rollout, read, Result, ok, err, is_not_found, Kind, RolloutState}
use agentroll.Kube.Exec.{World, ◌>>=◌}
use agentroll.Deletion.{
  contains_finalizer, settle_deletion, delete_found, finalize, handle_deletion,
}

-- The answer says that the thing is not there.
abbrev pub IsGone : {A : Type 0} → Result A → Type 0
IsGone (ok _) = ⊥
IsGone (err e) = is_not_found e ≡ true

-- The answer to a deletion says that the thing is deleted, or that it was not there.
abbrev pub IsDeleted : Result (Unit {0}) → Type 0
IsDeleted (ok _) = Unit
IsDeleted (err e) = is_not_found e ≡ true

module _ {F : Type 0} (env : Env F) where
  -- The Rollout of the agent is gone, by what the environment answers in a pass from `w`.
  abbrev pub RolloutGone : World F → Type 0
  RolloutGone w =
      IsGone (env.get_rollout w.log w.agent.name)
      ⊎ IsDeleted (env.write (read Kind.rollout w.agent.name ∷ w.log) (delete_rollout w.agent.name))

  settled_agent :
      (r : Result (Unit {0})) (v : World F)
      → (((settle_deletion env r >>= λ _. finalize env) v).1.agent ≡ v.agent) ⊎ IsDeleted r
  unfolding settle_deletion ◌>>=◌
  settled_agent (ok _) v = inr tt
  settled_agent (err e) v = elim (Bool-cases (is_not_found e)) [
    | inl gone ↦ inr gone
    | inr broken ↦ rw broken (inl refl)
  ]

  found_agent :
      (name : String) (r : Result RolloutState) (v : World F)
      → (((delete_found env name r >>= λ _. finalize env) v).1.agent ≡ v.agent)
        ⊎ (IsGone r ⊎ IsDeleted (env.write v.log (delete_rollout name)))
  unfolding delete_found ◌>>=◌
  found_agent name (ok rollout) v =
      elim (settled_agent (env.write v.log (delete_rollout name))
        (record v { log = delete_rollout name ∷ v.log })) [
          | inl same ↦ inl same
          | inr gone ↦ inr (inr gone)
        ]
  found_agent name (err e) v = elim (Bool-cases (is_not_found e)) [
    | inl gone ↦ inr (inl gone)
    | inr broken ↦ rw broken (inl refl)
  ]

  -- A pass over an AgentDeployment that is being deleted leaves it as it is, finalizer included, unless
  -- its Rollout is gone: the API server has answered that it is not there, or has accepted its deletion.
  pub handle_deletion-RolloutGone :
      (w : World F) → ((handle_deletion env w).1.agent ≡ w.agent) ⊎ RolloutGone w
  unfolding handle_deletion ◌>>=◌
  handle_deletion-RolloutGone w = elim (Bool-cases (contains_finalizer w.agent.finalizers)) [
    | inr absent ↦ rw absent (inl refl)
    | inl present ↦ rw present (
        found_agent w.agent.name (env.get_rollout w.log w.agent.name)
          (record w { log = read Kind.rollout w.agent.name ∷ w.log }))
  ]
