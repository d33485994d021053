-- ===== src/Memory/Restore.antt =====
-- From a copy of the memory to its restore: what reaches mem0 is what it had answered.
use std.Path.{subst}
use agentroll.Prelude.{
  ◌≡◌, refl, sym, ◌∙◌, ap, ◌⊎◌, inl, inr, String, Option, none, some, List, ◌∷◌, lookup, Bool-cases,
  is_set, true,
}
use agentroll.Float.{Float64}
use agentroll.Api.{AgentDeployment, MemoryBackendSpec}
use agentroll.Kube.{
  Env, Call, read, Kind, create_secret, update_secret, http, HttpRequest, HttpResponse, Result, ok,
  err, Secret,
}
use agentroll.Kube.Exec.{World, try, ask, modify, ◌>>◌, ◌>>=◌}
use agentroll.Kube.Exec.Runs.{
  Returns, Returns-bind, Returns-then, Returns-wrapping, Returns-pure, Returns-raise, Returns-if,
}
use agentroll.Langfuse.{exchange}
use agentroll.Memory.Mem0.{
  is_success, export_request, import_request, mem0_do, exported, mem0_export_memory, imported,
  mem0_import_memory,
}
use agentroll.Memory.Backend.{
  snapshot_secret, store_snapshot, take_memory_snapshot, import_snapshot, restore_from,
  restore_memory_snapshot,
}

-- The last call wrote this Secret.
abbrev pub Wrote : {F : Type 0} → Secret → World F → Type 0
Wrote {F} s w =
    (rest : List (Call F)) × ((w.log ≡ create_secret s ∷ rest) ⊎ (w.log ≡ update_secret s ∷ rest))

-- mem0 has answered an export from this backend with this body.
abbrev pub Answered : {F : Type 0} → Env F → MemoryBackendSpec → String → Type 0
Answered {F} env backend body =
    (log : List (Call F)) × (key : String) × (r : HttpResponse) × (env.send log
        (export_request env backend key)
      ≡ ok r)
    × (r.body ≡ body)

-- The last call sent this text to the import of this backend.
abbrev pub Imported : {F : Type 0} → Env F → MemoryBackendSpec → String → World F → Type 0
Imported {F} env backend body w =
    (key : String) × (rest : List (Call F)) × (w.log
      ≡ http (import_request env backend key body) ∷ rest)

-- A copy has been made: the last call wrote a Secret that holds what an export had answered.
abbrev Copied : {F : Type 0} → Env F → MemoryBackendSpec → World F → Type 0
Copied env backend w =
    (body : String) × (s : Secret) × Answered env backend body
    × Wrote s w
    × (lookup "snapshot.json" s.entries ≡ some body)

module _ {F : Type 0} (env : Env F) where
  do-Returns :
      (name : String) (r : HttpRequest) (problem : Option String)
      → Returns
          (λ a w. (log : List (Call F)) × (env.send log r ≡ ok a) × (w.log ≡ http r ∷ log))
          (mem0_do env name r problem)
  unfolding mem0_do exchange ◌>>=◌
  do-Returns name r (some text) = record { at = λ w a h. cc }
  do-Returns name r none =
      Returns-wrapping _ (exchange env r) (record { at = λ w a h. (w.log, h, refl) })

  exported-Returns :
      (r : HttpResponse) (problem : Option String)
      → Returns (λ body _. r.body ≡ body) (exported env r problem)
  unfolding exported ◌>>=◌
  exported-Returns r (some text) = Returns-raise _
  exported-Returns r none = Returns-if _ _ _ (Returns-pure r.body (λ _. refl)) (Returns-raise _)

  imported-log : (r : HttpResponse) (w : World F) → (imported env r w).1.log ≡ w.log
  unfolding imported ◌>>=◌
  imported-log r w = elim (Bool-cases (is_success r.status)) [
    | inl e ↦ rw e refl
    | inr e ↦ rw e refl
  ]

  export-Answered :
      (backend : MemoryBackendSpec) (key : String)
      → Returns (λ body _. Answered env backend body) (mem0_export_memory env backend key)
  unfolding mem0_export_memory
  export-Answered backend key =
      Returns-then _ _ _ _ (do-Returns _ (export_request env backend key) _)
        (λ r w (log, e, _) body h. (log, key, r, e, (exported-Returns r r.unread).at w body h))

  import-Imported :
      (backend : MemoryBackendSpec) (key body : String)
      → Returns (λ _ w. Imported env backend body w) (mem0_import_memory env backend key body)
  unfolding mem0_import_memory
  import-Imported backend key body =
      Returns-then _ _ _ _ (do-Returns _ (import_request env backend key body) _)
        (λ r w (log, _, e) b h. (key, log, imported-log r w ∙ e))

  store-Wrote :
      (desired : Secret) (found : Result Secret)
      → Returns
          (λ _ w. (s : Secret) × Wrote s w × (s.entries ≡ desired.entries))
          (store_snapshot env desired found)
  unfolding store_snapshot ◌>>=◌
  store-Wrote desired (ok existing) =
      Returns-wrapping _ _ (record { at = λ w a h. (_, (w.log, inr refl), refl) })
  store-Wrote desired (err e) =
      Returns-if _ _ _
        (Returns-wrapping _ _ (record { at = λ w a h. (desired, (w.log, inl refl), refl) }))
        (Returns-raise _)

  import-Returns :
      (name : String) (backend : MemoryBackendSpec) (body : String)
      → Returns (λ _ w. Imported env backend body w) (import_snapshot env name backend (some body))
  unfolding import_snapshot
  import-Returns name backend body =
      Returns-bind _ _ λ key. Returns-wrapping _ _ (import-Imported backend key body)

  modify-Wrote :
      (s : Secret) (f : AgentDeployment F → AgentDeployment F) (w : World F)
      → Wrote s w
      → Wrote s (modify f w).1
  unfolding ◌>>=◌
  modify-Wrote s f w wrote = wrote

  keep-Copied :
      (backend : MemoryBackendSpec) (body name : String) (desired : Secret)
      (f : AgentDeployment F → AgentDeployment F)
      → Answered env backend body
      → lookup "snapshot.json" desired.entries ≡ some body
      → Returns
          (λ _ w. Copied env backend w)
          (try (ask Kind.secret name env.get_secret) >>= λ found.
            store_snapshot env desired found >> modify f)
  keep-Copied backend body name desired f answered given = Returns-bind _ _ λ found.
      Returns-then _ _ _ _ (store-Wrote desired found) (λ _ w (s, wrote, same) b h. (
        body,
        s,
        answered,
        modify-Wrote s f w wrote,
        ap (λ l. lookup "snapshot.json" l) same ∙ given,
      ))

module _ {F : Type 0} ⦃fl : Float64 F⦄ (env : Env F) where
  take-Copied :
      (version : String) (backend : MemoryBackendSpec)
      → Returns (λ _ w. Copied env backend w) (take_memory_snapshot env version backend)
  unfolding take_memory_snapshot lookup
  take-Copied version backend = Returns-bind _ _ λ a. Returns-bind _ _ λ key.
      Returns-then _ _ _ _ (Returns-wrapping _ _ (export-Answered env backend key))
        (λ body w answered b h. (keep-Copied env backend body _ _ _ answered refl).at w b h)

Wrote-once : {F : Type 0} (s s' : Secret) (w : World F) → Wrote s w → Wrote s' w → s ≡ s'
Wrote-once s s' w (l, inl e) (l', inl d) = cc
Wrote-once s s' w (l, inl e) (l', inr d) = cc
Wrote-once s s' w (l, inr e) (l', inl d) = cc
Wrote-once s s' w (l, inr e) (l', inr d) = cc

restored_lem :
    {F : Type 0} (env : Env F) (backend : MemoryBackendSpec) (body : String) (s : Secret)
    (w : World F)
    → is_set (snapshot_secret w.agent.status.memory) ≡ true
    → env.get_secret w.log (snapshot_secret w.agent.status.memory) ≡ ok s
    → lookup "snapshot.json" s.entries ≡ some body
    → restore_memory_snapshot env backend w
      ≡ import_snapshot env
          (snapshot_secret w.agent.status.memory)
          backend
          (some body)
          (record w { log = read Kind.secret (snapshot_secret w.agent.status.memory) ∷ w.log })
unfolding restore_memory_snapshot restore_from ◌>>=◌
restored_lem env backend body s w set got given = rw (set, got, given) refl

-- When a copy of the memory and a later restore end without an error, in any two environments, and the
-- API server answers the restore with the Secret that the copy wrote last, the last call of the
-- restore sends to the import of the backend the very body that its export had answered.
pub restore_memory_snapshot-take :
    {F : Type 0}
    → ⦃fl : Float64 F⦄
    → (env env' : Env F) (version : String) (backend : MemoryBackendSpec) (w w' : World F)
      (s : Secret)
    → (take_memory_snapshot env version backend w).0 ≡ ok tt
    → Wrote s (take_memory_snapshot env version backend w).1
    → is_set (snapshot_secret w'.agent.status.memory) ≡ true
    → env'.get_secret w'.log (snapshot_secret w'.agent.status.memory) ≡ ok s
    → (restore_memory_snapshot env' backend w').0 ≡ ok tt
    → (body : String) × Answered env backend body
      × Imported env' backend body (restore_memory_snapshot env' backend w').1
restore_memory_snapshot-take env env' version backend w w' s taken wrote set got restored =
    let (body, s', answered, wrote', given) = (take-Copied env version backend).at w tt taken in
    let same = Wrote-once s s' (take_memory_snapshot env version backend w).1 wrote wrote' in
    let run =
      restored_lem env' backend body s w' set got
        (ap (λ x. lookup "snapshot.json" x.entries) same ∙ given) in
    (
      body,
      answered,
      subst (λ p. p.0 ≡ ok tt → Imported env' backend body p.1) (sym run)
          (λ h. (import-Returns env' _ backend body).at _ tt h) restored,
    )
