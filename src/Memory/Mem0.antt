-- ===== src/Memory/Mem0.antt =====
-- mem0ExportMemory and mem0ImportMemory of internal/controller/memory_backend.go.
use agentroll.Prelude.{
  ℕ, Bool, ◌&&◌, leb, ltb, String, ◌<>◌, Option, none, some, [], ◌∷◌, decimal, is_set,
  if◌then◌else◌,
}
use agentroll.Api.{MemoryBackendSpec}
use agentroll.Kube.{
  Env, failed, wrap, HttpRequest, HttpResponse, Auth, no_auth, bearer, get_method, post_method,
  nothing_sent, raw,
}
use agentroll.Kube.Exec.{Exec, pure, raise, wrapping, ◌>>=◌}
use agentroll.Langfuse.{exchange}

-- `if apiKey != ""`.
abbrev bearer_or_none : String → Auth
bearer_or_none key = if is_set key then bearer key else no_auth

abbrev pub is_success : ℕ → Bool
is_success status = leb 200 status && ltb status 300

abbrev unexpected : String → HttpResponse → String
unexpected name r = name <> ": unexpected status " <> decimal r.status

module _ {F : Type 0} (env : Env F) where
  -- `if sessionID != ""`.
  unfoldable pub session_url : String → String → String
  session_url session_id url =
      if is_set session_id then env.codec.with_query url "session_id" session_id else url

  unfoldable pub export_request : MemoryBackendSpec → String → HttpRequest
  export_request backend key = record {
    method = get_method;
    url = session_url backend.session_id (backend.endpoint <> "/api/memory/export");
    auth = bearer_or_none key;
    headers = [];
    payload = nothing_sent;
  }

  unfoldable pub import_request : MemoryBackendSpec → String → String → HttpRequest
  import_request backend key snapshot = record {
    method = post_method;
    url = session_url backend.session_id (backend.endpoint <> "/api/memory/import");
    auth = bearer_or_none key;
    headers = ("Content-Type", "application/json") ∷ [];
    payload = raw snapshot;
  }

  -- What the two functions do with the error of http.NewRequestWithContext, and mem0HTTPClient.Do.
  unfoldable pub mem0_do : String → HttpRequest → Option String → Exec F HttpResponse
  mem0_do name r (some text) = raise (wrap (name <> ": create request") (failed text))
  mem0_do name r none = wrapping (name <> ": request failed") (exchange env r)

  unfoldable pub exported : HttpResponse → Option String → Exec F String
  exported r (some text) = raise (wrap "mem0ExportMemory: read response" (failed text))
  exported r none =
      if is_success r.status
      then pure r.body
      else raise (failed (unexpected "mem0ExportMemory" r <> ": " <> r.body))

  -- mem0ExportMemory.
  unfoldable pub mem0_export_memory : MemoryBackendSpec → String → Exec F String
  mem0_export_memory backend key = do
    response ←
        mem0_do "mem0ExportMemory" (export_request backend key)
          (env.codec.url_error (backend.endpoint <> "/api/memory/export"))
    exported response response.unread

  abbrev import_problem : HttpResponse → String
  import_problem r = elim r.unread [
    | some text ↦ " (body unreadable: " <> text <> ")"
    | none ↦ ": " <> r.body
  ]

  unfoldable pub imported : HttpResponse → Exec F (Unit {0})
  imported r =
      if is_success r.status
      then pure tt
      else raise (failed (unexpected "mem0ImportMemory" r <> import_problem r))

  -- mem0ImportMemory.
  unfoldable pub mem0_import_memory : MemoryBackendSpec → String → String → Exec F (Unit {0})
  mem0_import_memory backend key snapshot = do
    response ←
        mem0_do "mem0ImportMemory" (import_request backend key snapshot)
          (env.codec.url_error (backend.endpoint <> "/api/memory/import"))
    imported response
