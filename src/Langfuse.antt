-- ===== src/Langfuse.antt =====
-- What the calls of Langfuse share: readSecretKey (internal/controller/evolution.go), the authenticated
-- GET of fetchLangfuseScores, fetchLangfuseFailingTraces (evolution.go) and
-- fetchJudgeScoresFromLangfuse (evaluation.go), and the variables of the analysis Jobs.
use agentroll.Prelude.{
  ℕ, String, ◌<>◌, Option, none, some, List, [], ◌∷◌, lookup, quoted, trim_space, trim_slashes,
  is_set, or_default, eqb, if◌then◌else◌,
}
use agentroll.Api.{AgentDeployment, LangfuseSpec, EnvVar, EnvSource}
use agentroll.Kube.{
  Env, Kind, failed, http, HttpRequest, HttpResponse, basic, get_method, nothing_sent,
}
use agentroll.Kube.Exec.{Exec, pure, raise, wrapping, ask, request, ◌>>=◌}
use agentroll.Rollout.Steps.{default_langfuse_host}
use agentroll.Rollout.Pod.{var_of}

abbrev pub secret_var : String → String → String → EnvVar
secret_var name secret key = record { name = name; value = EnvSource.secret_key secret key }

-- The variables that let a Job write scores; none without a Secret.
unfoldable pub langfuse_vars : Option LangfuseSpec → List EnvVar
langfuse_vars none = []
langfuse_vars (some lf) =
    if is_set lf.secret_ref
    then var_of "LANGFUSE_HOST" (or_default lf.endpoint default_langfuse_host)
      ∷ secret_var "LANGFUSE_PUBLIC_KEY" lf.secret_ref "LANGFUSE_PUBLIC_KEY"
      ∷ secret_var "LANGFUSE_SECRET_KEY" lf.secret_ref "LANGFUSE_SECRET_KEY"
      ∷ []
    else []

-- The request of a fetch.
unfoldable pub langfuse_request : LangfuseSpec → String → String → String → HttpRequest
langfuse_request lf path public_key secret_key = record {
  method = get_method;
  url = trim_slashes (or_default lf.endpoint "https://cloud.langfuse.com") <> path;
  auth = basic public_key secret_key;
  headers = [];
  payload = nothing_sent;
}

module _ {F : Type 0} (env : Env F) where
  -- `val, ok := secret.Data[key]`.
  unfoldable pub secret_value : String → String → String → Option String → Exec F String
  secret_value namespace name key none =
      raise (failed ("key " <> quoted key <> " not found in secret " <> namespace <> "/" <> name))
  secret_value namespace name key (some v) = pure (trim_space v)

  -- readSecretKey.
  unfoldable pub read_secret_key : String → String → String → Exec F String
  read_secret_key namespace name key = do
    secret ←
        wrapping ("secret " <> namespace <> "/" <> name <> " not found")
          (ask Kind.secret name env.get_secret)
    secret_value namespace name key (lookup key secret.entries)

  -- http.NewRequestWithContext and http.DefaultClient.Do: a request that cannot be built is one that
  -- fails.
  unfoldable pub exchange : HttpRequest → Exec F HttpResponse
  exchange r = request (http r) (λ log. env.send log r)

  -- `if resp.StatusCode != http.StatusOK { return …, fmt.Errorf(…) }`.
  unfoldable pub body_of : (ℕ → String → String) → HttpResponse → Exec F String
  body_of message r =
      if eqb r.status 200 then pure r.body else raise (failed (message r.status r.body))

  -- json.Unmarshal.
  unfoldable pub decoded : {A : Type 0} → Option A → Exec F A
  decoded none = raise (failed env.codec.decode_error)
  decoded (some a) = pure a

  -- The two keys, the request and its answer: the part that the three fetches have in common.
  unfoldable pub langfuse_get :
      AgentDeployment F → LangfuseSpec → String → (String → ℕ → String → String) → Exec F String
  langfuse_get a lf path message = do
    public_key ← read_secret_key a.namespace lf.secret_ref "LANGFUSE_PUBLIC_KEY"
    secret_key ← read_secret_key a.namespace lf.secret_ref "LANGFUSE_SECRET_KEY"
    let r = langfuse_request lf path public_key secret_key
    response ← exchange r
    body_of (message r.url) response
