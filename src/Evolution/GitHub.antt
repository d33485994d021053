-- ===== src/Evolution/GitHub.antt =====
-- openEvolutionPR and the GitHub helpers of internal/controller/evolution.go.
use agentroll.Prelude.{
  String, ◌<>◌, Option, none, some, [], ◌∷◌, Dict, decimal, leb, or_default, if◌then◌else◌,
}
use agentroll.Api.{AgentDeployment, GitHubSpec, HumanApprovalSpec}
use agentroll.Kube.{
  Env, HttpRequest, HttpResponse, Method, get_method, post_method, put_method, bearer, Payload,
  nothing_sent, text_fields, failed,
}
use agentroll.Kube.Exec.{Exec, pure, raise, gets, wrapping, ◌>>=◌, ◌>>◌}
use agentroll.Langfuse.{read_secret_key, exchange, decoded}

-- `ev.HumanApproval != nil && ev.HumanApproval.GitHub != nil`.
abbrev pub github_of : Option HumanApprovalSpec → Option GitHubSpec
github_of none = none
github_of (some approval) = approval.git_hub

abbrev method_text : Method → String
method_text get_method = "GET"
method_text post_method = "POST"
method_text put_method = "PUT"

abbrev content_headers : Payload → Dict String
content_headers nothing_sent = []
content_headers _ = ("Content-Type", "application/json") ∷ []

-- The request of githubDo.
unfoldable pub github_request : Method → String → Payload → String → HttpRequest
github_request method url payload token = record {
  method = method;
  url = url;
  auth = bearer token;
  headers =
      ("Accept", "application/vnd.github+json")
      ∷ ("X-GitHub-Api-Version", "2022-11-28")
      ∷ content_headers payload;
  payload = payload;
}

module _ {F : Type 0} (env : Env F) where
  unfoldable pub below_300 : Method → String → HttpResponse → Exec F String
  below_300 method url r =
      if leb 300 r.status
      then raise (
          failed (
            "GitHub API "
            <> method_text method
            <> " "
            <> url
            <> " → "
            <> decimal r.status
            <> ": "
            <> r.body))
      else pure r.body

  -- githubDo.
  unfoldable pub github_do : Method → String → Payload → String → Exec F String
  github_do method url payload token = do
    response ← exchange env (github_request method url payload token)
    below_300 method url response

  -- githubGetBranchSHA.
  unfoldable pub github_get_branch_sha : String → String → String → Exec F String
  github_get_branch_sha api_base branch token = do
    body ← github_do get_method (api_base <> "/git/ref/heads/" <> branch) nothing_sent token
    decoded env (env.codec.object_sha body)

  -- githubCreateBranch.
  unfoldable pub github_create_branch : String → String → String → String → Exec F (Unit {0})
  github_create_branch api_base branch sha token = do
    _ ←
        github_do post_method (api_base <> "/git/refs")
          (text_fields (("ref", "refs/heads/" <> branch) ∷ ("sha", sha) ∷ [])) token
    pure tt

  -- githubCreateFile.
  unfoldable pub github_create_file :
      String → String → String → String → String → String → Exec F (Unit {0})
  github_create_file api_base path branch message content token = do
    _ ←
        github_do put_method (api_base <> "/contents/" <> path)
          (text_fields (("message", message) ∷ ("content", content) ∷ ("branch", branch) ∷ []))
          token
    pure tt

  -- githubCreatePR.
  unfoldable pub github_create_pr :
      String → String → String → String → String → String → Exec F String
  github_create_pr api_base title body head base token = do
    answer ←
        github_do post_method (api_base <> "/pulls")
          (text_fields (("title", title) ∷ ("body", body) ∷ ("head", head) ∷ ("base", base) ∷ []))
          token
    decoded env (env.codec.html_url answer)

  unfoldable pub proposal_file : String → String → String → String
  proposal_file strategy agent_name content =
      "# AgentRoll Evolution Proposal\n\n**Strategy**: "
      <> strategy
      <> "  \n**Agent**: "
      <> agent_name
      <> "  \n**Generated**: "
      <> env.codec.rfc3339 env.now
      <> "  \n\n---\n\n"
      <> content
      <> "\n"

  unfoldable pub proposal_body : String → AgentDeployment F → String → String
  proposal_body strategy a file_path =
      "## AgentRoll Evolution Proposal\n\n**Strategy**: `"
      <> strategy
      <> "`  \n**Agent**: `"
      <> a.name
      <> "`  \n**Canary version**: `"
      <> a.status.canary_version
      <> "`\n\nThis PR was automatically generated by AgentRoll's self-evolution loop.\n\n"
      <> "### Proposed Change\n\nSee `"
      <> file_path
      <> "` for the full suggestion.\n\n"
      <> "---\n*Generated by AgentRoll at "
      <> env.codec.rfc3339 env.now
      <> "*"

  -- openEvolutionPR, with the repository of the spec.
  unfoldable pub open_evolution_pr : GitHubSpec → String → String → Exec F String
  open_evolution_pr gh strategy content = do
    a ← gets (λ w. w.agent)
    token ←
        wrapping "reading GitHub token"
          (read_secret_key env a.namespace gh.secret_ref "GITHUB_TOKEN")
    let base = or_default gh.base_branch "main"
    let stamp = env.codec.compact_time env.now
    let branch = "agentroll/evolution/" <> strategy <> "/" <> a.name <> "/" <> stamp
    let path = ".agentroll/evolution/" <> a.name <> "/" <> strategy <> "-" <> stamp <> ".md"
    let api_base = "https://api.github.com/repos/" <> gh.owner <> "/" <> gh.repo
    sha ← wrapping "getting base branch SHA" (github_get_branch_sha api_base base token)
    wrapping "creating branch" (github_create_branch api_base branch sha token)
    wrapping "creating file" (
        github_create_file api_base path branch
          ("agentroll: " <> strategy <> " evolution proposal for " <> a.name)
          (env.codec.base64 (proposal_file strategy a.name content)) token)
    wrapping "creating PR" (
        github_create_pr api_base
          ("[AgentRoll] " <> strategy <> " evolution proposal for " <> a.name)
          (proposal_body strategy a path) branch base token)
