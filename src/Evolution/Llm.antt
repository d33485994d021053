-- ===== src/Evolution/Llm.antt =====
-- callLLM, callAnthropic and callOpenAI of internal/controller/evolution.go.
use agentroll.Prelude.{
  ℕ, String, ◌<>◌, List, [], ◌∷◌, decimal, quoted, or_default, ◌==◌, if◌then◌else◌,
}
use agentroll.Kube.{Env, HttpRequest, post_method, api_key, bearer, anthropic, openai, failed}
use agentroll.Kube.Exec.{Exec, pure, raise, wrapping, ◌>>=◌}
use agentroll.Langfuse.{exchange, body_of, decoded}

-- A single question to a model.
pub record Question : Type 0 where
  pub model : String
  pub key : String
  pub system : String
  pub user : String

unfoldable pub anthropic_request : Question → HttpRequest
anthropic_request q = record {
  method = post_method;
  url = "https://api.anthropic.com/v1/messages";
  auth = api_key q.key;
  headers = ("Content-Type", "application/json") ∷ ("anthropic-version", "2023-06-01") ∷ [];
  payload = anthropic q.model 1024 q.system (record { role = "user"; content = q.user } ∷ []);
}

unfoldable pub openai_request : Question → HttpRequest
openai_request q = record {
  method = post_method;
  url = "https://api.openai.com/v1/chat/completions";
  auth = bearer q.key;
  headers = ("Content-Type", "application/json") ∷ [];
  payload = openai q.model 1024 (
      record { role = "system"; content = q.system }
      ∷ record { role = "user"; content = q.user }
      ∷ []);
}

abbrev pub api_error : String → ℕ → String → String
api_error name status body = name <> " API returned " <> decimal status <> ": " <> body

module _ {F : Type 0} (env : Env F) where
  -- The first block of type "text".
  unfoldable pub first_text : List (String × String) → Exec F String
  first_text [] = raise (failed "no text content in Anthropic response")
  first_text ((kind, text) ∷ blocks) =
      let later = first_text blocks in if kind == "text" then pure text else later

  -- callAnthropic.
  unfoldable pub call_anthropic : Question → Exec F String
  call_anthropic q = do
    response ← exchange env (anthropic_request q)
    body ← body_of env (api_error "Anthropic") response
    blocks ← wrapping "parsing Anthropic response" (decoded env (env.codec.text_blocks body))
    first_text blocks

  unfoldable pub first_choice : List String → Exec F String
  first_choice [] = raise (failed "no choices in OpenAI response")
  first_choice (content ∷ _) = pure content

  -- callOpenAI.
  unfoldable pub call_openai : Question → Exec F String
  call_openai q = do
    response ← exchange env (openai_request q)
    body ← body_of env (api_error "OpenAI") response
    choices ← wrapping "parsing OpenAI response" (decoded env (env.codec.choices body))
    first_choice choices

  -- callLLM.
  unfoldable pub call_llm : String → Question → Exec F String
  call_llm provider q =
      let name = or_default provider "anthropic" in
      if name == "anthropic"
      then call_anthropic q
      else if name == "openai"
      then call_openai q
      else raise (
          failed ("unsupported LLM provider: " <> quoted name <> " (supported: anthropic, openai)"))
