-- ===== src/Kube/Http.antt =====
-- Requests over HTTP, and the decoders and formats of encoding/json, encoding/base64, net/url and
-- time, which are parameters.
use agentroll.Prelude.{ℕ, String, Option, List, Dict}

pub data Method : Type 0 where
  get_method post_method put_method : Method

-- How a request says who it is: not at all, SetBasicAuth, an Authorization header with a bearer token,
-- or the header x-api-key.
pub data Auth : Type 0 where
  no_auth : Auth
  basic : String → String → Auth
  bearer : String → Auth
  api_key : String → Auth

pub record ChatMessage : Type 0 where
  pub role : String
  pub content : String

-- What the body is or is marshalled from: nothing, a text as it is, a map of texts, or one of the two chat payloads, where
-- only Anthropic's has the system prompt as a field of its own.
pub data Payload : Type 0 where
  nothing_sent : Payload
  raw : String → Payload
  text_fields : Dict String → Payload
  anthropic : (model : String) (max_tokens : ℕ) (system : String) → List ChatMessage → Payload
  openai : (model : String) (max_tokens : ℕ) → List ChatMessage → Payload

pub record HttpRequest : Type 0 where
  pub method : Method
  pub url : String
  pub auth : Auth
  pub headers : Dict String
  pub payload : Payload

-- `body` is what io.ReadAll has read, and `unread` the text of its error.
pub record HttpResponse : Type 0 where
  pub status : ℕ
  pub body : String
  pub unread : Option String

-- An element of `data` in Langfuse's answer about judge scores, with the fields that are read.
pub record JudgeScore (F : Type 0) : Type 0 where
  pub value : F
  pub comment : String
  pub created_at : String

pub record Trace : Type 0 where
  pub id : String
  pub output : String

-- json.Unmarshal into each of the anonymous structs, `none` for an error.
pub record Codec (F : Type 0) : Type 0 where
  pub judge_scores : String → Option (List (JudgeScore F))
  pub scores : String → Option (List (String × F))
  pub traces : String → Option (List Trace)
  -- the type and the text of each block of Anthropic's `content`
  pub text_blocks : String → Option (List (String × String))
  -- the content of each of OpenAI's `choices`
  pub choices : String → Option (List String)
  pub object_sha : String → Option String
  pub html_url : String → Option String
  -- the text of such an error
  pub decode_error : String
  -- the text of http.NewRequestWithContext's error for a URL that it cannot parse
  pub url_error : String → Option String
  -- the URL with one pair in its query, by url.Values.Set and Encode
  pub with_query : String → String → String → String
  -- base64.StdEncoding
  pub base64 : String → String
  -- time.Parse and Format with RFC3339, and Format with "20060102-150405"
  pub parse_time : String → Option ℕ
  pub rfc3339 : ℕ → String
  pub compact_time : ℕ → String
