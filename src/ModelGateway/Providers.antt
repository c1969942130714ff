-- ===== src/ModelGateway/Providers.antt =====
-- pkg/modelgw/anthropic.go and azureopenai.go: the two providers, each over a parameter for the HTTP
-- client and for encoding/json; that a request cannot be built counts as a call that fails.
pub mod Reading
pub mod Answers
use helmdeep.Base.{
  ℕ, ℤ, pos, negsuc, zero, suc, String, Bool, true, false, not, ◌==◌, if◌then◌else◌, Option, none,
  some, List, [], ◌∷◌, Result, ok, err, Dict,
}
use Prim.Native.String.{len, slice}
use Prim.Native.Nat.{◌-◌}
use helmdeep.Base.Text.{◌+++◌, eqb, ends_with}
use helmdeep.ModelGateway.{Message, Request, Response, TokenUsage, Provider}

-- A request to a model service, and its answer with what reading the body gives.
pub record ServiceRequest : Type 0 where
  pub url : String
  pub header : Dict String
  pub body : String

pub record ServiceAnswer : Type 0 where
  pub status : ℕ
  pub body : Result String String

abbrev pub ensure_trailing_slash : String → String
ensure_trailing_slash s = if s == "" then s else if ends_with s "/" then s else s +++ "/"

pub record AnthropicRequest : Type 0 where
  pub model : String
  pub system : String
  pub messages : List Message
  pub max_tokens : ℤ
  pub temperature : String

pub record Part : Type 0 where
  pub type : String
  pub text : String

pub record AnthropicResponse : Type 0 where
  pub model : String
  pub content : List Part
  pub input_tokens : ℤ
  pub output_tokens : ℤ
  pub error : Option String

pub record AzureChatRequest : Type 0 where
  pub messages : List Message
  pub max_tokens : ℤ
  pub temperature : String

pub record AzureChatResponse : Type 0 where
  pub model : String
  pub choices : List String
  pub prompt_tokens : ℤ
  pub completion_tokens : ℤ
  pub error : Option String

-- encoding/json at these shapes; `number` is the verb %d of fmt.
pub record ServiceWire : Type 0 where
  pub marshal_anthropic : AnthropicRequest → Result String String
  pub unmarshal_anthropic : String → Result String AnthropicResponse
  pub marshal_azure : AzureChatRequest → Result String String
  pub unmarshal_azure : String → Result String AzureChatResponse
  pub number : ℕ → String

abbrev pub default_anthropic_base_url : String
default_anthropic_base_url = "https://api.anthropic.com"

abbrev pub anthropic_api_version : String
anthropic_api_version = "2023-06-01"

pub record AnthropicProvider : Type 0 where
  pub api_key : String
  pub workspace_id : String
  pub base_url : String

pub record AzureOpenAiProvider : Type 0 where
  pub endpoint : String
  pub api_key : String
  pub api_version : String

-- The text so far, and one more system message.
abbrev pub with_system : String → String → String
with_system system content = (if not (system == "") then system +++ "\n\n" else system) +++ content

-- The loop over the messages: those of the role "system" are joined, the others are kept.
unfoldable pub gather : String → List Message → String × List Message
gather system [] = (system, [])
gather system (m ∷ ms) =
    let is_system = m.role == "system" in
    let (joined, rest) = gather (if is_system then with_system system m.content else system) ms in
    (joined, if is_system then rest else m ∷ rest)

-- Anthropic has no default for the tokens of an answer.
abbrev pub max_tokens_of : ℤ → ℤ
max_tokens_of (pos zero) = pos 1024
max_tokens_of (pos (suc n)) = pos (suc n)
max_tokens_of (negsuc n) = pos 1024

unfoldable pub anthropic_request : String → Request → AnthropicRequest
unfolding gather
anthropic_request model req =
    let (system, messages) = gather "" req.messages in
    record {
      model = model;
      system = system;
      messages = messages;
      max_tokens = max_tokens_of req.max_tokens;
      temperature = req.temperature;
    }

-- The loop that joins the parts of the type "text".
unfoldable pub text_of : String → List Part → String
text_of text [] = text
text_of text (p ∷ ps) = text_of (if p.type == "text" then text +++ p.text else text) ps

module _ {W : Type 0} (wire : ServiceWire)
    (post : ServiceRequest → W → Result String ServiceAnswer × W) where
  abbrev pub http : ℕ → String
  http status = "(HTTP " +++ wire.number status +++ ")"

  -- What both providers refuse after the body has been decoded: an error that it carries, and any
  -- status but 200.
  abbrev pub refused : (what : String) → ℕ → String → Option String → Option String
  refused what status body (some message) = some (what +++ ": " +++ message +++ " " +++ http status)
  refused what status body none =
      if eqb status 200
      then none
      else some (what +++ ": HTTP " +++ wire.number status +++ ": " +++ body)

  -- What both providers do with an answer, or with a call that failed: `error_of` is the error that
  -- a decoded body carries, and `finish` makes a response of one without an error.
  abbrev pub parsed :
      {A : Type 0}
      → (what : String) → (A → Option String)
      → (A → Result String Response)
      → ℕ
      → String
      → Result String A
      → Result String Response
  parsed what error_of finish status body (err e) =
      err (what +++ ": malformed response " +++ http status +++ ": " +++ e)
  parsed what error_of finish status body (ok a) = elim (refused what status body (error_of a)) [
    | some e ↦ err e
    | none ↦ finish a
  ]

  abbrev pub read :
      {A : Type 0}
      → (what : String) → (String → Result String A)
      → (A → Option String)
      → (A → Result String Response)
      → ℕ
      → Result String String
      → Result String Response
  read what unmarshal error_of finish status (err e) = err (what +++ ": read response: " +++ e)
  read what unmarshal error_of finish status (ok body) =
      parsed what error_of finish status body (unmarshal body)

  unfoldable pub answered :
      {A : Type 0}
      → (what : String) → (String → Result String A)
      → (A → Option String)
      → (A → Result String Response)
      → Result String ServiceAnswer
      → Result String Response
  answered what unmarshal error_of finish (err e) = err (what +++ ": request failed: " +++ e)
  answered what unmarshal error_of finish (ok a) =
      read what unmarshal error_of finish a.status a.body

  abbrev pub anthropic_response : AnthropicResponse → Response
  anthropic_response a = record {
    provider = "anthropic";
    model = a.model;
    content = text_of "" a.content;
    usage = record { prompt_tokens = a.input_tokens; completion_tokens = a.output_tokens };
    fallback_from = "";
  }

  abbrev pub anthropic_answered : Result String ServiceAnswer → Result String Response
  anthropic_answered =
      answered "anthropic" wire.unmarshal_anthropic (λ a. a.error) (λ a. ok (anthropic_response a))

  abbrev pub anthropic_headers : AnthropicProvider → Dict String
  anthropic_headers p =
      ("Content-Type", "application/json")
      ∷ ("x-api-key", p.api_key)
      ∷ ("anthropic-version", anthropic_api_version)
      ∷ (if not (p.workspace_id == "") then ("anthropic-workspace-id", p.workspace_id) ∷ [] else [])

  abbrev pub anthropic_call : AnthropicProvider → String → ServiceRequest
  anthropic_call p body = record {
    url =
        ensure_trailing_slash (if p.base_url == "" then default_anthropic_base_url else p.base_url)
        +++ "v1/messages";
    header = anthropic_headers p;
    body = body;
  }

  unfoldable pub anthropic_complete :
      AnthropicProvider → String → Request → W → Result String Response × W
  unfolding anthropic_request answered
  anthropic_complete p model req w = elim (wire.marshal_anthropic (anthropic_request model req)) [
    | err e ↦ (err ("anthropic: marshal request: " +++ e), w)
    | ok body ↦ let (a, w') = post (anthropic_call p body) w in (anthropic_answered a, w')
  ]

  abbrev pub azure_chosen : AzureChatResponse → List String → Result String Response
  azure_chosen a [] = err "azure-openai: response had no choices"
  azure_chosen a (content ∷ more) = ok (record {
    provider = "azure-openai";
    model = a.model;
    content = content;
    usage = record { prompt_tokens = a.prompt_tokens; completion_tokens = a.completion_tokens };
    fallback_from = "";
  })

  abbrev pub azure_answered : Result String ServiceAnswer → Result String Response
  azure_answered =
      answered "azure-openai" wire.unmarshal_azure (λ a. a.error) (λ a. azure_chosen a a.choices)

  abbrev pub azure_request : Request → AzureChatRequest
  azure_request req = record {
    messages = req.messages;
    max_tokens = req.max_tokens;
    temperature = req.temperature;
  }

  abbrev pub azure_call : AzureOpenAiProvider → String → String → ServiceRequest
  azure_call p deployment body = record {
    url =
        ensure_trailing_slash p.endpoint
        +++ "openai/deployments/"
        +++ deployment
        +++ "/chat/completions?api-version="
        +++ p.api_version;
    header = ("Content-Type", "application/json") ∷ ("api-key", p.api_key) ∷ [];
    body = body;
  }

  unfoldable pub azure_complete :
      AzureOpenAiProvider → String → Request → W → Result String Response × W
  unfolding answered
  azure_complete p deployment req w = elim (wire.marshal_azure (azure_request req)) [
    | err e ↦ (err ("azure-openai: marshal request: " +++ e), w)
    | ok body ↦ let (a, w') = post (azure_call p deployment body) w in (azure_answered a, w')
  ]

  abbrev pub anthropic : AnthropicProvider → Provider W
  anthropic p = record { name = "anthropic"; complete = anthropic_complete p }

  abbrev pub azure_openai : AzureOpenAiProvider → Provider W
  azure_openai p = record { name = "azure-openai"; complete = azure_complete p }
