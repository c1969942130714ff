-- ===== src/Mcp/Client.antt =====
-- pkg/mcp/client.go: an upstream over HTTP. net/http and encoding/json are parameters; that a request
-- cannot be built counts as a call that fails.
pub mod Wire
pub mod Delivery
use helmdeep.Base.{
  ℕ, ℤ, pos, String, not, ◌&&◌, ◌==◌, if◌then◌else◌, Option, none, some, List, [], ◌∷◌, ◌++◌, map,
  Result, ok, err, Dict,
}
use text.Mathlib.Text.{starts_with}
use helmdeep.Base.Text.{◌+++◌}
use helmdeep.Json.{Json}
use helmdeep.Types.{Tool, ToolCall, ToolResult, Value}
use helmdeep.Mcp.{Upstream}
use helmdeep.Mcp.Server.{RpcRequest, RpcError, protocol_version_current}

-- The parameters of the two methods. The `_meta` that goes with each is the same in every request.
pub data ClientParams : Type 0 where
  of_list : ClientParams
  of_call : (name : String) → (arguments : Dict Json) → ClientParams

pub record OutRequest : Type 0 where
  pub url : String
  pub header : Dict String
  pub body : String

-- An answer, with what reading its body gives.
pub record HttpAnswer : Type 0 where
  pub status : ℕ
  pub content_type : String
  pub body : Result String String

pub record Envelope : Type 0 where
  pub result : String
  pub error : Option RpcError

-- `number` and `quote` are the verbs %d and %q of fmt.
pub record ClientWire : Type 0 where
  pub marshal_params : ClientParams → String
  pub marshal_request : RpcRequest → Result String String
  pub decode_envelope : String → Result String Envelope
  pub decode_tools : String → Result String (List Tool)
  pub decode_result : String → Result String ToolResult
  pub number : ℤ → String
  pub quote : String → String

pub record HttpUpstream (W : Type 0) : Type 0 where
  pub name : String
  pub base_url : String
  pub bearer_token : String
  pub wire : ClientWire
  pub post : OutRequest → W → Result String HttpAnswer × W
  pub new_request_id : W → String × W

-- The value of each argument, without its provenance.
abbrev pub payloads : Dict Value → Dict Json
payloads [] = []
payloads ((k, v) ∷ args) = (k, v.payload) ∷ payloads args

abbrev pub name_header : String → Dict String
name_header name = if not (name == "") then ("Mcp-Name", name) ∷ [] else []

module _ {W : Type 0} (u : HttpUpstream W) where
  -- The token of the call, or else the configured one.
  unfoldable pub presented : String → String
  presented credential_override =
      if not (credential_override == "") then credential_override else u.bearer_token

  abbrev pub authorization : String → Dict String
  authorization token =
      if not (token == "") then ("Authorization", "Bearer " +++ token) ∷ [] else []

  unfoldable pub headers : (method name credential_override : String) → Dict String
  unfolding presented
  headers method name credential_override =
      ("Content-Type", "application/json")
      ∷ ("Accept", "application/json, text/event-stream")
      ∷ ("MCP-Protocol-Version", protocol_version_current)
      ∷ ("Mcp-Method", method)
      ∷ (name_header name ++ authorization (presented credential_override))

  -- The result of an envelope, or the error that it carries.
  unfoldable pub opened : ℕ → Result String Envelope → Result String String
  opened status (err e) = err (
      "upstream "
      +++ u.name
      +++ " returned malformed JSON-RPC (HTTP "
      +++ u.wire.number (pos status)
      +++ "): "
      +++ e)
  opened status (ok envelope) = elim envelope.error [
    | some e ↦ err (
        "upstream "
        +++ u.name
        +++ " returned error "
        +++ u.wire.number e.code
        +++ ": "
        +++ e.message)
    | none ↦ ok envelope.result
  ]

  abbrev pub body_read : ℕ → Result String String → Result String String
  body_read status (err e) = err ("read response from upstream " +++ u.name +++ ": " +++ e)
  body_read status (ok text) = opened status (u.wire.decode_envelope text)

  -- After the upstream has answered, or the call has failed.
  unfoldable pub answered : Result String HttpAnswer → Result String String
  unfolding opened
  answered (err e) = err ("call upstream " +++ u.name +++ ": " +++ e)
  answered (ok a) =
      if not (a.content_type == "")
        && (not (a.content_type == "application/json")
            && not (starts_with a.content_type "application/json;"))
      then err (
          "upstream "
          +++ u.name
          +++ " responded with unsupported Content-Type "
          +++ u.wire.quote a.content_type
          +++ " (only application/json is supported)")
      else body_read a.status a.body

  abbrev pub posted :
      (method name credential_override : String)
      → Result String String
      → W
      → Result String String × W
  posted method name credential_override (err e) w =
      (err ("marshal request to upstream " +++ u.name +++ ": " +++ e), w)
  posted method name credential_override (ok body) w =
      let (a, w') =
        u.post
          (record {
            url = u.base_url;
            header = headers method name credential_override;
            body = body;
          })
          w in
      (answered a, w')

  abbrev pub request_of : (id method : String) → ClientParams → RpcRequest
  request_of id method params = record {
    id = u.wire.quote id;
    method = method;
    params = u.wire.marshal_params params;
  }

  -- `call`, up to the decoding of the result.
  unfoldable pub call :
      (method name credential_override : String) → ClientParams → W → Result String String × W
  unfolding answered headers
  call method name credential_override params w =
      let (id, w') = u.new_request_id w in
      posted method name credential_override (u.wire.marshal_request (request_of id method params))
        w'

  abbrev pub shaped : {A : Type 0} → Result String A → Result String A
  shaped (ok a) = ok a
  shaped (err e) = err ("upstream " +++ u.name +++ " result did not match expected shape: " +++ e)

  abbrev pub own : Tool → Tool
  own t = record t { upstream = u.name }

  abbrev pub owned : Result String (List Tool) → Result String (List Tool)
  owned (err e) = err e
  owned (ok tools) = ok (map own tools)

  abbrev pub tools_of : Result String String → Result String (List Tool)
  tools_of (err e) = err e
  tools_of (ok raw) = owned (shaped (u.wire.decode_tools raw))

  unfoldable pub list_tools : W → Result String (List Tool) × W
  unfolding call
  list_tools w = let (raw, w') = call "tools/list" "" "" of_list w in (tools_of raw, w')

  abbrev pub result_of : Result String String → Result String ToolResult
  result_of (err e) = err e
  result_of (ok raw) = shaped (u.wire.decode_result raw)

  unfoldable pub call_tool : ToolCall → W → Result String ToolResult × W
  unfolding call
  call_tool tc w =
      let (raw, w') =
        call "tools/call" tc.tool tc.credential (of_call tc.tool (payloads tc.arguments)) w in
      (result_of raw, w')

  abbrev pub as_upstream : Upstream W
  as_upstream = record { name = u.name; list_tools = list_tools; call_tool = call_tool }
