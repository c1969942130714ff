-- ===== src/Mcp/Server.antt =====
-- pkg/mcp/server.go, meta.go and jsonrpc.go: the listener for agents. A request is its method, its
-- headers and its body; an answer is a status and a body, before encoding/json writes it out.
-- Sockets, timeouts and the mounting of other handlers are net/http's.
pub mod Checks
pub mod Dispatch
pub mod Admission
pub mod Refusal
pub mod Agreement
pub mod Keeps
use helmdeep.Base.{
  ℕ, String, Bool, true, false, ℤ, negsuc, Option, none, List, [], ◌∷◌, Result, Dict,
}
use helmdeep.Json.{Json}
use helmdeep.Types.{Tool, ToolResult}
use helmdeep.Mcp.{Implementation, CallContext, ListToolsResult, ProtocolError}

-- `Header.Get`: the first value of a header, "" where there is none.
pub record HttpRequest : Type 0 where
  pub method : String
  pub header : String → String
  pub body : String

-- `id` and `params` are raw JSON, "" where the member is absent.
pub record RpcRequest : Type 0 where
  pub id : String
  pub method : String
  pub params : String

pub record RpcError : Type 0 where
  pub code : ℤ
  pub message : String
  pub supported : List String
  pub requested : String

pub record RequestMeta : Type 0 where
  pub protocol_version : String
  pub client_info : Option Implementation
  pub client_capabilities : String

pub record ToolCallParams : Type 0 where
  pub name : String
  pub arguments : String

-- The result objects of the three methods. The server's name and version go with each.
pub data ResultBody : Type 0 where
  discovered : (supported : String) → ResultBody
  listed : List Tool → (next_cursor : String) → ResultBody
  called : (content structured_content : String) → (is_error : Bool) → ResultBody

pub data Body : Type 0 where
  empty : Body
  plain : String → Body
  rpc_error : (id : String) → RpcError → Body
  rpc_result : (id : String) → ResultBody → (version : String) → Body

pub record HttpResponse : Type 0 where
  pub status : ℕ
  pub body : Body

-- encoding/json at the shapes that the server reads and writes, and encoding/base64. Only the cursor
-- of a list request is read, and a text that is malformed has none, or the one that was read first.
pub record Wire : Type 0 where
  pub decode_request : String → Result String RpcRequest
  pub decode_meta : String → Result String (Option RequestMeta)
  pub decode_cursor : String → String
  pub decode_call : String → Result String ToolCallParams
  pub decode_arguments : String → Result String (Dict Json)
  pub base64_decode : String → Result String String
  pub marshals : ResultBody → Bool

-- An error of a handler: a `ProtocolError`, or any other.
pub data HandlerError : Type 0 where
  protocol : ProtocolError → HandlerError
  internal : String → HandlerError

pub record Handler (W : Type 0) : Type 0 where
  pub list_tools : CallContext → String → W → Result HandlerError ListToolsResult × W
  pub call_tool : CallContext → String → Dict Json → W → Result HandlerError ToolResult × W

-- `new_request_id` reads crypto/rand.
pub record Server (W : Type 0) : Type 0 where
  pub allowed_origins : List String
  pub handler : Handler W
  pub version : String
  pub wire : Wire
  pub new_request_id : W → String × W

abbrev pub code_parse_error : ℤ
code_parse_error = negsuc 32699

abbrev pub code_invalid_request : ℤ
code_invalid_request = negsuc 32599

abbrev pub code_method_not_found : ℤ
code_method_not_found = negsuc 32600

abbrev pub code_invalid_params : ℤ
code_invalid_params = negsuc 32601

abbrev pub code_internal_error : ℤ
code_internal_error = negsuc 32602

abbrev pub code_header_mismatch : ℤ
code_header_mismatch = negsuc 32019

abbrev pub code_unsupported_protocol_version : ℤ
code_unsupported_protocol_version = negsuc 32021

abbrev pub protocol_version_current : String
protocol_version_current = "2026-07-28"

abbrev pub rpc : ℤ → String → RpcError
rpc code message = record { code = code; message = message; supported = []; requested = "" }

abbrev pub write_error : ℕ → String → RpcError → HttpResponse
write_error status id e = record { status = status; body = rpc_error id e }
