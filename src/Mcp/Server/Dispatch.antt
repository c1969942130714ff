-- ===== src/Mcp/Server/Dispatch.antt =====
-- pkg/mcp/server.go: serveHTTP, and the three methods.
use helmdeep.Base.{String, ◌==◌, if◌then◌else◌, [], Result, ok, err, Dict}
use helmdeep.Base.Text.{◌+++◌}
use helmdeep.Json.{Json}
use helmdeep.Types.{ToolResult}
use helmdeep.Mcp.{CallContext, ListToolsResult}
use helmdeep.Mcp.Server.{
  HttpRequest, RpcRequest, RequestMeta, ToolCallParams, ResultBody, discovered, listed, called,
  HttpResponse, plain, rpc_result, Wire, HandlerError, protocol, internal, Server,
  code_method_not_found, code_invalid_params, code_internal_error, protocol_version_current, rpc,
  write_error,
}
use helmdeep.Mcp.Server.Checks.{bearer_token, screen}

-- The answer to an error of a handler. Only the text of a `ProtocolError` reaches the caller.
abbrev pub internal_error : String → HttpResponse
internal_error id = write_error 500 id (rpc code_internal_error "internal error")

abbrev pub handler_failed : String → HandlerError → HttpResponse
handler_failed id (protocol pe) = write_error 400 id (rpc pe.code pe.message)
handler_failed id (internal e) = internal_error id

abbrev pub raw_or_empty_array : String → String
raw_or_empty_array raw = if raw == "" then "[]" else raw

-- The arguments of a call; without them there are none.
abbrev pub arguments_of : Wire → String → Result String (Dict Json)
arguments_of wire raw = if raw == "" then ok [] else wire.decode_arguments raw

module _ {W : Type 0} (s : Server W) where
  -- `writeResult`
  unfoldable pub write_result : String → ResultBody → HttpResponse
  write_result id body =
      if s.wire.marshals body
      then record { status = 200; body = rpc_result id body s.version }
      else record { status = 500; body = plain "internal error" }

  unfoldable pub handle_discover : RpcRequest → HttpResponse
  unfolding write_result
  handle_discover req = write_result req.id (discovered protocol_version_current)

  -- `handleListTools` once the handler has answered.
  abbrev pub list_answered : String → Result HandlerError ListToolsResult × W → HttpResponse × W
  list_answered id (err e, w) = (internal_error id, w)
  list_answered id (ok res, w) = (write_result id (listed res.tools res.next_cursor), w)

  unfoldable pub handle_list_tools : RpcRequest → CallContext → W → HttpResponse × W
  unfolding write_result
  handle_list_tools req cc w =
      list_answered req.id (
        s.handler.list_tools cc (if req.params == "" then "" else s.wire.decode_cursor req.params)
          w)

  -- `handleCallTool` once the handler has answered.
  abbrev pub call_answered : String → Result HandlerError ToolResult × W → HttpResponse × W
  call_answered id (err e, w) = (handler_failed id e, w)
  call_answered id (ok res, w) = (
    write_result id (called (raw_or_empty_array res.content) res.structured_content res.is_error),
    w,
  )

  abbrev pub call_with_arguments :
      RpcRequest → CallContext → String → Result String (Dict Json) → W → HttpResponse × W
  call_with_arguments req cc name (err e) w =
      (write_error 400 req.id (rpc code_invalid_params ("malformed arguments: " +++ e)), w)
  call_with_arguments req cc name (ok args) w =
      call_answered req.id (s.handler.call_tool cc name args w)

  abbrev pub call_with_params :
      RpcRequest → CallContext → Result String ToolCallParams → W → HttpResponse × W
  call_with_params req cc (err e) w =
      (write_error 400 req.id (rpc code_invalid_params ("malformed tools/call params: " +++ e)), w)
  call_with_params req cc (ok p) w =
      call_with_arguments req cc p.name (arguments_of s.wire p.arguments) w

  unfoldable pub handle_call_tool : RpcRequest → CallContext → W → HttpResponse × W
  unfolding write_result
  handle_call_tool req cc w = call_with_params req cc (s.wire.decode_call req.params) w

  unfoldable pub dispatch : RpcRequest → CallContext → W → HttpResponse × W
  unfolding handle_discover handle_list_tools handle_call_tool
  dispatch req cc w =
      if req.method == "server/discover"
      then (handle_discover req, w)
      else if req.method == "tools/list"
      then handle_list_tools req cc w
      else if req.method == "tools/call"
      then handle_call_tool req cc w
      else (
        write_error 404 req.id (rpc code_method_not_found ("method not found: " +++ req.method)),
        w,
      )

  -- The context that a handler is given.
  abbrev pub call_context : HttpRequest → RequestMeta → String → CallContext
  call_context r meta request_id = record {
    credential = bearer_token r;
    client_info = meta.client_info;
    protocol_version = meta.protocol_version;
    request_id = request_id;
  }

  -- serveHTTP after the checks.
  abbrev pub served :
      HttpRequest → Result HttpResponse (RpcRequest × RequestMeta) → W → HttpResponse × W
  served r (err response) w = (response, w)
  served r (ok (req, meta)) w =
      let (request_id, w') = s.new_request_id w in dispatch req (call_context r meta request_id) w'

  unfoldable pub serve_http : HttpRequest → W → HttpResponse × W
  unfolding dispatch
  serve_http r w = served r (screen s.wire s.allowed_origins r) w
