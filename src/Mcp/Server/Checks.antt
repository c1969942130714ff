-- ===== src/Mcp/Server/Checks.antt =====
-- pkg/mcp/server.go and meta.go: what serveHTTP checks before it hands a request on. A check fails
-- with the answer that serveHTTP writes.
use helmdeep.Base.{
  String, Bool, true, false, not, ◌&&◌, ◌||◌, ◌==◌, if◌then◌else◌, Option, none, some, List, [],
  ◌∷◌, Result, ok, err, ◌>>=◌, ◌>>◌, fail_if, Checked,
}
use helmdeep.Base.Text.{◌+++◌, ends_with, trim_prefix, trim_suffix}
use text.Mathlib.Text.{starts_with}
use helmdeep.Mcp.Server.{
  HttpRequest, RpcRequest, RpcError, RequestMeta, ToolCallParams, HttpResponse, empty, plain, Wire,
  code_parse_error, code_invalid_request, code_invalid_params, code_header_mismatch,
  code_unsupported_protocol_version, protocol_version_current, rpc, write_error,
}

abbrev pub contains : List String → String → Bool
contains [] v = false
contains (x ∷ xs) v = x == v || contains xs v

abbrev pub is_empty : List String → Bool
is_empty [] = true
is_empty (x ∷ xs) = false

-- The check of Origin.
unfoldable pub check_origin : List String → HttpRequest → Checked HttpResponse
check_origin allowed r =
    fail_if
      (not (r.header "Origin" == "")
        && (not (is_empty allowed) && not (contains allowed (r.header "Origin"))))
      (record { status = 403; body = plain "origin not allowed" })

unfoldable pub check_method : HttpRequest → Checked HttpResponse
check_method r = fail_if (not (r.method == "POST")) (record { status = 405; body = empty })

abbrev pub b64_sentinel_prefix : String
b64_sentinel_prefix = "=?base64?"

abbrev pub b64_sentinel_suffix : String
b64_sentinel_suffix = "?="

abbrev pub bearer_prefix : String
bearer_prefix = "Bearer "

-- `bearerToken`
unfoldable pub bearer_token : HttpRequest → String
bearer_token r =
    if starts_with (r.header "Authorization") bearer_prefix
    then trim_prefix (r.header "Authorization") bearer_prefix
    else ""

module _ (wire : Wire) where
  unfoldable pub decode_header_value : String → Result String String
  decode_header_value v =
      if starts_with v b64_sentinel_prefix && ends_with v b64_sentinel_suffix
      then wire.base64_decode (trim_suffix (trim_prefix v b64_sentinel_prefix) b64_sentinel_suffix)
      else ok v

  -- The comparison of the decoded header with the name in the parameters, where they can be read.
  abbrev pub compare_name : String → Result String ToolCallParams → Checked RpcError
  compare_name decoded (err e) = ok tt
  compare_name decoded (ok p) =
      fail_if (not (decoded == p.name))
        (rpc code_header_mismatch "Mcp-Name header does not match params.name")

  abbrev pub check_name : RpcRequest → Result String String → Checked RpcError
  check_name req (err e) =
      err (rpc code_header_mismatch ("Mcp-Name header is not validly encoded: " +++ e))
  check_name req (ok decoded) = compare_name decoded (wire.decode_call req.params)

  -- The part of the next for tools/call.
  unfoldable pub check_name_header : HttpRequest → RpcRequest → Checked RpcError
  unfolding decode_header_value
  check_name_header r req =
      if not (req.method == "tools/call")
      then ok tt
      else if r.header "Mcp-Name" == ""
      then err (rpc code_header_mismatch "missing required header: Mcp-Name")
      else check_name req (decode_header_value (r.header "Mcp-Name"))

  -- `validateStandardHeaders`
  unfoldable pub validate_standard_headers : HttpRequest → RpcRequest → Checked RpcError
  unfolding check_name_header
  validate_standard_headers r req = do
    fail_if (r.header "Mcp-Method" == "")
        (rpc code_header_mismatch "missing required header: Mcp-Method")
    fail_if (not (r.header "Mcp-Method" == req.method))
        (rpc code_header_mismatch "Mcp-Method header does not match body method")
    check_name_header r req

  -- The `_meta` of the parameters; without parameters there is none.
  abbrev pub meta_of : String → Result String (Option RequestMeta)
  meta_of params = if params == "" then ok none else wire.decode_meta params

  abbrev pub require_meta : Result String (Option RequestMeta) → Result RpcError RequestMeta
  require_meta (err e) = err (rpc code_invalid_params ("params is not a JSON object: " +++ e))
  require_meta (ok none) = err (rpc code_invalid_params "params._meta is required")
  require_meta (ok (some m)) =
      if m.protocol_version == ""
      then err (
          rpc code_invalid_params
            "params._meta[\"io.modelcontextprotocol/protocolVersion\"] is required")
      else if m.client_capabilities == ""
      then err (
          rpc code_invalid_params
            "params._meta[\"io.modelcontextprotocol/clientCapabilities\"] is required")
      else ok m

  -- `parseMeta`
  unfoldable pub parse_meta : String → Result RpcError RequestMeta
  parse_meta params = require_meta (meta_of params)

  -- An error of a check, as serveHTTP answers it.
  abbrev pub bad_request {ℓ} : {A : Type ℓ} → String → Result RpcError A → Result HttpResponse A
  bad_request id (ok a) = ok a
  bad_request id (err e) = err (write_error 400 id e)

  abbrev pub parsed : Result String RpcRequest → Result HttpResponse RpcRequest
  parsed (ok req) = ok req
  parsed (err e) =
      err (write_error 400 "" (rpc code_parse_error ("malformed JSON-RPC message: " +++ e)))

  -- The agreement of the header with the version in `_meta`, and the version itself.
  unfoldable pub check_version : HttpRequest → RpcRequest → RequestMeta → Checked HttpResponse
  check_version r req meta = do
    fail_if (r.header "MCP-Protocol-Version" == "") (
        write_error 400 req.id
          (rpc code_header_mismatch "missing required header: MCP-Protocol-Version"))
    fail_if (not (r.header "MCP-Protocol-Version" == meta.protocol_version)) (
        write_error 400 req.id (
          rpc code_header_mismatch
            "MCP-Protocol-Version header does not match _meta[\"io.modelcontextprotocol/protocolVersion\"]"))
    fail_if (not (meta.protocol_version == protocol_version_current)) (
        write_error 400 req.id (record {
          code = code_unsupported_protocol_version;
          message = "unsupported protocol version";
          supported = protocol_version_current ∷ [];
          requested = meta.protocol_version;
        }))

  -- All of serveHTTP up to the dispatch: the parsed request with its `_meta`, or the answer.
  unfoldable pub screen : List String → HttpRequest → Result HttpResponse (RpcRequest × RequestMeta)
  unfolding check_origin check_method validate_standard_headers parse_meta check_version
  screen allowed r = do
    check_origin allowed r
    check_method r
    req ← parsed (wire.decode_request r.body)
    fail_if (req.id == "") (
        write_error 400 ""
          (rpc code_invalid_request "notifications are not accepted on this endpoint"))
    bad_request req.id (validate_standard_headers r req)
    meta ← bad_request req.id (parse_meta req.params)
    check_version r req meta
    ok (req, meta)
