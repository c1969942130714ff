-- ===== src/Mcp/Server/Agreement.antt =====
-- What a handler is asked in one request.
use helmdeep.Base.{
  String, ◌==◌, eq_iff, if◌then◌else◌, List, ◌∷◌, Result, ok, err, Dict, ◌≡◌, ◌⊎◌, inl, inr, refl,
  Bool-cases, ◌∙◌, ap,
}
use helmdeep.Json.{Json}
use helmdeep.Types.{ToolResult}
use helmdeep.Mcp.{CallContext, ListToolsResult}
use helmdeep.Mcp.Server.{
  HttpRequest, RpcRequest, RequestMeta, ToolCallParams, HttpResponse, HandlerError, Server,
  protocol_version_current,
}
use helmdeep.Mcp.Server.Checks.{bearer_token, decode_header_value, screen}
use helmdeep.Mcp.Server.Dispatch.{
  arguments_of, list_answered, call_answered, call_with_arguments, call_with_params,
  handle_list_tools, handle_call_tool, dispatch, call_context, served, serve_http,
}
use helmdeep.Mcp.Server.Admission.{IsAdmitted, screen_iff}

-- What a handler was asked.
pub data Asked : Type 0 where
  tools : CallContext → String → Asked
  tool : CallContext → String → Dict Json → Asked

module _ {W : Type 0} (s : Server W) where
  -- The same server, whose world keeps a log of what the handler was asked.
  abbrev pub logged : Server (W × List Asked)
  logged = record {
    allowed_origins = s.allowed_origins;
    handler = record {
      list_tools = λ cc cursor (w, log).
          let (r, w') = s.handler.list_tools cc cursor w in (r, (w', tools cc cursor ∷ log));
      call_tool = λ cc name args (w, log).
          let (r, w') = s.handler.call_tool cc name args w in (r, (w', tool cc name args ∷ log));
    };
    version = s.version;
    wire = s.wire;
    new_request_id = λ (w, log). let (id, w') = s.new_request_id w in (id, (w', log));
  }

  -- The context is that of the request, in the one version that is spoken.
  abbrev pub IsFrom : HttpRequest → CallContext → Type 0
  IsFrom r cc = (cc.credential ≡ bearer_token r) × (cc.protocol_version ≡ protocol_version_current)

  -- What is asked is what the headers say.
  abbrev pub Agrees : HttpRequest → Asked → Type 0
  Agrees r (tools cc cursor) = IsFrom r cc × (r.header "Mcp-Method" ≡ "tools/list")
  Agrees r (tool cc name args) =
      IsFrom r cc
      × (r.header "Mcp-Method" ≡ "tools/call")
      × (decode_header_value s.wire (r.header "Mcp-Name") ≡ ok name)

  -- Nothing was added to the log, or one event that agrees with the headers.
  abbrev pub AddsOne : HttpRequest → List Asked → List Asked → Type 0
  AddsOne r log log' = (log' ≡ log) ⊎ ((e : Asked) × (log' ≡ e ∷ log) × Agrees r e)

  log-list_answered :
      (id : String) (a : Result HandlerError ListToolsResult) (v : W × List Asked)
      → (list_answered logged id (a, v)).1 ≡ v
  log-list_answered id (ok res) v = refl
  log-list_answered id (err e) v = refl

  log-call_answered :
      (id : String) (a : Result HandlerError ToolResult) (v : W × List Asked)
      → (call_answered logged id (a, v)).1 ≡ v
  log-call_answered id (ok res) v = refl
  log-call_answered id (err e) v = refl

  AddsOne-call_with_arguments :
      (r : HttpRequest) (req : RpcRequest) (cc : CallContext) (name : String)
      (args : Result String (Dict Json)) (w : W) (log : List Asked)
      → IsFrom r cc
      → r.header "Mcp-Method" ≡ "tools/call"
      → decode_header_value s.wire (r.header "Mcp-Name") ≡ ok name
      → AddsOne r log (call_with_arguments logged req cc name args (w, log)).1.1
  AddsOne-call_with_arguments r req cc name (err e) w log from verb named = inl refl
  AddsOne-call_with_arguments r req cc name (ok args) w log from verb named =
      let (a, w') = s.handler.call_tool cc name args w in
      inr (
        tool cc name args,
        ap (λ v. v.1) (log-call_answered req.id a (w', tool cc name args ∷ log)),
        (from, verb, named),
      )

  AddsOne-call_with_params :
      (r : HttpRequest) (req : RpcRequest) (cc : CallContext) (p : Result String ToolCallParams)
      (w : W) (log : List Asked)
      → IsFrom r cc
      → r.header "Mcp-Method" ≡ "tools/call"
      → ((q : ToolCallParams)
          → p ≡ ok q
          → decode_header_value s.wire (r.header "Mcp-Name") ≡ ok q.name)
      → AddsOne r log (call_with_params logged req cc p (w, log)).1.1
  AddsOne-call_with_params r req cc (err e) w log from verb named = inl refl
  AddsOne-call_with_params r req cc (ok p) w log from verb named =
      AddsOne-call_with_arguments r req cc p.name (arguments_of s.wire p.arguments) w log from verb
        (named p refl)

  AddsOne-dispatch :
      (r : HttpRequest) (req : RpcRequest) (meta : RequestMeta) (id : String) (w : W)
      (log : List Asked)
      → IsAdmitted s.wire s.allowed_origins r req meta
      → AddsOne r log (dispatch logged req (call_context logged r meta id) (w, log)).1.1
  unfolding dispatch handle_list_tools handle_call_tool
  AddsOne-dispatch r req meta id w log a =
      let cc = call_context s r meta id in
      let from : IsFrom r cc = (refl, a.version_current) in
      elim (Bool-cases (req.method == "server/discover")) [
        | inl discover ↦ rw (discover, dispatch) (inl refl)
        | inr other ↦ elim (Bool-cases (req.method == "tools/list")) [
          | inl list ↦
              let cursor = if req.params == "" then "" else s.wire.decode_cursor req.params in
              let (res, w') = s.handler.list_tools cc cursor w in
              rw (other, list, dispatch)
                (inr (
                  tools cc cursor,
                  ap (λ v. v.1) (log-list_answered req.id res (w', tools cc cursor ∷ log)),
                  (from, a.method_agrees ∙ (eq_iff req.method "tools/list").0 list),
                ))
          | inr other' ↦ elim (Bool-cases (req.method == "tools/call")) [
            | inr unknown ↦ rw (other, other', unknown, dispatch) (inl refl)
            | inl call ↦
                let called = (eq_iff req.method "tools/call").0 call in
                let (_, name, decoded, agree) = a.name_agrees called in
                rw (other, other', call, dispatch)
                  (AddsOne-call_with_params r req cc (s.wire.decode_call req.params) w log from
                    (a.method_agrees ∙ called) (λ p read. decoded ∙ ap ok (agree p read)))
          ]
        ]
      ]

  AddsOne-served :
      (r : HttpRequest) (c : Result HttpResponse (RpcRequest × RequestMeta)) (w : W)
      (log : List Asked)
      → ((req : RpcRequest) (meta : RequestMeta)
          → c ≡ ok (req, meta)
          → IsAdmitted s.wire s.allowed_origins r req meta)
      → AddsOne r log (served logged r c (w, log)).1.1
  AddsOne-served r (err response) w log h = inl refl
  AddsOne-served r (ok (req, meta)) w log h =
      let (id, w') = s.new_request_id w in AddsOne-dispatch r req meta id w' log (h req meta refl)

  -- One request asks the handler at most once, and asks what its headers say: the method of the
  -- Mcp-Method header, for a call the tool that the Mcp-Name header names, with the bearer token of
  -- the Authorization header, in the current version.
  pub serve_http-AddsOne :
      (r : HttpRequest) (w : W) (log : List Asked)
      → AddsOne r log (serve_http logged r (w, log)).1.1
  unfolding serve_http
  serve_http-AddsOne r w log =
      AddsOne-served r (screen s.wire s.allowed_origins r) w log
        (λ req meta. (screen_iff s.wire s.allowed_origins r req meta).0)
