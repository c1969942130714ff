-- ===== src/Mcp/Client/Delivery.antt =====
-- The two ends of the protocol together: HTTPUpstream asking the server of this package.
use mathlib.Core.Path.{subst}
use text.Mathlib.TextPositions.{starts_with-append, slice-append_right, len-append}
use helmdeep.Base.{
  String, true, ◌==◌, some, [], Result, ok, err, Dict, ◌≡◌, ◌≢◌, refl, sym, ap, ◌∙◌, eq_iff,
  Bool-cases, inl, inr,
}
use helmdeep.Base.Text.{◌+++◌, test_of_ne}
use helmdeep.Json.{Json}
use helmdeep.Types.{ToolCall, ToolResult}
use helmdeep.Mcp.{CallContext}
use helmdeep.Mcp.Server.{
  HttpRequest, ToolCallParams, called, Body, HttpResponse, HandlerError, protocol, internal, Server,
  code_internal_error, protocol_version_current,
}
use helmdeep.Mcp.Server.Checks.{bearer_token, decode_header_value}
use helmdeep.Mcp.Server.Dispatch.{
  raw_or_empty_array, call_answered, call_with_params, call_with_arguments, dispatch, call_context,
  served, serve_http, handle_call_tool, write_result,
}
use helmdeep.Mcp.Server.Admission.{IsAdmitted, screen_iff}
use helmdeep.Mcp.Client.{
  of_call, OutRequest, HttpUpstream, payloads, presented, headers, answered, opened, request_of,
  call, result_of, posted, shaped, call_tool,
}
use helmdeep.Mcp.Client.Wire.{
  received, delivered, arrived, connected, IsCarried, carried_lem, client_implementation,
  Understands,
}

bearer_token_lem :
    (r : HttpRequest) (token : String)
    → r.header "Authorization" ≡ "Bearer " +++ token
    → bearer_token r ≡ token
unfolding bearer_token
bearer_token_lem r token h =
    rw (h, starts_with-append "Bearer " token, len-append "Bearer " token)
      (slice-append_right "Bearer " token)

bearer_token_none : (r : HttpRequest) → r.header "Authorization" ≡ "" → bearer_token r ≡ ""
unfolding bearer_token
bearer_token_none r h = rw h refl

name_of_ok :
    (name raw : String) (p : ToolCallParams)
    → ◌≡◌ {A = Result String ToolCallParams} (ok (record { name = name; arguments = raw })) (ok p)
    → name ≡ p.name
name_of_ok name raw p h =
    let e : ◌≡◌ {A = ToolCallParams} (record { name = name; arguments = raw }) p = cc in
    ap (λ x. x.name) e

module _ {W : Type 0} (s : Server W) (u : HttpUpstream W) where
  -- The context that the handler is given, when the client's request carries this credential.
  abbrev pub context_of : (credential request_id : String) → CallContext
  context_of credential request_id = record {
    credential = presented u credential;
    client_info = some client_implementation;
    protocol_version = protocol_version_current;
    request_id = request_id;
  }

  -- What CallTool makes of the answer of the handler, raw messages in the form `compact`. An error that
  -- is no protocol error is not told.
  abbrev pub Delivered :
      (String → String) → Result HandlerError ToolResult → Result String ToolResult → Type 0
  Delivered compact (ok res) a =
      a
      ≡ ok (record {
        content = compact (raw_or_empty_array res.content);
        structured_content = compact res.structured_content;
        is_error = res.is_error;
      })
  Delivered compact (err (protocol pe)) a =
      (code : String) × (a
        ≡ err ("upstream " +++ u.name +++ " returned error " +++ code +++ ": " +++ pe.message))
  Delivered compact (err (internal e)) a =
      (code : String) × (a
        ≡ err
            ("upstream " +++ u.name +++ " returned error " +++ code +++ ": " +++ "internal error"))

  -- The client's request for a call.
  abbrev sent : (name credential body : String) → HttpRequest
  sent name credential body =
      received
        (record { url = u.base_url; header = headers u "tools/call" name credential; body = body })

  sent-bearer_token :
      (name credential body : String)
      → name ≢ ""
      → bearer_token (sent name credential body) ≡ presented u credential
  unfolding headers
  sent-bearer_token name credential body named = elim (Bool-cases (presented u credential == "")) [
    | inl nothing ↦
        bearer_token_none (sent name credential body) (rw (test_of_ne name named, nothing) refl)
        ∙ sym ((eq_iff (presented u credential) "").0 nothing)
    | inr something ↦
        bearer_token_lem (sent name credential body) (presented u credential)
          (rw (test_of_ne name named, something) refl)
  ]

  sent-name :
      (name credential body : String)
      → name ≢ ""
      → (sent name credential body).header "Mcp-Name" ≡ name
  unfolding headers
  sent-name name credential body named = rw (test_of_ne name named) refl

  sent-origin :
      (name credential body : String) → name ≢ "" → (sent name credential body).header "Origin" ≡ ""
  unfolding headers
  sent-origin name credential body named = elim (Bool-cases (presented u credential == "")) [
    | inl nothing ↦ rw (test_of_ne name named, nothing) refl
    | inr something ↦ rw (test_of_ne name named, something) refl
  ]

  module _ (encode : Body → String) (compact : String → String) (id name : String)
      (args : Dict Json) (h : Understands u.wire s.wire encode compact id name args)
      (named : name ≢ "") (plain_name : decode_header_value s.wire name ≡ ok name) where
    -- What the client sends passes the checks of the server.
    sent-IsAdmitted :
        (credential body : String)
        → s.wire.decode_request body ≡ ok (request_of u id "tools/call" (of_call name args))
        → IsAdmitted s.wire s.allowed_origins
            (sent name credential body)
            (request_of u id "tools/call" (of_call name args))
            (record {
              protocol_version = protocol_version_current;
              client_info = some client_implementation;
              client_capabilities = h.params.1;
            })
    unfolding headers
    sent-IsAdmitted credential body decoded =
        let (given, capabilities, meta, capable, raw, read, back) = h.params in
        record {
          same_site = inl (sent-origin name credential body named);
          posted = refl;
          decoded = decoded;
          identified = h.quotes id;
          method_sent = λ e. cc;
          method_agrees = refl;
          name_agrees = λ e. (
            rw (sent-name name credential body named) named,
            name,
            rw (sent-name name credential body named) plain_name,
            λ p got.
                let k : ◌≡◌ {A = Result String ToolCallParams}
                    (ok (record { name = name; arguments = raw })) (ok p) =
                  sym read ∙ got in
                name_of_ok name raw p k,
          );
          described = ((given, meta), capable);
          version_agrees = refl;
          version_current = refl;
        }

    -- What the server makes of it: the handler's answer to the very call, in the state after its
    -- request number has been drawn.
    sent-serve_http :
        (credential body : String) (w : W)
        → s.wire.decode_request body ≡ ok (request_of u id "tools/call" (of_call name args))
        → serve_http s (sent name credential body) w
          ≡ call_answered s (u.wire.quote id) (
              s.handler.call_tool
                (context_of credential (s.new_request_id w).0)
                name
                args
                (s.new_request_id w).1)
    unfolding serve_http dispatch handle_call_tool
    sent-serve_http credential body w decoded =
        let (given, capabilities, meta, capable, raw, read, back) = h.params in
        let passed =
          (screen_iff s.wire s.allowed_origins (sent name credential body) _ _).1
            (sent-IsAdmitted credential body decoded) in
        let req = request_of u id "tools/call" (of_call name args) in
        let (rid, w') = s.new_request_id w in
        let ctx =
          call_context s (sent name credential body)
            (record {
              protocol_version = protocol_version_current;
              client_info = some client_implementation;
              client_capabilities = capabilities;
            })
            rid in
        ap (λ c. served s (sent name credential body) c w) passed
        ∙ (ap (λ p. call_with_params s req ctx p w') read
            ∙ (ap (λ a. call_with_arguments s req ctx name a w') back
                ∙ ap
                    (λ token. call_answered s (u.wire.quote id) (
                      s.handler.call_tool
                        (record (context_of credential rid) { credential = token }) name args w'))
                    (sent-bearer_token name credential body named)))

    -- What the client makes of the server's answer to a call.
    received_lem :
        (rpc_id : String) (r : Result HandlerError ToolResult) (w : W)
        → ((res : ToolResult)
            → r ≡ ok res
            → s.wire.marshals
                (called (raw_or_empty_array res.content) res.structured_content res.is_error)
              ≡ true)
        → Delivered compact r
            (result_of u (answered u (ok (delivered encode (call_answered s rpc_id (r, w)).0))))
    unfolding answered opened write_result
    received_lem rpc_id (ok res) w m =
        let (raw, read, shape) =
          h.result rpc_id (raw_or_empty_array res.content) res.structured_content s.version
            res.is_error (m res refl) in
        rw (m res refl, write_result) (rw (read, opened) (ap (shaped u) shape))
    received_lem rpc_id (err (protocol pe)) w m =
        let (raw, e, read, told) =
          h.error rpc_id
            (record { code = pe.code; message = pe.message; supported = []; requested = "" }) in
        (u.wire.number e.code, rw (read, opened, told) refl)
    received_lem rpc_id (err (internal x)) w m =
        let (raw, e, read, told) = h.error rpc_id (record {
          code = code_internal_error;
          message = "internal error";
          supported = [];
          requested = "";
        }) in
        (u.wire.number e.code, rw (read, opened, told) refl)

  world-call_answered :
      (id : String) (r : Result HandlerError ToolResult) (w : W) → (call_answered s id (r, w)).1 ≡ w
  world-call_answered id (ok res) w = refl
  world-call_answered id (err e) w = refl

  -- The upstream that reaches this server.
  abbrev pub reaching : (Body → String) → (String → Result String String) → HttpUpstream W
  reaching encode carry = record u { post = connected s encode carry }

  -- What the handler of the server answers, asked for this call by the client in `w`.
  abbrev pub handled : ToolCall → W → Result HandlerError ToolResult × W
  handled tc w =
      let (id, w') = u.new_request_id w in
      let (rid, w'') = s.new_request_id w' in
      s.handler.call_tool (context_of tc.credential rid) tc.tool (payloads tc.arguments) w''

module _ {W : Type 0} (s : Server W) (u : HttpUpstream W) where
  -- A call of a tool through HTTPUpstream, to a server of this package, asks the server's handler for
  -- that tool with the values of the arguments, in the context of the token of the call or else the
  -- configured one, and leaves the world as the handler leaves it; a result comes back with its raw
  -- messages in the form in which encoding/json writes them, an empty list for no content, a protocol
  -- error with its message, and any other error as an internal error. The name is not empty and does
  -- not look like the encoding of another one, net/http carries the headers of the call as they are,
  -- and the result can be written as JSON.
  pub call_tool-Delivered :
      (encode : Body → String) (compact : String → String) (carry : String → Result String String)
      (tc : ToolCall) (w : W)
      → Understands u.wire s.wire encode compact
          (u.new_request_id w).0
          tc.tool
          (payloads tc.arguments)
      → IsCarried carry (headers u "tools/call" tc.tool tc.credential)
      → tc.tool ≢ ""
      → decode_header_value s.wire tc.tool ≡ ok tc.tool
      → ((res : ToolResult)
          → (handled s u tc w).0 ≡ ok res
          → s.wire.marshals
              (called (raw_or_empty_array res.content) res.structured_content res.is_error)
            ≡ true)
      → Delivered s u compact (handled s u tc w).0 (call_tool (reaching s u encode carry) tc w).0
        × ((call_tool (reaching s u encode carry) tc w).1 ≡ (handled s u tc w).1)
  unfolding call_tool call answered opened headers presented
  call_tool-Delivered encode compact carry tc w h kept named plain_name m =
      let args = payloads tc.arguments in
      let (id, w') = u.new_request_id w in
      let (body, marshalled, decoded) = h.request in
      let (r, w'') = handled s u tc w in
      let out : OutRequest = record {
        url = u.base_url;
        header = headers u "tools/call" tc.tool tc.credential;
        body = body;
      } in
      let same : call_tool (reaching s u encode carry) tc w ≡ (
        result_of u
            (answered u (ok (delivered encode (call_answered s (u.wire.quote id) (r, w'')).0))),
        (call_answered s (u.wire.quote id) (r, w'')).1,
      ) =
        ap
          (λ b.
            let (raw, v) =
              posted (reaching s u encode carry) "tools/call" tc.tool tc.credential b w' in
            (result_of u raw, v))
          marshalled
        ∙ ap (λ c. let (a, v) = arrived s encode out c w' in (result_of u (answered u a), v))
            (carried_lem carry out.header kept)
        ∙ ap (λ (p : HttpResponse × W). (result_of u (answered u (ok (delivered encode p.0))), p.1))
            (sent-serve_http s u encode compact id tc.tool args h named plain_name tc.credential
              body w' decoded) in
      (
        subst (λ (p : Result String ToolResult × W). Delivered s u compact r p.0) (sym same)
            (received_lem s u encode compact id tc.tool args h named plain_name (u.wire.quote id) r
              w'' m),
        ap (λ p. p.1) same ∙ world-call_answered s u (u.wire.quote id) r w'',
      )
