-- ===== src/Tests/Wired.antt =====
-- A run of the client of upstreams against the server, with texts that hold two others.
use Prim.Native.Char.{code}
use helmdeep.Base.{
  ℕ, pos, String, Bool, true, false, none, some, [], Result, ok, err, ◌≡◌, refl, ap, if◌then◌else◌,
}
use helmdeep.Base.Text.{eqb}
use helmdeep.Types.{ToolCall, ToolResult}
use helmdeep.Mcp.Server.{
  Body, empty, plain, rpc_error, rpc_result, discovered, listed, called, RpcRequest, Wire, Server,
  protocol_version_current,
}
use helmdeep.Mcp.Server.Checks.{decode_header_value, screen}
use helmdeep.Mcp.Server.Dispatch.{serve_http}
use helmdeep.Mcp.Client.{ClientWire, HttpUpstream, Envelope, headers, presented, call_tool}
use helmdeep.Mcp.Client.Wire.{IsCarried, Understands, client_implementation}
use helmdeep.Mcp.Client.Delivery.{Delivered, handled, reaching, call_tool-Delivered}
use helmdeep.Tests.Traffic.{server}

abbrev join : String → String → String
join String.[] t = String.◌∷◌ "0" t
join (String.◌∷◌ c s) t = String.◌∷◌ "1" (String.◌∷◌ c (join s t))

abbrev split : String → String × String
split String.[] = ("", "")
split (String.◌∷◌ x String.[]) = ("", "")
split (String.◌∷◌ x (String.◌∷◌ c s)) =
    let (a, b) = split s in if eqb (code x) 48 then ("", String.◌∷◌ c s) else (String.◌∷◌ c a, b)

split-join : (s t : String) → split (join s t) ≡ (s, t)
split-join String.[] String.[] = refl
split-join String.[] (String.◌∷◌ c t) = refl
split-join (String.◌∷◌ c s) t =
    ap (λ (p : String × String). (String.◌∷◌ c p.0, p.1)) (split-join s t)

abbrev request_at : String → RpcRequest
request_at b =
    let (id, rest) = split b in
    let (method, params) = split rest in record { id = id; method = method; params = params }

abbrev envelope_at : String → Result String Envelope
envelope_at String.[] = err "empty"
envelope_at (String.◌∷◌ c s) =
    if eqb (code c) 101
    then ok (record {
      result = "";
      error = some (record { code = pos 0; message = s; supported = []; requested = "" });
    })
    else ok (record { result = String.◌∷◌ c s; error = none })

abbrev result_at : String → Result String ToolResult
result_at String.[] = err "empty"
result_at (String.◌∷◌ c s) =
    let (content, structured) = split s in
    ok (record { content = content; structured_content = structured; is_error = eqb (code c) 116 })

abbrev encode : Body → String
encode empty = ""
encode (plain text) = text
encode (rpc_error id e) = String.◌∷◌ "e" e.message
encode (rpc_result id (discovered supported) version) = ""
encode (rpc_result id (listed tools cursor) version) = ""
encode (rpc_result id (called content structured true) version) =
    String.◌∷◌ "t" (join content structured)
encode (rpc_result id (called content structured false) version) =
    String.◌∷◌ "f" (join content structured)

abbrev client_wire : ClientWire
client_wire = record {
  marshal_params = λ p. "params";
  marshal_request = λ req. ok (join req.id (join req.method req.params));
  decode_envelope = envelope_at;
  decode_tools = λ s. ok [];
  decode_result = result_at;
  number = λ z. "0";
  quote = λ s. String.◌∷◌ "q" s;
}

abbrev server_wire : Wire
server_wire = record server.wire {
  decode_request = λ b. ok (request_at b);
  decode_meta = λ b. ok (
      some (record {
        protocol_version = protocol_version_current;
        client_info = some client_implementation;
        client_capabilities = "{}";
      }));
}

abbrev end_server : Server ℕ
end_server = record server { wire = server_wire }

abbrev upstream : HttpUpstream ℕ
upstream = record {
  name = "kb";
  base_url = "http://kb";
  bearer_token = "static";
  wire = client_wire;
  post = λ out w. (err "unreachable", w);
  new_request_id = λ w. ("1", w);
}

abbrev tool_call : ToolCall
tool_call = record { tool = "kb.search"; arguments = []; credential = "minted" }

request_at-join : (req : RpcRequest) → request_at (join req.id (join req.method req.params)) ≡ req
request_at-join req =
    rw (split-join req.id (join req.method req.params), split-join req.method req.params) refl

result-encode :
    (id content structured version : String) (is_error : Bool)
    → (raw : String) × (envelope_at
          (encode (rpc_result id (called content structured is_error) version))
        ≡ ok (record { result = raw; error = none }))
      × (result_at raw
          ≡ ok (record { content = content; structured_content = structured; is_error = is_error }))
result-encode id content structured version true =
    (String.◌∷◌ "t" (join content structured), refl, rw (split-join content structured) refl)
result-encode id content structured version false =
    (String.◌∷◌ "f" (join content structured), refl, rw (split-join content structured) refl)

-- Raw messages are written as they are.
abbrev compact : String → String
compact s = s

-- A value with a line end is refused.
abbrev carry : String → Result String String
carry String.[] = ok ""
carry (String.◌∷◌ c s) =
    if eqb (code c) 10 then err "invalid header field value" else ok (String.◌∷◌ c s)

wires-Understands : Understands client_wire server_wire encode compact "1" "kb.search" []
wires-Understands = record {
  quotes = λ text e. cc;
  request = (
    _,
    refl,
    ap ok (
        request_at-join
          (record { id = client_wire.quote "1"; method = "tools/call"; params = "params" })),
  );
  params = (λ e. cc, "{}", refl, λ e. cc, "", refl, refl);
  result = λ id content structured version is_error m.
      result-encode id content structured version is_error;
  error = λ id e. (
    "",
    record { code = pos 0; message = e.message; supported = []; requested = "" },
    refl,
    refl,
  );
}

headers-IsCarried : IsCarried carry (headers upstream "tools/call" "kb.search" "minted")
unfolding headers presented
headers-IsCarried = (refl, (refl, (refl, (refl, (refl, (refl, tt))))))

-- The call comes back with the handler's result.
delivered :
    (call_tool (reaching end_server upstream encode carry) tool_call 7).0
    ≡ ok (record { content = "[]"; structured_content = ""; is_error = false })
unfolding call_tool serve_http screen
delivered = refl

call_tool-Delivered_example :
    Delivered end_server upstream compact
      (handled end_server upstream tool_call 7).0
      (call_tool (reaching end_server upstream encode carry) tool_call 7).0
    × ((call_tool (reaching end_server upstream encode carry) tool_call 7).1
        ≡ (handled end_server upstream tool_call 7).1)
unfolding decode_header_value
call_tool-Delivered_example =
    call_tool-Delivered end_server upstream encode compact carry tool_call 7 wires-Understands
      headers-IsCarried (λ e. cc) refl (λ res e. refl)
