-- ===== src/Mcp/Client/Wire.antt =====
-- The two ends of the protocol joined: what net/http carries from HTTPUpstream to the server of this
-- package and back, and what encoding/json must read at one end of what it wrote at the other.
use helmdeep.Base.{
  String, Bool, true, none, some, [], ◌∷◌, Result, ok, err, Dict, lookup, All, ◌≡◌, ◌≢◌, refl,
}
use helmdeep.Json.{Json}
use helmdeep.Mcp.{Implementation}
use helmdeep.Identity.Tokens.{or_empty}
use helmdeep.Mcp.Server.{
  HttpRequest, RpcRequest, RpcError, called, Body, empty, plain, rpc_error, rpc_result,
  HttpResponse, Wire, Server, protocol_version_current,
}
use helmdeep.Mcp.Server.Dispatch.{arguments_of, serve_http}
use helmdeep.Mcp.Client.{of_call, OutRequest, HttpAnswer, ClientWire}

-- The request as net/http hands it to the server.
abbrev pub received : OutRequest → HttpRequest
received out = record {
  method = "POST";
  header = λ name. or_empty (lookup name out.header);
  body = out.body;
}

abbrev pub content_type_of : Body → String
content_type_of empty = ""
content_type_of (plain text) = "text/plain; charset=utf-8"
content_type_of (rpc_error id e) = "application/json"
content_type_of (rpc_result id r version) = "application/json"

-- The answer as net/http hands it to the client.
abbrev pub delivered : (Body → String) → HttpResponse → HttpAnswer
delivered encode r = record {
  status = r.status;
  content_type = content_type_of r.body;
  body = ok (encode r.body);
}

-- The headers as they arrive: `carry` is what net/http makes of a value, which it refuses or trims.
abbrev pub carried : (String → Result String String) → Dict String → Result String (Dict String)
carried carry [] = ok []
carried carry ((name, value) ∷ header) = elim (carry value) [
  | err e ↦ err e
  | ok v ↦ elim (carried carry header) [ err e ↦ err e | ok rest ↦ ok ((name, v) ∷ rest) ]
]

abbrev pub arrived :
    {W : Type 0}
    → Server W
    → (Body → String)
    → OutRequest
    → Result String (Dict String)
    → W
    → Result String HttpAnswer × W
arrived s encode out (err e) w = (err e, w)
arrived s encode out (ok header) w =
    let (r, w') = serve_http s (received (record out { header = header })) w in
    (ok (delivered encode r), w')

abbrev pub connected :
    {W : Type 0}
    → Server W
    → (Body → String)
    → (String → Result String String)
    → OutRequest
    → W
    → Result String HttpAnswer × W
connected s encode carry out w = arrived s encode out (carried carry out.header) w

-- net/http carries each of these values as it is.
abbrev pub IsCarried : (String → Result String String) → Dict String → Type 0
IsCarried carry = All (λ h. carry h.1 ≡ ok h.1)

pub carried_lem :
    (carry : String → Result String String) (header : Dict String)
    → IsCarried carry header
    → carried carry header ≡ ok header
carried_lem carry [] h = refl
carried_lem carry ((name, value) ∷ header) (kept, h) =
    rw (kept, carried_lem carry header h, carried) refl

abbrev pub client_implementation : Implementation
client_implementation = record { name = "helmdeep-gateway"; version = "internal" }

abbrev pub call_request : ClientWire → (id name : String) → Dict Json → RpcRequest
call_request c id name args = record {
  id = c.quote id;
  method = "tools/call";
  params = c.marshal_params (of_call name args);
}

-- encoding/json at one end reads what it wrote at the other, for a call of this tool with these
-- arguments in the request `id`. A quoted text is not empty. Of a raw message in a result, it writes
-- the form `compact`, where it can write the result at all.
pub record Understands (c : ClientWire) (s : Wire) (encode : Body → String)
    (compact : String → String) (id name : String) (args : Dict Json) : Type 0 where
  pub quotes : (text : String) → c.quote text ≢ ""
  pub request :
      (body : String) × (c.marshal_request (call_request c id name args) ≡ ok body)
      × (s.decode_request body ≡ ok (call_request c id name args))
  pub params :
      (c.marshal_params (of_call name args) ≢ "")
      × (capabilities : String) × (s.decode_meta (c.marshal_params (of_call name args))
          ≡ ok (
              some (record {
                protocol_version = protocol_version_current;
                client_info = some client_implementation;
                client_capabilities = capabilities;
              })))
      × (capabilities ≢ "")
      × (raw : String) × (s.decode_call (c.marshal_params (of_call name args))
          ≡ ok (record { name = name; arguments = raw }))
      × (arguments_of s raw ≡ ok args)
  pub result :
      (id content structured version : String) (is_error : Bool)
      → s.marshals (called content structured is_error) ≡ true
      → (raw : String) × (c.decode_envelope
            (encode (rpc_result id (called content structured is_error) version))
          ≡ ok (record { result = raw; error = none }))
        × (c.decode_result raw
            ≡ ok (record {
              content = compact content;
              structured_content = compact structured;
              is_error = is_error;
            }))
  pub error :
      (id : String) (e : RpcError)
      → (raw : String) × (read : RpcError) × (c.decode_envelope (encode (rpc_error id e))
          ≡ ok (record { result = raw; error = some read }))
        × (read.message ≡ e.message)
