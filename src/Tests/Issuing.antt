-- ===== src/Tests/Issuing.antt =====
-- Runs of the development issuer, of the configuration and of the health endpoint.
use helmdeep.Base.{ℕ, ◌+◌, String, pos, some, [], ◌∷◌, ◌≡◌, refl, ok, err, if◌then◌else◌, arith}
use Prim.Native.Char.{code}
use helmdeep.Base.Text.{eqb}
use helmdeep.Identity.Tokens.{get_text, resolve}
use helmdeep.Identity.Broker
use helmdeep.Identity.Broker.{ExchangeResponse, exchange_form}
use helmdeep.DevIssuer.{Keys, ExchangeResult, issue_sit, exchange}
use helmdeep.DevIssuer.Tokens.{issue_sit-resolve, exchange-confined, issue_sit-exchange}
use helmdeep.DevIssuer.Server.{IssuerServer, Web, exchanged, failed, issued, jwks}
use helmdeep.DevIssuer.OverHttp.{Wire, Agrees, over_http, brokered, exchange-over_http}
use helmdeep.Tests.Tokens.{Keyring, issuer, jwt, jwt-IsPair}

-- The state of the world is its clock.
abbrev keys : Keys Keyring Keyring ℕ
keys = record {
  generate = λ w. (ok tt, w);
  set_key = λ name value key. ok key;
  public_key_of = λ key. ok key;
  key_set_of = λ key. ok key;
  random_hex = λ n w. (ok "07", w);
  now = λ w. (w, w);
}

abbrev sit_ttl : ℕ
sit_ttl = 900000000000

abbrev call_ttl : ℕ
call_ttl = 60000000000

sit_issued :
    (issue_sit jwt keys issuer "planner" ("alice" ∷ []) ("kb.read" ∷ []) "1.2" sit_ttl 5).0
    ≡ ok "sit"
unfolding issue_sit
sit_issued = refl

issue_sit-resolve_example :
    (resolve jwt (λ (v : ℕ). (v, v)) (record { key_set = tt; audience = "gateways" }) "sit" 9).0
    ≡ ok (record {
      id = "planner";
      kind = "agent";
      agent_version = "1.2";
      delegation_chain = "alice" ∷ [];
      scopes = "kb.read" ∷ [];
      trust_level = pos 0;
    })
issue_sit-resolve_example =
    issue_sit-resolve jwt keys issuer jwt-IsPair "planner" ("alice" ∷ []) ("kb.read" ∷ []) "1.2"
      sit_ttl 5 "sit" (λ v. (v, v)) 9 sit_issued (omega arith) (omega arith)

abbrev for_kb : ExchangeResult
for_kb = record { token = "call"; expires_at = 9 + call_ttl }

call_exchanged : (exchange jwt keys issuer "sit" "kb" "kb.search" call_ttl 9).0 ≡ ok for_kb
unfolding exchange
call_exchanged = refl

exchange-confined_example :
    ((clock : ℕ → ℕ × ℕ) (v : ℕ)
      → (e : String) × ((resolve jwt clock
            (record { key_set = tt; audience = "gateways" })
            "call"
            v).0
          ≡ err e))
    × ((other_upstream other_tool : String) (other_ttl : ℕ) (w' : ℕ)
        → (e : String) × ((exchange jwt keys issuer "call" other_upstream other_tool other_ttl w').0
            ≡ err e))
exchange-confined_example =
    exchange-confined jwt keys issuer jwt-IsPair "sit" "kb" "kb.search" call_ttl 9 for_kb
      call_exchanged (λ e. cc)

issue_sit-exchange_example :
    (t : _) × (jwt.parse tt "kb" [] 11 "call" ≡ ok t)
    × (get_text "agent" t ≡ some "planner")
    × (get_text "upstream" t ≡ some "kb")
    × (get_text "tool" t ≡ some "kb.search")
issue_sit-exchange_example =
    issue_sit-exchange jwt keys issuer jwt-IsPair "planner" ("alice" ∷ []) ("kb.read" ∷ []) "1.2"
      sit_ttl 5 "sit" "kb" "kb.search" call_ttl 9 for_kb 11 sit_issued (omega arith) (omega arith)
      call_exchanged (omega arith) (omega arith)

-- An answer is its kind in one letter, and its text.
abbrev web : Web Keyring
web = record {
  decode_issue = λ b. err "unread";
  parse_form = λ b. ok (exchange_form "sit" "kb" "kb.search");
  encode = λ a. elim a [
    | issued token n ↦ token
    | exchanged token n ↦ String.◌∷◌ "t" token
    | jwks set ↦ "{}"
    | failed code e ↦ String.◌∷◌ "e" e
  ];
}

abbrev read_answer : String → ExchangeResponse
read_answer String.[] = record { access_token = ""; error = ""; error_desc = "" }
read_answer (String.◌∷◌ c s) =
    if eqb (code c) 116
    then record { access_token = s; error = ""; error_desc = "" }
    else record { access_token = ""; error = "invalid_grant"; error_desc = s }

abbrev wire : Wire
wire = record { encode_form = λ f. "form"; decode = λ b. ok (read_answer b); number = λ n. "200" }

abbrev issuing : IssuerServer Keyring Keyring
issuing = record { issuer = issuer; sit_ttl = sit_ttl; exchange_ttl = call_ttl }

web-Agrees : Agrees web wire (exchange_form "sit" "kb" "kb.search")
web-Agrees = record { form = refl; exchanged = λ token n. refl; failed = λ e. refl }

exchange-over_http_example :
    Broker.exchange (over_http jwt keys web issuing wire) "sit" "kb" "kb.search" 9 ≡ (
      brokered jwt keys web issuing wire
          (exchange jwt keys issuer "sit" "kb" "kb.search" call_ttl 9).0,
      (exchange jwt keys issuer "sit" "kb" "kb.search" call_ttl 9).1,
    )
exchange-over_http_example =
    exchange-over_http jwt keys web issuing wire "sit" "kb" "kb.search" 9 web-Agrees jwt-IsPair
      (λ e. cc) (λ e. cc) (λ e. cc)
