-- ===== src/DevIssuer/Server.antt =====
-- internal/devissuer/server.go: the issuer over HTTP. A request is its method, its path and its
-- body; net/http's forms and encoding/json are parameters.
use Prim.Native.Nat.{◌/◌}
use helmdeep.Base.{ℕ, String, not, ◌==◌, ◌||◌, List, if◌then◌else◌, Result, ok, err, Dict, lookup}
use helmdeep.Base.Text.{◌+++◌}
use helmdeep.Identity.Tokens.{Jwt, or_empty}
use helmdeep.Identity.Broker.{HttpReply, grant_type_token_exchange}
use helmdeep.DevIssuer.{Keys, Issuer, ExchangeResult, issue_sit, exchange}

pub record IssuerServer (Key KeySet : Type 0) : Type 0 where
  pub issuer : Issuer Key KeySet
  pub sit_ttl : ℕ
  pub exchange_ttl : ℕ

pub record WebRequest : Type 0 where
  pub method : String
  pub path : String
  pub body : String

pub record IssueRequest : Type 0 where
  pub agent : String
  pub delegation_chain : List String
  pub scope : List String
  pub agent_version : String

-- The objects that the handlers write, with the lifetimes in seconds. The types of the token of an exchange are constants.
pub data Answer (KeySet : Type 0) : Type 0 where
  issued : (token : String) → (expires_in : ℕ) → Answer KeySet
  exchanged : (access_token : String) → (expires_in : ℕ) → Answer KeySet
  jwks : KeySet → Answer KeySet
  failed : (error error_description : String) → Answer KeySet

pub record Web (KeySet : Type 0) : Type 0 where
  pub decode_issue : String → Result String IssueRequest
  pub parse_form : String → Result String (Dict String)
  pub encode : Answer KeySet → String

abbrev pub form_value : String → Dict String → String
form_value name form = or_empty (lookup name form)

abbrev pub bare : ℕ → HttpReply
bare status = record { status = status; body = "" }

module _ {Key KeySet W : Type 0} (jwt : Jwt Key KeySet) (keys : Keys Key KeySet W)
    (web : Web KeySet) (s : IssuerServer Key KeySet) where
  abbrev pub write_json : ℕ → Answer KeySet → HttpReply
  write_json status answer = record { status = status; body = web.encode answer }

  -- What /issue answers once IssueSIT has.
  abbrev pub issue_answered : Result String String → HttpReply
  issue_answered (err e) = write_json 400 (failed "invalid_request" e)
  issue_answered (ok token) = write_json 200 (issued token (s.sit_ttl / 1000000000))

  abbrev pub issue_decoded : Result String IssueRequest → W → HttpReply × W
  issue_decoded (err e) w = (write_json 400 (failed "invalid_request" e), w)
  issue_decoded (ok req) w =
      let (token, w') =
        issue_sit jwt keys s.issuer req.agent req.delegation_chain req.scope req.agent_version
          s.sit_ttl w in
      (issue_answered token, w')

  unfoldable pub handle_issue : WebRequest → W → HttpReply × W
  handle_issue r w =
      if not (r.method == "POST") then (bare 405, w) else issue_decoded (web.decode_issue r.body) w

  -- What /token-exchange answers once Exchange has.
  abbrev pub exchange_answered : Result String ExchangeResult → HttpReply
  exchange_answered (err e) = write_json 401 (failed "invalid_grant" e)
  exchange_answered (ok result) =
      write_json 200 (exchanged result.token (s.exchange_ttl / 1000000000))

  unfoldable pub exchange_for : (subject_token upstream tool : String) → W → HttpReply × W
  exchange_for subject_token upstream tool w =
      if subject_token == "" || (upstream == "" || tool == "")
      then (
        write_json 400
            (failed "invalid_request" "subject_token, resource, and tool are all required"),
        w,
      )
      else let (result, w') =
          exchange jwt keys s.issuer subject_token upstream tool s.exchange_ttl w in
        (exchange_answered result, w')

  unfoldable pub exchange_parsed_form : Result String (Dict String) → W → HttpReply × W
  unfolding exchange_for
  exchange_parsed_form (err e) w = (write_json 400 (failed "invalid_request" e), w)
  exchange_parsed_form (ok form) w =
      if not (form_value "grant_type" form == grant_type_token_exchange)
      then (
        write_json 400
            (failed "unsupported_grant_type" ("grant_type must be " +++ grant_type_token_exchange)),
        w,
      )
      else exchange_for (form_value "subject_token" form) (form_value "resource" form)
          (form_value "tool" form) w

  unfoldable pub handle_exchange : WebRequest → W → HttpReply × W
  unfolding exchange_parsed_form
  handle_exchange r w =
      if not (r.method == "POST")
      then (bare 405, w)
      else exchange_parsed_form (web.parse_form r.body) w

  unfoldable pub handle_jwks : WebRequest → W → HttpReply × W
  handle_jwks r w =
      (if not (r.method == "GET") then bare 405 else write_json 200 (jwks s.issuer.public), w)

  unfoldable pub serve_http : WebRequest → W → HttpReply × W
  unfolding handle_issue handle_exchange handle_jwks
  serve_http r w =
      if r.path == "/issue"
      then handle_issue r w
      else if r.path == "/token-exchange"
      then handle_exchange r w
      else if r.path == "/.well-known/jwks.json"
      then handle_jwks r w
      else (record { status = 404; body = "404 page not found\n" }, w)
