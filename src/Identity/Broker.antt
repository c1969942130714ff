-- ===== src/Identity/Broker.antt =====
-- pkg/identity/broker.go: the credential broker that asks a token exchange endpoint over HTTP.
-- net/http and encoding/json are parameters.
use helmdeep.Base.{ℕ, String, not, ◌==◌, [], ◌∷◌, if◌then◌else◌, Result, ok, err, Dict}
use helmdeep.Base.Text.{◌+++◌}

pub record ExchangeResponse : Type 0 where
  pub access_token : String
  pub error : String
  pub error_desc : String

pub record HttpReply : Type 0 where
  pub status : ℕ
  pub body : String

-- What the broker calls: a request that posts a form, and the decoding of the answer. `number` is
-- the verb %d of fmt.
pub record Exchanger (W : Type 0) : Type 0 where
  pub post : Dict String → W → Result String HttpReply × W
  pub decode : String → Result String ExchangeResponse
  pub number : ℕ → String

abbrev pub grant_type_token_exchange : String
grant_type_token_exchange = "urn:ietf:params:oauth:grant-type:token-exchange"

abbrev pub exchange_form : String → String → String → Dict String
exchange_form credential upstream tool =
    ("grant_type", grant_type_token_exchange)
    ∷ ("subject_token", credential)
    ∷ ("resource", upstream)
    ∷ ("tool", tool)
    ∷ []

module _ {W : Type 0} (x : Exchanger W) where
  -- After the endpoint has answered, or the call has failed. That the request cannot be built is a
  -- failure of the call here.
  unfoldable pub token_of : Result String HttpReply → Result String String
  token_of (err e) = err ("call token-exchange endpoint: " +++ e)
  token_of (ok reply) = elim (x.decode reply.body) [
    | err e ↦
        err ("decode token-exchange response (HTTP " +++ x.number reply.status +++ "): " +++ e)
    | ok out ↦
        if not (out.error == "")
        then err ("token exchange denied: " +++ out.error +++ ": " +++ out.error_desc)
        else if out.access_token == ""
        then err
            ("token-exchange response had no access_token (HTTP " +++ x.number reply.status +++ ")")
        else ok out.access_token
  ]

  -- `Exchange`, with the argument order of `CredentialBroker`.
  unfoldable pub exchange : String → String → String → W → Result String String × W
  unfolding token_of
  exchange credential upstream tool w =
      let (reply, w') = x.post (exchange_form credential upstream tool) w in (token_of reply, w')
