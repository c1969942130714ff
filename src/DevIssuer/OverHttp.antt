-- ===== src/DevIssuer/OverHttp.antt =====
-- The credential broker of the gateway, asking the development issuer over HTTP.
use Prim.Native.Nat.{◌/◌}
use helmdeep.Base.{ℕ, String, ◌≡◌, ◌≢◌, refl, ap, ◌∙◌, Result, ok, err, Dict, eq_iff, arith}
use helmdeep.Base.Text.{◌+++◌, test_of_ne}
use helmdeep.Identity.Tokens.{Jwt}
use helmdeep.Identity.Broker
use helmdeep.Identity.Broker.{ExchangeResponse, HttpReply, Exchanger, exchange_form, token_of}
use helmdeep.DevIssuer
use helmdeep.DevIssuer.{Keys, ExchangeResult}
use helmdeep.DevIssuer.Signed.{IsPair, exchange-signed}
use helmdeep.DevIssuer.Server.{
  IssuerServer, exchanged, failed, Web, exchange_for, exchange_parsed_form, handle_exchange,
  serve_http, exchange_answered,
}

-- The two sides of the wire: the encoding of a form, and the decoding of an answer.
pub record Wire : Type 0 where
  pub encode_form : Dict String → String
  pub decode : String → Result String ExchangeResponse
  pub number : ℕ → String

-- net/http reads this form as net/url wrote it, and encoding/json the answers of an exchange.
pub record Agrees {KeySet : Type 0} (web : Web KeySet) (wire : Wire) (f : Dict String)
    : Type 0 where
  pub form : web.parse_form (wire.encode_form f) ≡ ok f
  pub exchanged :
      (token : String) (n : ℕ)
      → wire.decode (web.encode (exchanged token n))
        ≡ ok (record { access_token = token; error = ""; error_desc = "" })
  pub failed :
      (e : String)
      → wire.decode (web.encode (failed "invalid_grant" e))
        ≡ ok (record { access_token = ""; error = "invalid_grant"; error_desc = e })

module _ {Key KeySet W : Type 0} (jwt : Jwt Key KeySet) (keys : Keys Key KeySet W)
    (web : Web KeySet) (s : IssuerServer Key KeySet) (wire : Wire) where
  -- The broker's HTTP client, with the issuer at its endpoint and no failure on the way.
  abbrev pub over_http : Exchanger W
  over_http = record {
    post = λ form w.
        let (reply, w') =
          serve_http jwt keys web s
            (record { method = "POST"; path = "/token-exchange"; body = wire.encode_form form })
            w in
        (ok reply, w');
    decode = wire.decode;
    number = wire.number;
  }

  -- What the broker makes of an exchange.
  abbrev pub brokered : Result String ExchangeResult → Result String String
  brokered (ok r) = ok r.token
  brokered (err e) = err ("token exchange denied: " +++ "invalid_grant" +++ ": " +++ e)

  served :
      (credential upstream tool : String) (w : W)
      → Agrees web wire (exchange_form credential upstream tool)
      → over_http.post (exchange_form credential upstream tool) w ≡ (
        ok (exchange_for jwt keys web s credential upstream tool w).0,
        (exchange_for jwt keys web s credential upstream tool w).1,
      )
  unfolding serve_http handle_exchange exchange_parsed_form
  served credential upstream tool w h = rw (h.form, serve_http) refl

  asked :
      (credential upstream tool : String) (w : W)
      → credential ≢ ""
      → upstream ≢ ""
      → tool ≢ ""
      → exchange_for jwt keys web s credential upstream tool w ≡ (
        exchange_answered jwt keys web s
            (DevIssuer.exchange jwt keys s.issuer credential upstream tool s.exchange_ttl w).0,
        (DevIssuer.exchange jwt keys s.issuer credential upstream tool s.exchange_ttl w).1,
      )
  unfolding exchange_for
  asked credential upstream tool w a b c =
      ground (arith, eq_iff credential "", eq_iff upstream "", eq_iff tool "")

  understood :
      (result : Result String ExchangeResult) (f : Dict String)
      → Agrees web wire f
      → ((r : ExchangeResult) → result ≡ ok r → r.token ≢ "")
      → token_of over_http (ok (exchange_answered jwt keys web s result)) ≡ brokered result
  unfolding token_of
  understood (err e) f h named = rw (h.failed e, token_of) refl
  understood (ok r) f h named =
      rw
        (
          h.exchanged r.token (s.exchange_ttl / 1000000000),
          token_of,
          test_of_ne r.token (named r refl),
        )
        refl

  -- Through the form, the handler and the answer, the broker obtains the token of Exchange itself, or
  -- its error, and the world is left as Exchange leaves it, for any credential, upstream and tool
  -- that are not empty.
  pub exchange-over_http :
      (credential upstream tool : String) (w : W)
      → Agrees web wire (exchange_form credential upstream tool)
      → IsPair jwt s.issuer.private s.issuer.public
      → credential ≢ ""
      → upstream ≢ ""
      → tool ≢ ""
      → let asked =
          DevIssuer.exchange jwt keys s.issuer credential upstream tool s.exchange_ttl w in
        Broker.exchange over_http credential upstream tool w ≡ (brokered asked.0, asked.1)
  unfolding Broker.exchange
  exchange-over_http credential upstream tool w h pair a b c =
      let asked_for =
        DevIssuer.exchange jwt keys s.issuer credential upstream tool s.exchange_ttl w in
      ap (λ p. (token_of over_http p.0, p.1)) (served credential upstream tool w h)
      ∙ (ap (λ p. (token_of over_http (ok p.0), p.1)) (asked credential upstream tool w a b c)
          ∙ ap (λ t. (t, asked_for.1))
              (understood asked_for.0 (exchange_form credential upstream tool) h (λ r minted.
                let (t, agent, at, parsed, named, when, signed) =
                  exchange-signed jwt keys s.issuer credential upstream tool s.exchange_ttl w r
                    minted in
                pair.not_empty _ r.token signed)))
