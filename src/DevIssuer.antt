-- ===== src/DevIssuer.antt =====
-- internal/devissuer: the development issuer of Session Identity Tokens, and the exchange of one for
-- a token for one call. crypto and lestrrat-go/jwx are parameters.
pub mod Server
pub mod Signed
pub mod Tokens
pub mod OverHttp
use helmdeep.Base.{
  ℕ, ◌+◌, String, Option, none, some, List, [], ◌∷◌, ◌==◌, if◌then◌else◌, Result, ok, err, ◌>>=◌,
  Dict,
}
use helmdeep.Base.Text.{◌+++◌}
use helmdeep.Identity.Tokens.{Token, Claim, text, texts, Jwt, or_empty, get_text}

-- jwk.Key for both halves of a pair, jwk.Set, and crypto/rand. `set_key` is `Key.Set`.
pub record Keys (Key KeySet W : Type 0) : Type 0 where
  pub generate : W → Result String Key × W
  pub set_key : String → String → Key → Result String Key
  pub public_key_of : Key → Result String Key
  pub key_set_of : Key → Result String KeySet
  pub random_hex : ℕ → W → Result String String × W
  pub now : W → ℕ × W

pub record Issuer (Key KeySet : Type 0) : Type 0 where
  pub private : Key
  pub public : KeySet
  pub audience : String

pub record ExchangeResult : Type 0 where
  pub token : String
  pub expires_at : ℕ

abbrev pub key_id : String
key_id = "dev-1"

-- `fmt.Errorf("what: %w", err)`.
abbrev pub wrapped : {A : Type 0} → String → Result String A → Result String A
wrapped what (ok a) = ok a
wrapped what (err e) = err (what +++ ": " +++ e)

-- The token of IssueSIT.
abbrev pub session_token :
    {Key KeySet : Type 0}
    → Issuer Key KeySet
    → (instance_id agent : String) → (chain scope : List String) → (version : String)
    → (ttl now : ℕ) → Token
session_token i instance_id agent chain scope version ttl now = record {
  subject = "agent_instance:" +++ instance_id;
  audience = i.audience ∷ [];
  issued_at = now;
  expiration = now + ttl;
  claims =
      ("agent", text agent)
      ∷ ("delegation_chain", texts chain)
      ∷ ("scope", texts scope)
      ∷ ("agent_version", text version)
      ∷ [];
}

-- The token of Exchange.
abbrev pub call_token : (instance_id agent upstream tool : String) → (ttl now : ℕ) → Token
call_token instance_id agent upstream tool ttl now = record {
  subject = instance_id;
  audience = upstream ∷ [];
  issued_at = now;
  expiration = now + ttl;
  claims = ("agent", text agent) ∷ ("upstream", text upstream) ∷ ("tool", text tool) ∷ [];
}

module _ {Key KeySet W : Type 0} (jwt : Jwt Key KeySet) (keys : Keys Key KeySet W) where
  -- `New`, once the pair has been generated and imported.
  unfoldable pub issuer_with : String → Key → Result String (Issuer Key KeySet)
  issuer_with aud raw = wrapped "set key id" (keys.set_key "kid" key_id raw) >>= λ named.
      wrapped "set key algorithm" (keys.set_key "alg" "ES256" named) >>= λ priv.
      wrapped "derive public key" (keys.public_key_of priv) >>= λ derived.
      wrapped "set public key id" (keys.set_key "kid" key_id derived) >>= λ identified.
      wrapped "set public key algorithm" (keys.set_key "alg" "ES256" identified) >>= λ pub_key.
      wrapped "build JWKS" (keys.key_set_of pub_key) >>= λ set.
      ok (record { private = priv; public = set; audience = aud })

  unfoldable pub new : String → W → Result String (Issuer Key KeySet) × W
  unfolding issuer_with
  new aud w =
      let (generated, w') = keys.generate w in
      (wrapped "generate signing key" generated >>= issuer_with aud, w')

  -- IssueSIT once the instance has its number.
  unfoldable pub issue_for :
      Issuer Key KeySet
      → String
      → List String
      → List String
      → String
      → ℕ
      → Result String String
      → W
      → Result String String × W
  issue_for i agent chain scope version ttl (err e) w = (err ("generate random id: " +++ e), w)
  issue_for i agent chain scope version ttl (ok instance_id) w =
      let (now, w') = keys.now w in
      (
        wrapped "sign SIT"
            (jwt.sign i.private (session_token i instance_id agent chain scope version ttl now)),
        w',
      )

  unfoldable pub issue_sit :
      Issuer Key KeySet
      → String
      → List String
      → List String
      → String
      → ℕ
      → W
      → Result String String × W
  unfolding issue_for
  issue_sit i agent chain scope version ttl w =
      if agent == ""
      then (err "agentID is required", w)
      else let (instance_id, w') = keys.random_hex 8 w in
        issue_for i agent chain scope version ttl instance_id w'

  -- Exchange once the subject token has been parsed.
  unfoldable pub exchange_parsed :
      Issuer Key KeySet
      → String
      → String
      → ℕ
      → Result String Token
      → W
      → Result String ExchangeResult × W
  exchange_parsed i upstream tool ttl (err e) w = (err ("subject_token invalid: " +++ e), w)
  exchange_parsed i upstream tool ttl (ok token) w =
      let agent = or_empty (get_text "agent" token) in
      if agent == ""
      then (err "subject_token missing required 'agent' claim", w)
      else let (now, w') = keys.now w in
        (
          wrapped "sign downstream token"
                (jwt.sign i.private (call_token token.subject agent upstream tool ttl now))
              >>= λ signed. ok (record { token = signed; expires_at = now + ttl }),
          w',
        )

  unfoldable pub exchange :
      Issuer Key KeySet → String → String → String → ℕ → W → Result String ExchangeResult × W
  unfolding exchange_parsed
  exchange i subject_token upstream tool ttl w =
      let (now, w') = keys.now w in
      exchange_parsed i upstream tool ttl (jwt.parse i.public i.audience [] now subject_token) w'
