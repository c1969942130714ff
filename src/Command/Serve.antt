-- ===== src/Command/Serve.antt =====
-- cmd/helmdeep-gateway/main.go: the identity source that `serve` chooses, and the gate before the
-- static one. The rest of `serve` puts the parts together and waits for signals.
pub mod Trusts
use helmdeep.Base.{
  String, Bool, not, ◌&&◌, ◌==◌, Option, none, some, Result, ok, err, ◌>>=◌, ◌>>◌, Checked, fail_if,
  Dict, if◌then◌else◌,
}
use helmdeep.Base.Text.{◌+++◌}
use helmdeep.Identity.Tokens.{JwtResolver}
use helmdeep.Gateway.StaticTokens.{StaticTokenResolver, new_static_token_resolver}
use helmdeep.Command.Config.{Config, JwtConfig, is_empty, static_identities}

-- The resolver, with the endpoint of the credential broker where one is configured.
pub data Source (KeySet : Type 0) : Type 0 where
  from_jwt : JwtResolver KeySet → (broker : Option String) → Source KeySet
  from_tokens : StaticTokenResolver → Source KeySet

unfoldable pub check_dev_insecure_gate : Config → Bool → Checked String
check_dev_insecure_gate cfg dev_insecure =
    fail_if (not (is_empty cfg.static_tokens) && not dev_insecure)
      "identity.static_tokens is configured but -dev-insecure was not passed; static-token identity is unverifiable and must not run without an explicit opt-in"

-- `fetch` is jwk.Fetch, with its ten seconds.
module _ {KeySet W : Type 0} (fetch : String → W → Result String KeySet × W) where
  abbrev pub fetched : JwtConfig → Result String KeySet → Result String (Source KeySet)
  fetched jwt (err e) = err ("fetch identity.jwt.jwks_url " +++ jwt.jwks_url +++ ": " +++ e)
  fetched jwt (ok set) = ok (
      from_jwt (record { key_set = set; audience = jwt.audience })
        (if not (jwt.exchange_url == "") then some jwt.exchange_url else none))

  abbrev pub static_source : Config → Bool → Result String (Source KeySet)
  static_source cfg dev_insecure =
      if not (is_empty cfg.static_tokens)
      then (check_dev_insecure_gate cfg dev_insecure
          >> ok (from_tokens (new_static_token_resolver (static_identities cfg))))
      else err "no identity source configured"

  -- The switch of runServe.
  unfoldable pub identity_source : Config → Bool → W → Result String (Source KeySet) × W
  unfolding check_dev_insecure_gate
  identity_source cfg dev_insecure w = elim cfg.jwt [
    | some jwt ↦ let (set, w') = fetch jwt.jwks_url w in (fetched jwt set, w')
    | none ↦ (static_source cfg dev_insecure, w)
  ]
