-- ===== src/Command/Serve/Trusts.antt =====
-- Whom an accepted configuration trusts to say who calls.
use helmdeep.Base.{
  String, Bool, true, false, [], ◌∷◌, Option, none, some, ◌≡◌, ◌≢◌, ◌⊎◌, inl, inr, refl, sym, ap,
  ◌∙◌, Result, ok, err, Result-cases, Option-cases, Bool-cases, Dict, lookup, not, ◌==◌, arith,
  eq_iff, if◌then◌else◌,
}
use helmdeep.Types.{Subject}
use helmdeep.AgentRegistry
use helmdeep.Gateway.Calls.{Gateway, agent_deny_reason}
use helmdeep.Gateway.StaticTokens.{
  StaticTokenResolver, resolve, resolved, resolved_tokens, new_static_token_resolver,
}
use helmdeep.Command.Config.{
  Config, JwtConfig, Environment, StaticToken, static_identities, static_identities_of,
  static_identity,
}
use helmdeep.Command.Config.Accepts.{IsAccepted, HasIdentity}
use helmdeep.Command.Serve.{
  Source, from_jwt, from_tokens, check_dev_insecure_gate, identity_source, fetched, static_source,
}

module _ {KeySet W : Type 0} (fetch : String → W → Result String KeySet × W) where
  -- What the choice may be, for a configuration, the flag -dev-insecure and a state of the world.
  abbrev pub IsChosen : Config → Bool → W → Result String (Source KeySet) → Type 0
  IsChosen cfg dev_insecure w (ok (from_tokens r)) =
      (dev_insecure ≡ true)
      × (cfg.jwt ≡ none)
      × (r ≡ new_static_token_resolver (static_identities cfg))
  IsChosen cfg dev_insecure w (ok (from_jwt r broker)) =
      (jwt : JwtConfig) × (cfg.jwt ≡ some jwt)
      × ((fetch jwt.jwks_url w).0 ≡ ok r.key_set)
      × (r.audience ≡ jwt.audience)
      × (r.audience ≢ "")
      × (broker ≡ (if not (jwt.exchange_url == "") then some jwt.exchange_url else none))
  IsChosen cfg dev_insecure w (err e) =
      ((dev_insecure ≡ false) × (cfg.jwt ≡ none))
      ⊎ ((jwt : JwtConfig) × (x : String) × (cfg.jwt ≡ some jwt)
          × ((fetch jwt.jwks_url w).0 ≡ err x))

  static-IsChosen :
      (cfg : Config) (dev_insecure : Bool) (w : W) (ts : Dict StaticToken)
      → cfg.static_tokens ≡ ts
      → cfg.jwt ≡ none
      → HasIdentity ts none
      → IsChosen cfg dev_insecure w (static_source fetch cfg dev_insecure)
  unfolding check_dev_insecure_gate
  static-IsChosen cfg dev_insecure w [] held unset h = absurd h
  static-IsChosen cfg true w (t ∷ ts) held unset h =
      rw (held, check_dev_insecure_gate) (refl, unset, refl)
  static-IsChosen cfg false w (t ∷ ts) held unset h =
      rw (held, check_dev_insecure_gate) (inl (refl, unset))

  fetched-IsChosen :
      (cfg : Config) (dev_insecure : Bool) (w : W) (jwt : JwtConfig)
      → cfg.jwt ≡ some jwt
      → jwt.audience ≢ ""
      → IsChosen cfg dev_insecure w (fetched fetch jwt (fetch jwt.jwks_url w).0)
  fetched-IsChosen cfg dev_insecure w jwt set h = elim (Result-cases (fetch jwt.jwks_url w).0) [
    | inl (keys, got) ↦ rw got (jwt, set, got, refl, h, refl)
    | inr (e, failed) ↦ rw failed (inr (jwt, e, set, failed))
  ]

  audience_set :
      (ts : Dict StaticToken) (jwt : JwtConfig) → HasIdentity ts (some jwt) → jwt.audience ≢ ""
  audience_set [] jwt h = h.0
  audience_set (t ∷ ts) jwt h = absurd h

  -- For a configuration that is accepted, the choice of the identity source is one of three: tokens
  -- are verified against the key set that was fetched from the configured URL and against the
  -- configured audience, which is not empty, with a broker exactly where an exchange URL is set; or,
  -- where no JWT section is set and the flag was passed, the configured static tokens are trusted;
  -- or the choice fails, which it does only where the JWT section and the flag are both missing, or
  -- where the fetch fails.
  pub identity_source-IsChosen :
      (env : Environment W) (cfg : Config) (dev_insecure : Bool) (w : W)
      → IsAccepted env cfg
      → IsChosen cfg dev_insecure w (identity_source fetch cfg dev_insecure w).0
  unfolding identity_source
  identity_source-IsChosen env cfg dev_insecure w h = elim (Option-cases cfg.jwt) [
    | inl unset ↦
        let same : (identity_source fetch cfg dev_insecure w).0
            ≡ static_source fetch cfg dev_insecure =
          simp (unset, identity_source) in
        rw same
          (static-IsChosen cfg dev_insecure w cfg.static_tokens refl unset (rw unset at h.identity))
    | inr (jwt, set) ↦
        let same : (identity_source fetch cfg dev_insecure w).0
            ≡ fetched fetch jwt (fetch jwt.jwks_url w).0 =
          simp (set, identity_source) in
        rw same (
          fetched-IsChosen cfg dev_insecure w jwt set
            (audience_set cfg.static_tokens jwt (rw set at h.identity)))
  ]

no_version :
    (token : String) (ts : Dict StaticToken) (subject : Subject)
    → lookup token (resolved_tokens (static_identities_of ts)) ≡ some subject
    → subject.agent_version ≡ ""
no_version token [] subject h = cc
no_version token ((held, id) ∷ ts) subject h = elim (Bool-cases (held == token)) [
  | inl here ↦
      let k : ◌≡◌ {A = Option Subject} (some (resolved (static_identity id))) (some subject) =
        rw here at h in
      let same : resolved (static_identity id) ≡ subject = cc in
      ap (λ x. x.agent_version) (sym same)
  | inr other ↦ no_version token ts subject (rw other at h)
]

resolve-found :
    {W : Type 0} (r : StaticTokenResolver) (credential : String) (w : W) (subject : Subject)
    → (resolve r credential w).0 ≡ ok subject
    → lookup credential r.tokens ≡ some subject
unfolding resolve
resolve-found r credential w subject h = elim (Bool-cases (credential == "")) [
  | inl blank ↦ let k = rw (blank, resolve) at h in absurd cc
  | inr given ↦
      let k = rw (given, resolve) at h in
      elim (Option-cases (lookup credential r.tokens)) [
        | inl absent ↦ let l = rw absent at k in absurd cc
        | inr (found, held) ↦
            let l : ◌≡◌ {A = Result String Subject} (ok found) (ok subject) = rw held at k in
            let same : found ≡ subject = cc in held ∙ ap some same
      ]
]

-- A subject that a configured static token resolves to asserts no version, so that no registered
-- agent is refused for its version, whatever version its registration asks for.
pub static_tokens-agent_deny_reason :
    {W : Type 0} (g : Gateway W) (cfg : Config) (credential : String) (w : W) (subject : Subject)
    (entry : AgentRegistry.Entry)
    → (resolve (new_static_token_resolver (static_identities cfg)) credential w).0 ≡ ok subject
    → AgentRegistry.find g.agent_reg subject.id ≡ some entry
    → agent_deny_reason g subject ≡ none
unfolding agent_deny_reason
static_tokens-agent_deny_reason g cfg credential w subject entry h found =
    let unversioned =
      no_version credential cfg.static_tokens subject (
        resolve-found (new_static_token_resolver (static_identities cfg)) credential w subject h) in
    ground (arith, found, unversioned, eq_iff subject.agent_version "")
