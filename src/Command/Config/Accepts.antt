-- ===== src/Command/Config/Accepts.antt =====
-- Which configurations are accepted.
use helmdeep.Base.{
  ℤ, String, Option, none, some, List, [], ◌∷◌, ◌≡◌, ◌≢◌, ◌↔◌, refl, inl, inr, ◌==◌, ◌||◌, Result,
  ok, err, >>=-eq-ok, Result-cases, ◌>>◌, Checked, fail_if, Dict, eq_iff, arith, All,
}
use helmdeep.ToolRegistry
use helmdeep.AgentRegistry
use helmdeep.Command.Config.{
  Signature, StaticToken, JwtConfig, UpstreamConfig, Config, default_config, Environment,
  tool_entries, agent_entries, tool_registry, agent_registry, checked, decision_timeout,
  check_signature, check_upstreams, check_identity, check, load_config, parsed,
}

-- Exactly one source of identities, and it is complete.
abbrev pub HasIdentity : Dict StaticToken → Option JwtConfig → Type 0
HasIdentity [] none = ⊥
HasIdentity (t ∷ ts) (some jwt) = ⊥
HasIdentity (t ∷ ts) none = Unit
HasIdentity [] (some jwt) = (jwt.audience ≢ "") × (jwt.jwks_url ≢ "")

abbrev pub IsSigned : Option Signature → Type 0
IsSigned none = Unit
IsSigned (some s) = s.public_key ≢ ""

module _ {W : Type 0} (env : Environment W) where
  pub record IsAccepted (cfg : Config) : Type 0 where
    pub path : (cfg.path ≢ "/healthz") × (cfg.path ≢ "/livez")
    pub policy_path : cfg.policy_path ≢ ""
    pub audit_path : cfg.audit_path ≢ ""
    pub signature : IsSigned cfg.policy_signature
    pub upstreams : All (λ u. (u.name ≢ "") × (u.url ≢ "")) cfg.upstreams
    pub timeout : (d : ℤ) × (decision_timeout env cfg ≡ ok d)
    pub tools : ToolRegistry.Laws.IsWellFormed (tool_entries cfg.tools)
    pub agents : AgentRegistry.Laws.IsWellFormed (agent_entries cfg.agents)
    pub identity : HasIdentity cfg.static_tokens cfg.jwt

  check_upstreams_iff :
      (us : List UpstreamConfig)
      → (check_upstreams env us ≡ ok tt) ↔ All (λ u. (u.name ≢ "") × (u.url ≢ "")) us
  check_upstreams_iff [] = ground arith
  check_upstreams_iff (u ∷ us) =
      ground (arith, check_upstreams_iff us, eq_iff u.name "", eq_iff u.url "")

  check_identity_iff :
      (ts : Dict StaticToken) (jwt : Option JwtConfig)
      → (check_identity env ts jwt ≡ ok tt) ↔ HasIdentity ts jwt
  check_identity_iff [] none = ground arith
  check_identity_iff (t ∷ ts) (some jwt) = ground arith
  check_identity_iff (t ∷ ts) none = ground arith
  check_identity_iff [] (some jwt) = ground (arith, eq_iff jwt.audience "", eq_iff jwt.jwks_url "")

  check_signature_iff : (s : Option Signature) → (check_signature env s ≡ ok tt) ↔ IsSigned s
  check_signature_iff none = ground arith
  check_signature_iff (some s) = ground (arith, eq_iff s.public_key "")

  checked_iff :
      {A E : Type 0} (text : E → String) (what : String) (r : Result E A)
      → (checked text what r ≡ ok tt) ↔ ((a : A) × (r ≡ ok a))
  checked_iff text what (ok a) = (λ h. (a, refl), λ h. refl)
  checked_iff text what (err e) = (λ h. absurd cc, λ (a, h). absurd cc)

  fail_if_or :
      (path : String) (e : String)
      → (fail_if (path == "/healthz" || path == "/livez") e ≡ ok tt)
        ↔ ((path ≢ "/healthz") × (path ≢ "/livez"))
  fail_if_or path e = ground (arith, eq_iff path "/healthz", eq_iff path "/livez")

  fail_if_blank : (s e : String) → (fail_if (s == "") e ≡ ok tt) ↔ (s ≢ "")
  fail_if_blank s e = ground (arith, eq_iff s "")

  >>-both : {m k : Checked String} → ((m >> k) ≡ ok tt) → (m ≡ ok tt) × (k ≡ ok tt)
  >>-both {m} {k} h = let (done, first, rest) = >>=-eq-ok m (λ _. k) h in (first, rest)

  >>-ok : {m k : Checked String} → m ≡ ok tt → k ≡ ok tt → (m >> k) ≡ ok tt
  >>-ok {m} {k} h l = rw h l

  check_sound : (cfg : Config) → check env cfg ≡ ok tt → IsAccepted cfg
  unfolding check
  check_sound cfg h =
      let (h8, identity) = >>-both h in
      let (h7, agents) = >>-both h8 in
      let (h6, tools) = >>-both h7 in
      let (h5, timeout) = >>-both h6 in
      let (h4, upstreams) = >>-both h5 in
      let (h3, signature) = >>-both h4 in
      let (h2, audit) = >>-both h3 in
      let (path, policy) = >>-both h2 in
      record {
        path = (fail_if_or cfg.path _).0 path;
        policy_path = (fail_if_blank cfg.policy_path _).0 policy;
        audit_path = (fail_if_blank cfg.audit_path _).0 audit;
        signature = (check_signature_iff cfg.policy_signature).0 signature;
        upstreams = (check_upstreams_iff cfg.upstreams).0 upstreams;
        timeout = (checked_iff _ _ (decision_timeout env cfg)).0 timeout;
        tools =
            (ToolRegistry.Laws.new-accepts_iff _).0 ((checked_iff _ _ (tool_registry cfg)).0 tools);
        agents =
            (AgentRegistry.Laws.new_agents-accepts_iff _).0
              ((checked_iff _ _ (agent_registry cfg)).0 agents);
        identity = (check_identity_iff cfg.static_tokens cfg.jwt).0 identity;
      }

  check_complete : (cfg : Config) → IsAccepted cfg → check env cfg ≡ ok tt
  unfolding check
  check_complete cfg h =
      >>-ok
        (>>-ok
          (>>-ok
            (>>-ok
              (>>-ok
                (>>-ok
                  (>>-ok
                    (>>-ok ((fail_if_or cfg.path _).1 h.path)
                      ((fail_if_blank cfg.policy_path _).1 h.policy_path))
                    ((fail_if_blank cfg.audit_path _).1 h.audit_path))
                  ((check_signature_iff cfg.policy_signature).1 h.signature))
                ((check_upstreams_iff cfg.upstreams).1 h.upstreams))
              ((checked_iff _ _ (decision_timeout env cfg)).1 h.timeout))
            ((checked_iff _ _ (tool_registry cfg)).1
              ((ToolRegistry.Laws.new-accepts_iff _).1 h.tools)))
          ((checked_iff _ _ (agent_registry cfg)).1
            ((AgentRegistry.Laws.new_agents-accepts_iff _).1 h.agents)))
        ((check_identity_iff cfg.static_tokens cfg.jwt).1 h.identity)

  parsed_iff :
      (path : String) (r : Result String Config) (cfg : Config)
      → (parsed env path r ≡ ok cfg) ↔ ((r ≡ ok cfg) × IsAccepted cfg)
  parsed_iff path (err e) cfg = (λ h. absurd cc, λ (h, a). absurd cc)
  parsed_iff path (ok found) cfg = elim (Result-cases (check env found)) [
    | inl (done, passed) ↦ (
      λ h.
          let k : ◌≡◌ {A = Result String Config} (ok found) (ok cfg) = rw passed at h in
          let same : found ≡ cfg = cc in (k, rw (← same) (check_sound found passed)),
      λ (h, a). rw passed h,
    )
    | inr (e, failed) ↦ (
      λ h. let k = rw failed at h in absurd cc,
      λ (h, a).
          let same : found ≡ cfg = cc in
          let passed : check env found ≡ ok tt = check_complete found (rw same a) in absurd cc,
    )
  ]

  -- A configuration is loaded exactly when its file can be read and decodes, over the defaults, to
  -- it, its path is not one of the health endpoints, a policy and an audit log are named, a signed
  -- policy has its key, every upstream has a name and a URL, the timeout parses, the two registries
  -- accept their entries, and there is exactly one source of identities, which is complete.
  pub load_config-accepts_iff :
      (path : String) (w : W) (cfg : Config)
      → ((load_config env path w).0 ≡ ok cfg) ↔ (
          (text : String) × ((env.read_file path w).0 ≡ ok text)
          × (env.unmarshal text default_config ≡ ok cfg)
          × IsAccepted cfg)
  unfolding load_config
  load_config-accepts_iff path w cfg = elim (Result-cases (env.read_file path w).0) [
    | inr (e, failed) ↦
        (λ h. let k = rw (failed, load_config) at h in absurd cc, λ (text, got, rest, a). absurd cc)
    | inl (found, got) ↦
        let (to, from) = parsed_iff path (env.unmarshal found default_config) cfg in
        (
          λ h. let (decoded, a) = to (rw (got, load_config) at h) in (found, got, decoded, a),
          λ (text, again, decoded, a).
              let same : found ≡ text = cc in rw (got, load_config) (from (rw same decoded, a)),
        )
  ]
