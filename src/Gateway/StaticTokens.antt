-- ===== src/Gateway/StaticTokens.antt =====
-- internal/gateway/identity.go: the resolver over a fixed map of tokens, for development.
use helmdeep.Base.{
  ℤ, String, none, some, List, [], ◌∷◌, ◌==◌, if◌then◌else◌, Result, ok, err, Dict, lookup,
}
use helmdeep.Types.{Subject}

pub record StaticIdentity : Type 0 where
  pub id : String
  pub kind : String
  pub trust_level : ℤ
  pub scopes : List String
  pub agent_version : String

pub record StaticTokenResolver : Type 0 where
  pub tokens : Dict Subject

abbrev pub resolved : StaticIdentity → Subject
resolved id = record {
  id = id.id;
  kind = id.kind;
  agent_version = id.agent_version;
  delegation_chain = [];
  scopes = id.scopes;
  trust_level = id.trust_level;
}

abbrev pub resolved_tokens : Dict StaticIdentity → Dict Subject
resolved_tokens [] = []
resolved_tokens ((token, id) ∷ tokens) = (token, resolved id) ∷ resolved_tokens tokens

abbrev pub new_static_token_resolver : Dict StaticIdentity → StaticTokenResolver
new_static_token_resolver tokens = record { tokens = resolved_tokens tokens }

unfoldable pub resolve : {W : Type 0} → StaticTokenResolver → String → W → Result String Subject × W
resolve r credential w = if credential == "" then (err "no credential presented", w) else (
  elim (lookup credential r.tokens) [
    | none ↦ err "credential not recognized"
    | some subject ↦ ok subject
  ],
  w,
)
