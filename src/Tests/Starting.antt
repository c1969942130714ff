-- ===== src/Tests/Starting.antt =====
-- Runs of the configuration and of the health endpoint.
use helmdeep.Base.{
  ℕ, String, pos, true, false, none, some, List, [], ◌∷◌, Result, ◌≡◌, ◌↔◌, refl, ok,
}
use helmdeep.ToolRegistry
use helmdeep.AgentRegistry
use helmdeep.Health.{Check, done, healthz}
use helmdeep.Health.Laws.{IsProbe, AllPass, healthz-code}
use helmdeep.Command.Config.{Config, Environment, default_config, load_config}
use helmdeep.Command.Config.Accepts.{IsAccepted, load_config-accepts_iff}
use helmdeep.Command.Serve.{identity_source}
use helmdeep.Command.Serve.Trusts.{IsChosen, identity_source-IsChosen}

abbrev checks : List (Check ℕ)
checks = record { name = "policy"; run = λ w. (done none, w) } ∷ []

healthz-code_example :
    (((healthz checks "GET" 7).0.code ≡ 200) ↔ (IsProbe "GET" × AllPass checks 7))
    × (((healthz checks "GET" 7).0.code ≡ 503) ↔ (IsProbe "GET" × ¬ AllPass checks 7))
    × ((¬ IsProbe "GET")
        → healthz checks "GET" 7 ≡ (record { code = 405; allow = "GET, HEAD"; body = none }, 7))
healthz-code_example = healthz-code checks "GET" 7

abbrev config : Config
config = record default_config {
  policy_path = "policy";
  audit_path = "audit.log";
  static_tokens =
      ("secret", record { id = "planner"; kind = "agent"; trust_level = pos 1; scopes = [] }) ∷ [];
}

abbrev env_of : Config → Environment ℕ
env_of cfg = record {
  read_file = λ path w. (ok "yaml", w);
  unmarshal = λ text base. ok cfg;
  parse_duration = λ s. ok (pos 5);
  default_manifest_path = λ s. s;
  quote = λ s. s;
  tool_error = λ e. "tool";
  agent_error = λ e. "agent";
}

abbrev env : Environment ℕ
env = env_of config

load_config-accepts_iff_example : ((load_config env "config.yaml" 7).0 ≡ ok config) ↔ (
    (text : String) × ((env.read_file "config.yaml" 7).0 ≡ ok text)
    × (env.unmarshal text default_config ≡ ok config)
    × IsAccepted env config)
load_config-accepts_iff_example = load_config-accepts_iff env "config.yaml" 7 config

config_loaded : (load_config env "config.yaml" 7).0 ≡ ok config
unfolding load_config ToolRegistry.new AgentRegistry.new
config_loaded = refl

config-IsAccepted : IsAccepted env config
config-IsAccepted =
    let (text, read, decoded, accepted) =
      (load_config-accepts_iff env "config.yaml" 7 config).0 config_loaded in
    accepted

-- The configuration with a JWT section in place of the static tokens.
abbrev jwt_config : Config
jwt_config = record config {
  static_tokens = [];
  jwt = some (record {
    audience = "gateways";
    jwks_url = "https://issuer/jwks";
    exchange_url = "https://issuer/exchange";
  });
}

jwt_config-loaded : (load_config (env_of jwt_config) "config.yaml" 7).0 ≡ ok jwt_config
unfolding load_config ToolRegistry.new AgentRegistry.new
jwt_config-loaded = refl

jwt_config-IsAccepted : IsAccepted (env_of jwt_config) jwt_config
jwt_config-IsAccepted =
    let (text, read, decoded, accepted) =
      (load_config-accepts_iff (env_of jwt_config) "config.yaml" 7 jwt_config).0
        jwt_config-loaded in
    accepted

abbrev fetch : String → ℕ → Result String String × ℕ
fetch url w = (ok "keys", w)

identity_source-IsChosen_example :
    IsChosen fetch jwt_config false 7 (identity_source fetch jwt_config false 7).0
identity_source-IsChosen_example =
    identity_source-IsChosen fetch (env_of jwt_config) jwt_config false 7 jwt_config-IsAccepted

-- With the flag the static tokens are chosen, and without it there is no source.
tokens-IsChosen : IsChosen fetch config true 7 (identity_source fetch config true 7).0
tokens-IsChosen = identity_source-IsChosen fetch env config true 7 config-IsAccepted

none-IsChosen : IsChosen fetch config false 7 (identity_source fetch config false 7).0
none-IsChosen = identity_source-IsChosen fetch env config false 7 config-IsAccepted
