-- ===== src/Command/Config.antt =====
-- cmd/helmdeep-gateway/config.go: the file of the configuration, its checks, and what the gateway is
-- given of it. Reading the file, YAML and the durations of package time are parameters.
pub mod Accepts
use helmdeep.Base.{
  ℤ, pos, String, Bool, not, ◌&&◌, ◌||◌, Option, none, some, List, [], ◌∷◌, ◌==◌, if◌then◌else◌,
  is_some, Result, ok, err, ◌>>=◌, ◌>>◌, Checked, fail_if, Dict, insert, map,
}
use helmdeep.Base.Text.{◌+++◌}
use helmdeep.Types.{Provenance}
use helmdeep.ToolRegistry
use helmdeep.AgentRegistry
use helmdeep.Gateway.StaticTokens.{StaticIdentity}

pub record Signature : Type 0 where
  pub public_key : String
  pub manifest : String

pub record StaticToken : Type 0 where
  pub id : String
  pub kind : String
  pub trust_level : ℤ
  pub scopes : List String

pub record JwtConfig : Type 0 where
  pub audience : String
  pub jwks_url : String
  pub exchange_url : String

pub record UpstreamConfig : Type 0 where
  pub name : String
  pub url : String
  pub bearer_token_env : String
  pub provenance : Provenance

pub record ToolConfig : Type 0 where
  pub id : String
  pub upstream : String
  pub risk : String
  pub data_classes : List String
  pub scopes : List String

pub record AgentConfig : Type 0 where
  pub id : String
  pub version : String
  pub owner : String
  pub risk : String
  pub data_classes : List String

-- The sections Policy, Audit and Identity are written into their fields' names.
pub record Config : Type 0 where
  pub listen : String
  pub path : String
  pub policy_path : String
  pub policy_decision_timeout : String
  pub policy_signature : Option Signature
  pub audit_path : String
  pub static_tokens : Dict StaticToken
  pub jwt : Option JwtConfig
  pub upstreams : List UpstreamConfig
  pub tools : List ToolConfig
  pub agents : List AgentConfig

-- The configuration that the file is decoded into.
abbrev pub default_config : Config
default_config = record {
  listen = ":8443";
  path = "/mcp";
  policy_path = "";
  policy_decision_timeout = "";
  policy_signature = none;
  audit_path = "";
  static_tokens = [];
  jwt = none;
  upstreams = [];
  tools = [];
  agents = [];
}

-- os.ReadFile, yaml.Unmarshal into a configuration, time.ParseDuration, filepath.Join with the name
-- of the manifest, and the texts of the errors of the two registries.
pub record Environment (W : Type 0) : Type 0 where
  pub read_file : String → W → Result String String × W
  pub unmarshal : String → Config → Result String Config
  pub parse_duration : String → Result String ℤ
  pub default_manifest_path : String → String
  pub quote : String → String
  pub tool_error : ToolRegistry.NewError → String
  pub agent_error : AgentRegistry.NewError → String

abbrev pub is_empty : {A : Type 0} → List A → Bool
is_empty [] = Bool.true
is_empty (a ∷ as') = Bool.false

abbrev pub tool_entries : List ToolConfig → List ToolRegistry.Entry
tool_entries = map (λ t. record {
  tool_id = t.id;
  upstream = t.upstream;
  risk = t.risk;
  data_classes = t.data_classes;
  scopes = t.scopes;
})

abbrev pub agent_entries : List AgentConfig → List AgentRegistry.Entry
agent_entries = map (λ a. record {
  agent_id = a.id;
  version = a.version;
  owner = a.owner;
  risk = a.risk;
  data_classes = a.data_classes;
})

unfoldable pub tool_registry : Config → Result ToolRegistry.NewError ToolRegistry.Registry
tool_registry cfg = ToolRegistry.new (tool_entries cfg.tools)

unfoldable pub agent_registry : Config → Result AgentRegistry.NewError AgentRegistry.Registry
agent_registry cfg = AgentRegistry.new (agent_entries cfg.agents)

abbrev pub static_identity : StaticToken → StaticIdentity
static_identity id = record {
  id = id.id;
  kind = id.kind;
  trust_level = id.trust_level;
  scopes = id.scopes;
  agent_version = "";
}

abbrev pub static_identities_of : Dict StaticToken → Dict StaticIdentity
static_identities_of [] = []
static_identities_of ((token, id) ∷ tokens) =
    (token, static_identity id) ∷ static_identities_of tokens

abbrev pub static_identities : Config → Dict StaticIdentity
static_identities cfg = static_identities_of cfg.static_tokens

-- The loop of `upstreamProvenance`: of two upstreams with one name the later one counts.
abbrev pub provenance_of : List UpstreamConfig → Dict Provenance → Dict Provenance
provenance_of [] out = out
provenance_of (u ∷ us) out = provenance_of us (insert u.name u.provenance out)

unfoldable pub upstream_provenance : Config → Dict Provenance
upstream_provenance cfg = provenance_of cfg.upstreams []

-- A result of which only the error counts.
abbrev pub checked : {A E : Type 0} → (E → String) → String → Result E A → Checked String
checked text what (ok a) = ok tt
checked text what (err e) = err (what +++ text e)

module _ {W : Type 0} (env : Environment W) where
  unfoldable pub policy_manifest_path : Config → String
  policy_manifest_path cfg = elim cfg.policy_signature [
    | none ↦ env.default_manifest_path cfg.policy_path
    | some s ↦
        if not (s.manifest == "") then s.manifest else env.default_manifest_path cfg.policy_path
  ]

  unfoldable pub decision_timeout : Config → Result String ℤ
  decision_timeout cfg =
      if cfg.policy_decision_timeout == ""
      then ok (pos 0)
      else env.parse_duration cfg.policy_decision_timeout

  abbrev pub check_signature : Option Signature → Checked String
  check_signature none = ok tt
  check_signature (some s) =
      fail_if (s.public_key == "")
        "policy.signature.public_key is required when policy.signature is set"

  abbrev pub check_upstreams : List UpstreamConfig → Checked String
  check_upstreams [] = ok tt
  check_upstreams (u ∷ us) =
      fail_if (u.name == "" || u.url == "") "every upstream needs a name and url"
      >> check_upstreams us

  -- The switch on the identity sources.
  abbrev pub check_identity : Dict StaticToken → Option JwtConfig → Checked String
  check_identity [] none = err "identity.static_tokens or identity.jwt is required"
  check_identity (t ∷ ts) (some jwt) =
      err "identity.static_tokens and identity.jwt are mutually exclusive"
  check_identity (t ∷ ts) none = ok tt
  check_identity [] (some jwt) =
      fail_if (jwt.audience == "") "identity.jwt.audience is required"
      >> fail_if (jwt.jwks_url == "") "identity.jwt.jwks_url is required"

  -- The checks of loadConfig, in their order.
  unfoldable pub check : Config → Checked String
  unfolding tool_registry agent_registry decision_timeout
  check cfg =
      fail_if (cfg.path == "/healthz" || cfg.path == "/livez")
        ("path " +++ env.quote cfg.path +++ " is reserved for the health endpoints")
      >> fail_if (cfg.policy_path == "") "policy.path is required"
      >> fail_if (cfg.audit_path == "") "audit.path is required"
      >> check_signature cfg.policy_signature
      >> check_upstreams cfg.upstreams
      >> checked (λ e. e) "policy.decision_timeout: " (decision_timeout cfg)
      >> checked env.tool_error "tools: " (tool_registry cfg)
      >> checked env.agent_error "agents: " (agent_registry cfg)
      >> check_identity cfg.static_tokens cfg.jwt

  -- The configuration, or the first error of the checks with the name of the file.
  abbrev pub accepted : String → Config → Checked String → Result String Config
  accepted path cfg (ok done) = ok cfg
  accepted path cfg (err e) = err ("config " +++ path +++ ": " +++ e)

  abbrev pub parsed : String → Result String Config → Result String Config
  parsed path (err e) = err ("parse config " +++ path +++ ": " +++ e)
  parsed path (ok cfg) = accepted path cfg (check cfg)

  abbrev pub read : String → Result String String → Result String Config
  read path (err e) = err ("read config " +++ path +++ ": " +++ e)
  read path (ok text) = parsed path (env.unmarshal text default_config)

  unfoldable pub load_config : String → W → Result String Config × W
  unfolding check
  load_config path w = let (text, w') = env.read_file path w in (read path text, w')
