-- ===== src/Gateway/Calls.antt =====
-- internal/gateway/gateway.go: the state of the gateway and its two request handlers. A context is
-- left out, but for the deadline that `decide` sets; so are the log lines of log/slog.
use helmdeep.Base.{
  ℕ, zero, suc, ℤ, pos, negsuc, String, Bool, true, false, not, ◌&&◌, ◌||◌, Option, none, some, [],
  ◌∷◌, ◌==◌, if◌then◌else◌, Result, ok, err, Dict, lookup,
}
use helmdeep.Base.Text.{◌+++◌}
use helmdeep.Json.{Json, str, arr, obj, nil, cons, end, field, Codec}
use helmdeep.Types.{
  Subject, subject_kind_agent, Provenance, Value, Action, DecisionRequest, DecisionResponse,
  outcome_allow, outcome_deny, outcome_allow_with_obligations, ActionRecord, record_outcome_denied,
  record_outcome_failed, ToolResult,
}
use helmdeep.Mcp.{ProtocolError, Registry}
use helmdeep.Identity.{Resolver, CredentialBroker}
use helmdeep.Policy.{Decider}
use helmdeep.Audit.{Store}
use helmdeep.ToolRegistry
use helmdeep.AgentRegistry
use helmdeep.Gateway.Usage.{UsageTracker}
use helmdeep.Gateway.Provenance.{
  ProvenanceCache, untrusted_provenance, resolve, record_top_level_strings,
}

-- The fields of the Go struct that a request does not change. `codec` is encoding/json and `quote`
-- the verb %q of fmt.
pub record Gateway (W : Type 0) : Type 0 where
  pub identity : Resolver W
  pub pdp : Decider W
  pub audit_log : Store W
  pub registry : Registry W
  pub upstream_provenance : Dict Provenance
  pub decision_timeout : ℤ
  pub broker : Option (CredentialBroker W)
  pub tool_reg : ToolRegistry.Registry
  pub agent_reg : AgentRegistry.Registry
  pub now : W → ℕ × W
  pub codec : Codec
  pub quote : String → String

-- The fields that a request changes, and the world outside.
pub record State (W : Type 0) : Type 0 where
  pub usage : UsageTracker
  pub prov : ProvenanceCache
  pub world : W

-- The answer of CallTool: a result, or the error that the server maps to a protocol error.
pub data Reply : Type 0 where
  result : ToolResult → Reply
  protocol_error : ProtocolError → Reply

-- A decision timeout that is not positive means no deadline.
abbrev pub deadline : ℤ → Option ℕ
deadline (pos zero) = none
deadline (pos (suc n)) = some (suc n)
deadline (negsuc n) = none

abbrev pub is_allowed : String → Bool
is_allowed outcome = outcome == outcome_allow || outcome == outcome_allow_with_obligations

abbrev pub or_else : String → String → String
or_else reason fallback = if reason == "" then fallback else reason

-- The action of a denial that precedes the decision.
abbrev pub bare_action : String → Action
bare_action name = record {
  type = "tool_call";
  tool = name;
  resource = "";
  arguments = [];
  risk = "";
  data_classes = [];
  required_scopes = [];
}

abbrev pub deny : String → String → DecisionResponse
deny policy_id reason = record {
  outcome = outcome_deny;
  obligations = [];
  policy_id = policy_id;
  reason = reason;
}

abbrev pub unknown_subject : Subject
unknown_subject = record {
  id = "unknown";
  kind = subject_kind_agent;
  agent_version = "";
  delegation_chain = [];
  scopes = [];
  trust_level = pos 0;
}

-- A record as a caller of `Append` builds it.
abbrev pub new_record : ℕ → Subject → Action → DecisionResponse → String → ActionRecord
new_record now subject action decision outcome = record {
  timestamp = now;
  subject = subject;
  action = action;
  decision = decision;
  outcome = outcome;
  policy_bundle = none;
  prev_hash = "";
  hash = "";
}

module _ {W : Type 0} (g : Gateway W) where
  unfoldable pub text_error_result : String → ToolResult
  text_error_result text = record {
    content =
        elim (g.codec.marshal
          (arr (cons (obj (field "text" (str text) (field "type" (str "text") end))) nil))) [
            | ok b ↦ b
            | err e ↦ ""
          ];
    structured_content = "";
    is_error = true;
  }

  unfoldable pub denied_result : String → ToolResult
  unfolding text_error_result
  denied_result reason = text_error_result ("denied: " +++ reason)

  unfoldable pub failed_result : String → ToolResult
  unfolding text_error_result
  failed_result reason = text_error_result reason

  -- `g.auditLog.Append`, the error where there is one.
  unfoldable pub append : ActionRecord → State W → Option String × State W
  append rec st = let (e, w) = g.audit_log.append rec st.world in (e, record st { world = w })

  -- What the four denials before the decision share: a record, whose failure is only logged.
  unfoldable pub deny_early :
      Subject → String → DecisionResponse → String → ℕ → State W → Reply × State W
  unfolding append denied_result
  deny_early subject name decision told now st =
      let (logged, st') =
        append (new_record now subject (bare_action name) decision record_outcome_denied) st in
      (result (denied_result told), st')

  unfoldable pub deny_without_subject : String → String → ℕ → State W → Reply × State W
  unfolding deny_early
  deny_without_subject name reason now st =
      deny_early unknown_subject name (deny "identity.unresolved" reason)
        "credential not recognized" now st

  unfoldable pub deny_undeclared_agent : Subject → String → String → ℕ → State W → Reply × State W
  unfolding deny_early
  deny_undeclared_agent subject name reason now st =
      deny_early subject name (deny "agentregistry.undeclared" reason) reason now st

  unfoldable pub deny_undeclared_tool : Subject → String → ℕ → State W → Reply × State W
  unfolding deny_early
  deny_undeclared_tool subject name now st =
      let reason : String = "tool is not registered" in
      deny_early subject name (deny "toolregistry.undeclared" reason) reason now st

  unfoldable pub deny_upstream_mismatch :
      Subject → String → String → String → ℕ → State W → Reply × State W
  unfolding deny_early
  deny_upstream_mismatch subject name declared actual now st =
      let reason =
        "tool "
        +++ g.quote name
        +++ " is registered to upstream "
        +++ g.quote declared
        +++ ", but would be routed to "
        +++ g.quote actual in
      deny_early subject name (deny "toolregistry.upstream_mismatch" reason) reason now st

  -- `agentDenyReason`: the reason, where the agent may not proceed.
  unfoldable pub agent_deny_reason : Subject → Option String
  agent_deny_reason subject = elim (AgentRegistry.find g.agent_reg subject.id) [
    | none ↦ some "agent is not registered"
    | some entry ↦
        if not (entry.version == "")
          && (not (subject.agent_version == "") && not (entry.version == subject.agent_version))
        then some (
            "agent is registered for version "
            +++ g.quote entry.version
            +++ ", but this instance asserts version "
            +++ g.quote subject.agent_version)
        else none
  ]

  unfoldable pub decide : DecisionRequest → State W → Result String DecisionResponse × State W
  decide req st =
      let (r, w) = g.pdp (deadline g.decision_timeout) req st.world in (r, record st { world = w })

  -- The provenance of one argument: only a text can be on file.
  unfoldable pub taint : String → ℕ → ProvenanceCache → Json → Provenance
  taint subject_id now prov (str s) = resolve prov subject_id s now
  taint subject_id now prov _ = untrusted_provenance

  unfoldable pub taint_arguments : String → ℕ → ProvenanceCache → Dict Json → Dict Value
  unfolding taint
  taint_arguments subject_id now prov [] = []
  taint_arguments subject_id now prov ((k, v) ∷ args) =
      (k, record { payload = v; provenance = taint subject_id now prov v })
      ∷ taint_arguments subject_id now prov args

  -- The label of an upstream, untrusted unless it is configured.
  unfoldable pub upstream_label : String → Provenance
  upstream_label upstream = elim (lookup upstream g.upstream_provenance) [
    | none ↦ record { source = upstream; trusted = false }
    | some prov ↦ prov
  ]

  unfoldable pub record_result_provenance : String → String → ToolResult → ℕ → State W → State W
  unfolding upstream_label
  record_result_provenance subject_id upstream res now st =
      if res.structured_content == "" then st else elim (g.codec.unmarshal res.structured_content) [
        | err e ↦ st
        | ok decoded ↦ record st {
          prov = record_top_level_strings st.prov subject_id decoded (upstream_label upstream) now;
        }
      ]

  -- The record of a call that was allowed and then failed; its own failure is only logged.
  unfoldable pub record_failure : Subject → Action → DecisionResponse → State W → State W
  unfolding append
  record_failure subject action decision st =
      let (at, w) = g.now st.world in
      (append (new_record at subject action decision record_outcome_failed)
        (record st { world = w })).1
