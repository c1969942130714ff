-- ===== src/Gateway/CallTool/Trace.antt =====
-- A gateway whose world keeps a log of what the gateway asked of it, the newest event first.
pub mod Licensed
pub mod Governed
pub mod Complete
use mathlib.Core.Option
use helmdeep.Base.{
  ℕ, String, Option, none, some, List, [], ◌∷◌, ◌≡◌, true, Result, ok, err, map, Dict,
}
use helmdeep.Types.{
  Subject, ActionRecord, DecisionRequest, DecisionResponse, ToolCall, ToolResult, Value, Tool,
  record_outcome_allowed,
}
use helmdeep.Mcp.{Upstream, Registry}
use helmdeep.Audit.{Store}
use helmdeep.Identity.{CredentialBroker}
use helmdeep.Gateway.Calls.{Gateway, State, is_allowed}

pub data Event : Type 0 where
  resolved : (credential : String) → Result String Subject → Event
  decided : DecisionRequest → Result String DecisionResponse → Event
  appended : ActionRecord → Option String → Event
  minted : (presented upstream tool : String) → Result String String → Event
  called : (upstream : String) → ToolCall → Event

module _ {W : Type 0} where
  -- An answer of the world, with the event that tells of it.
  abbrev pub noted :
      {A : Type 0} → (A → Event) → (W → A × W) → W × List Event → A × (W × List Event)
  noted event ask (w, log) = let (a, w') = ask w in (a, (w', event a ∷ log))

  -- An answer that the log leaves out.
  abbrev pub unnoted : {A : Type 0} → (W → A × W) → W × List Event → A × (W × List Event)
  unnoted ask (w, log) = let (a, w') = ask w in (a, (w', log))

  unfoldable pub trace_upstream : Upstream W → Upstream (W × List Event)
  trace_upstream u = record {
    name = u.name;
    list_tools = unnoted u.list_tools;
    call_tool = λ call. noted (λ _. called u.name call) (u.call_tool call);
  }

  abbrev pub trace_broker : CredentialBroker W → CredentialBroker (W × List Event)
  trace_broker broker credential upstream tool =
      noted (minted credential upstream tool) (broker credential upstream tool)

  unfoldable pub traced : Gateway W → Gateway (W × List Event)
  unfolding trace_upstream
  traced g = record {
    identity = λ credential. noted (resolved credential) (g.identity credential);
    pdp = λ deadline req. noted (decided req) (g.pdp deadline req);
    audit_log = record {
      append = λ rec. noted (appended rec) (g.audit_log.append rec);
      verify = unnoted g.audit_log.verify;
    };
    registry = record {
      upstreams = map trace_upstream g.registry.upstreams;
      resolve = λ name. Option.map trace_upstream (g.registry.resolve name);
      tools = g.registry.tools;
    };
    upstream_provenance = g.upstream_provenance;
    decision_timeout = g.decision_timeout;
    broker = Option.map trace_broker g.broker;
    tool_reg = g.tool_reg;
    agent_reg = g.agent_reg;
    now = unnoted g.now;
    codec = g.codec;
    quote = g.quote;
  }

abbrev pub log_of : {W : Type 0} → State (W × List Event) → List Event
log_of st = st.world.1

-- The newest event is the resolution of this credential to this subject.
abbrev pub IsResolved : String → Subject → List Event → Type 0
IsResolved credential subject (resolved asked (ok found) ∷ log) =
    (asked ≡ credential) × (found ≡ subject)
IsResolved credential subject _ = ⊥

-- The three newest events are the resolution of this credential to a subject, the decision that
-- allowed that subject a call of this tool with these arguments, and the successful append of the
-- record that says so.
abbrev pub IsRecorded : (credential tool : String) → Dict Value → List Event → Type 0
IsRecorded credential tool arguments (appended rec none ∷ decided req (ok d) ∷ log) =
    (is_allowed d.outcome ≡ true)
    × (rec.outcome ≡ record_outcome_allowed)
    × (rec.decision ≡ d)
    × (rec.subject ≡ req.subject)
    × (rec.action ≡ req.action)
    × (req.action.tool ≡ tool)
    × (req.action.arguments ≡ arguments)
    × IsResolved credential req.subject log
IsRecorded credential tool arguments _ = ⊥

-- The call carries no credential and was just recorded, or it carries the token that was minted
-- for this upstream and this tool right after the record, in exchange for the credential that was
-- resolved.
abbrev pub IsLicensed : String → ToolCall → List Event → Type 0
IsLicensed upstream call (minted presented up tool (ok token) ∷ log) =
    (up ≡ upstream)
    × (tool ≡ call.tool)
    × (token ≡ call.credential)
    × IsRecorded presented call.tool call.arguments log
IsLicensed upstream call log =
    (call.credential ≡ "")
    × (credential : String) × IsRecorded credential call.tool call.arguments log

-- Every call of an upstream in the log was licensed when it was made.
abbrev pub IsGoverned : List Event → Type 0
IsGoverned [] = Unit
IsGoverned (called upstream call ∷ log) = IsLicensed upstream call log × IsGoverned log
IsGoverned (_ ∷ log) = IsGoverned log
