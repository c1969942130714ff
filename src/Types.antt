-- ===== src/Types.antt =====
-- pkg/types: what a caller is, what it asks to do, what was decided and what is recorded.
-- Times are nanoseconds. A Go type over `string` (SubjectKind, Outcome, RecordOutcome,
-- ObligationType) is a text here too, since values other than its constants do occur.
-- The two cost fields of Usage are floats that no code assigns, and are left out.
use helmdeep.Base.{String, ℕ, ℤ, Bool, Option, List, Dict}
use helmdeep.Json.{Json}

abbrev pub subject_kind_agent : String
subject_kind_agent = "agent"

pub record Subject : Type 0 where
  pub id : String
  pub kind : String
  pub agent_version : String
  pub delegation_chain : List String
  pub scopes : List String
  pub trust_level : ℤ

pub record Provenance : Type 0 where
  pub source : String
  pub trusted : Bool

pub record Value : Type 0 where
  pub payload : Json
  pub provenance : Provenance

pub record Action : Type 0 where
  pub type : String
  pub tool : String
  pub resource : String
  pub arguments : Dict Value
  pub risk : String
  pub data_classes : List String
  pub required_scopes : List String

pub record Usage : Type 0 where
  pub calls_in_window : ℕ
  pub window_seconds : ℕ

pub record DecisionContext : Type 0 where
  pub session_id : String
  pub request_id : String
  pub time : ℕ
  pub usage : Usage

pub record DecisionRequest : Type 0 where
  pub subject : Subject
  pub action : Action
  pub context : DecisionContext

abbrev pub outcome_allow : String
outcome_allow = "allow"

abbrev pub outcome_deny : String
outcome_deny = "deny"

abbrev pub outcome_allow_with_obligations : String
outcome_allow_with_obligations = "allow_with_obligations"

abbrev pub obligation_redact : String
obligation_redact = "redact"

pub record Obligation : Type 0 where
  pub type : String
  pub target : String

pub record DecisionResponse : Type 0 where
  pub outcome : String
  pub obligations : List Obligation
  pub policy_id : String
  pub reason : String

pub record PolicyBundleRef : Type 0 where
  pub version : String
  pub digest : String

abbrev pub record_outcome_allowed : String
record_outcome_allowed = "allowed"

abbrev pub record_outcome_denied : String
record_outcome_denied = "denied"

abbrev pub record_outcome_failed : String
record_outcome_failed = "failed"

pub record ActionRecord : Type 0 where
  pub timestamp : ℕ
  pub subject : Subject
  pub action : Action
  pub decision : DecisionResponse
  pub outcome : String
  pub policy_bundle : Option PolicyBundleRef
  pub prev_hash : String
  pub hash : String

pub record Tool : Type 0 where
  pub name : String
  pub description : String
  pub input_schema : String
  pub upstream : String

pub record ToolCall : Type 0 where
  pub tool : String
  pub arguments : Dict Value
  pub credential : String

-- `content` and `structured_content` are raw JSON; the empty text is an absent one.
pub record ToolResult : Type 0 where
  pub content : String
  pub structured_content : String
  pub is_error : Bool
