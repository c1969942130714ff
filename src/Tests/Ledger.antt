-- ===== src/Tests/Ledger.antt =====
-- Runs on the file of records, with a codec that knows one record.
use helmdeep.Base.{
  String, List, [], ◌∷◌, true, false, Bool, ◌&&◌, Option, none, some, Result, ok, err, ◌≡◌, ◌≢◌,
  refl, pos, inl, inr, ◌==◌, eq_iff, if◌then◌else◌, arith, Bool-cases, ℤ, negsuc,
}
use helmdeep.Base.Text.{eqb}
use helmdeep.Types.{Subject, Action, DecisionResponse, ActionRecord}
use helmdeep.Audit.FileStore.{
  Bytes, RecordCodec, WriteOutcome, written, not_opened, not_synced, FileStore, lines_of,
  compute_hash, append, verify,
}
use helmdeep.Audit.FileStore.Chain.{IsFaithful, IsIntact, append_all, verify-append_all}
use helmdeep.Audit.FileStore.Faults.{Written, verify_after_failed_sync}

abbrev pub subject : Subject
subject = record {
  id = "agent:planner";
  kind = "agent";
  agent_version = "";
  delegation_chain = [];
  scopes = [];
  trust_level = pos 0;
}

abbrev action : Action
action = record {
  type = "tool_call";
  tool = "kb.search";
  resource = "";
  arguments = [];
  risk = "low";
  data_classes = [];
  required_scopes = [];
}

abbrev decision : DecisionResponse
decision = record { outcome = "allow"; obligations = []; policy_id = "p"; reason = "" }

-- The record before it is appended, and as it is written first in a file.
abbrev pub draft : ActionRecord
draft = record {
  timestamp = 7;
  subject = subject;
  action = action;
  decision = decision;
  outcome = "allowed";
  policy_bundle = none;
  prev_hash = "";
  hash = "";
}

abbrev first : ActionRecord
first = record draft { hash = "h" }

abbrev is_empty : {A : Type 0} → List A → Bool
is_empty [] = true
is_empty (a ∷ as') = false

is_empty_sound : {A : Type 0} (xs : List A) → is_empty xs ≡ true → xs ≡ []
is_empty_sound [] h = refl
is_empty_sound (x ∷ xs) h = cc

abbrev is_zero : ℤ → Bool
is_zero (pos n) = eqb n 0
is_zero (negsuc n) = false

is_zero_sound : (z : ℤ) → is_zero z ≡ true → z ≡ pos 0
is_zero_sound (pos n) h = ground arith
is_zero_sound (negsuc n) h = cc

abbrev is_absent : {A : Type 0} → Option A → Bool
is_absent none = true
is_absent (some a) = false

is_absent_sound : {A : Type 0} (o : Option A) → is_absent o ≡ true → o ≡ none
is_absent_sound none h = refl
is_absent_sound (some a) h = cc

abbrev fits_subject : Subject → Bool
fits_subject s =
    s.id == "agent:planner"
    && (s.kind == "agent"
        && (s.agent_version == ""
            && (is_empty s.delegation_chain && (is_empty s.scopes && is_zero s.trust_level))))

fits_subject_sound : (s : Subject) → fits_subject s ≡ true → s ≡ subject
fits_subject_sound s h = ground (
  arith,
  eq_iff s.id "agent:planner",
  eq_iff s.kind "agent",
  eq_iff s.agent_version "",
  is_empty_sound s.delegation_chain,
  is_empty_sound s.scopes,
  is_zero_sound s.trust_level,
)

abbrev fits_action : Action → Bool
fits_action a =
    a.type == "tool_call"
    && (a.tool == "kb.search"
        && (a.resource == ""
            && (is_empty a.arguments
                && (a.risk == "low" && (is_empty a.data_classes && is_empty a.required_scopes)))))

fits_action_sound : (a : Action) → fits_action a ≡ true → a ≡ action
fits_action_sound a h = ground (
  arith,
  eq_iff a.type "tool_call",
  eq_iff a.tool "kb.search",
  eq_iff a.resource "",
  is_empty_sound a.arguments,
  eq_iff a.risk "low",
  is_empty_sound a.data_classes,
  is_empty_sound a.required_scopes,
)

abbrev fits_decision : DecisionResponse → Bool
fits_decision d =
    d.outcome == "allow" && (is_empty d.obligations && (d.policy_id == "p" && d.reason == ""))

fits_decision_sound : (d : DecisionResponse) → fits_decision d ≡ true → d ≡ decision
fits_decision_sound d h = ground (
  arith,
  eq_iff d.outcome "allow",
  is_empty_sound d.obligations,
  eq_iff d.policy_id "p",
  eq_iff d.reason "",
)

abbrev fits : ActionRecord → Bool
fits r =
    eqb r.timestamp 7
    && (fits_subject r.subject
        && (fits_action r.action
            && (fits_decision r.decision
                && (r.outcome == "allowed"
                    && (is_absent r.policy_bundle && (r.prev_hash == "" && r.hash == "h"))))))

fits_sound : (r : ActionRecord) → fits r ≡ true → r ≡ first
fits_sound r h = ground (
  arith,
  fits_subject_sound r.subject,
  fits_action_sound r.action,
  fits_decision_sound r.decision,
  eq_iff r.outcome "allowed",
  is_absent_sound r.policy_bundle,
  eq_iff r.prev_hash "",
  eq_iff r.hash "h",
)

abbrev read : Bytes → Result String ActionRecord
read [] = err "blank"
read (b ∷ bs) = if eqb b 49 then ok first else err "unknown"

abbrev pub codec : RecordCodec
codec = record {
  marshal_hashable = λ h.
      if h.prev_hash == "" then ok (1 ∷ []) else if h.prev_hash == "h" then ok (2 ∷ []) else err "";
  marshal = λ r. if fits r then ok (49 ∷ []) else err "unknown";
  unmarshal = read;
  sha256_hex = λ b. "h";
}

pub codec-IsFaithful : IsFaithful codec
codec-IsFaithful = record {
  one_line = λ r line h. elim (Bool-cases (fits r)) [
    | inl fit ↦
        let k : ◌≡◌ {A = Result String Bytes} (ok (49 ∷ [])) (ok line) = rw fit at h in
        let same : 49 ∷ [] ≡ line = cc in rw (← same) (λ e. omega arith, tt)
    | inr unfit ↦ let k = rw unfit at h in absurd cc
  ];
  reads = λ r line h. elim (Bool-cases (fits r)) [
    | inl fit ↦
        let k : ◌≡◌ {A = Result String Bytes} (ok (49 ∷ [])) (ok line) = rw fit at h in
        let same : 49 ∷ [] ≡ line = cc in rw (fits_sound r fit, ← same) refl
    | inr unfit ↦ let k = rw unfit at h in absurd cc
  ];
}

abbrev pub outcomes : List WriteOutcome
outcomes = not_opened "busy" ∷ written ∷ []

verify-append_all_example :
    verify codec (
      append_all codec
        (draft ∷ draft ∷ [])
        (record { last_hash = ""; content = []; outcomes = outcomes }))
    ≡ none
verify-append_all_example =
    verify-append_all codec (draft ∷ draft ∷ []) outcomes codec-IsFaithful (tt, (tt, tt))

abbrev written_file : FileStore
written_file = record { last_hash = "h"; content = 49 ∷ 10 ∷ []; outcomes = [] }

abbrev other_file : FileStore
other_file = record { last_hash = ""; content = 49 ∷ 32 ∷ 10 ∷ []; outcomes = [] }

abbrev failing : FileStore
failing = record { last_hash = ""; content = []; outcomes = not_synced "io" ∷ written ∷ [] }

draft-Written : Written codec "" draft
unfolding compute_hash
draft-Written = record { hash = "h"; line = 49 ∷ []; hashed = refl; marshalled = refl }

failing-IsIntact : IsIntact codec failing
unfolding lines_of
failing-IsIntact = record { complete = tt; chained = refl }

verify_after_failed_sync_example :
    ((append codec draft (append codec draft failing).1).0 ≡ none)
    × ((append_all codec (draft ∷ draft ∷ []) failing).content ≡ 49 ∷ 10 ∷ 49 ∷ 10 ∷ [])
    × (codec.unmarshal (49 ∷ 10 ∷ []) ≡ ok (record draft { prev_hash = ""; hash = "h" }))
    × ((recs : List ActionRecord)
        → verify codec (append_all codec (draft ∷ draft ∷ recs) failing) ≢ none)
unfolding draft-Written
verify_after_failed_sync_example =
    verify_after_failed_sync codec failing "io" draft draft draft-Written draft-Written [] refl
      codec-IsFaithful failing-IsIntact (λ e. cc)

abbrev restarted : FileStore
restarted = record { last_hash = "h"; content = 49 ∷ 10 ∷ []; outcomes = [] }
