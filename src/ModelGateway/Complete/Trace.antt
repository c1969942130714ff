-- ===== src/ModelGateway/Complete/Trace.antt =====
-- A model gateway whose world keeps a log of what the gateway asked of it, the newest event first,
-- and which logs are in order.
pub mod Governed
use helmdeep.Base.{
  ℕ, String, true, ◌==◌, eq_iff, Option, none, some, List, [], ◌∷◌, Result, ok, err, Dict, lookup,
  ◌≡◌, refl, inl, inr, Bool-cases,
}
use mathlib.Core.Option
use helmdeep.Types.{
  Subject, Action, DecisionRequest, DecisionResponse, ActionRecord, record_outcome_allowed,
}
use helmdeep.Gateway.Calls.{is_allowed}
use helmdeep.ModelGateway.{
  Request, Response, Provider, Route, ModelGateway, CallError, denied, failed, panicked, approved,
}
use helmdeep.ModelGateway.Complete.{
  model_call, model_request, model_record, denyf, call, call_primary, primary_answered, fall_back,
  fallen_back, settled, committed, authorized, routed, complete,
}

pub data Event : Type 0 where
  decided : DecisionRequest → Result String DecisionResponse → Event
  appended : ActionRecord → Option String → Event
  completed : (provider model : String) → Request → Result String Response → Event

module _ {W : Type 0} where
  -- An answer of the world, with the event that tells of it.
  abbrev pub noted :
      {A : Type 0} → (A → Event) → (W → A × W) → W × List Event → A × (W × List Event)
  noted event ask (w, log) = let (a, w') = ask w in (a, (w', event a ∷ log))

  abbrev pub unnoted : {A : Type 0} → (W → A × W) → W × List Event → A × (W × List Event)
  unnoted ask (w, log) = let (a, w') = ask w in (a, (w', log))

  abbrev pub trace_provider : String → Provider W → Provider (W × List Event)
  trace_provider key p = record {
    name = p.name;
    complete = λ model req. noted (completed key model req) (p.complete model req);
  }

  abbrev pub trace_all : Dict (Provider W) → Dict (Provider (W × List Event))
  trace_all [] = []
  trace_all ((key, p) ∷ providers) = (key, trace_provider key p) ∷ trace_all providers

  abbrev pub traced : ModelGateway W → ModelGateway (W × List Event)
  traced g = record {
    providers = trace_all g.providers;
    routes = g.routes;
    pdp = λ deadline req. noted (decided req) (g.pdp deadline req);
    audit_log = record {
      append = λ rec. noted (appended rec) (g.audit_log.append rec);
      verify = unnoted g.audit_log.verify;
    };
    catalog = g.catalog;
    now = unnoted g.now;
    quote = g.quote;
  }

  pub lookup-trace_all :
      (key : String) (providers : Dict (Provider W))
      → lookup key (trace_all providers) ≡ Option.map (trace_provider key) (lookup key providers)
  lookup-trace_all key [] = refl
  lookup-trace_all key ((k, p) ∷ providers) = elim (Bool-cases (k == key)) [
    | inl same ↦ rw (same, (eq_iff k key).0 same)
    | inr other ↦ rw (other, lookup-trace_all key providers)
  ]

-- The action that stands for a call of a model: its purpose takes the place of the tool.
abbrev pub IsCallOf : Request → Action → Type 0
IsCallOf req action =
    (action.type ≡ "model_call")
    × (action.tool ≡ req.purpose)
    × (action.resource ≡ "")
    × (action.arguments ≡ [])
    × (action.risk ≡ "")
    × (action.data_classes ≡ [])
    × (action.required_scopes ≡ [])

-- The two newest events are the decision that allowed this subject this call of a model, and the
-- successful append of the record that says so.
abbrev pub IsRecorded : Subject → Request → List Event → Type 0
IsRecorded subject req (appended rec none ∷ decided asked (ok d) ∷ log) =
    (is_allowed d.outcome ≡ true)
    × (rec.outcome ≡ record_outcome_allowed)
    × (rec.decision ≡ d)
    × (asked.subject ≡ subject)
    × (rec.subject ≡ subject)
    × (rec.action ≡ asked.action)
    × IsCallOf req asked.action
IsRecorded subject req _ = ⊥

-- The call was just recorded, or it follows a recorded call of the same request that failed.
abbrev pub IsLicensed : Subject → Request → List Event → Type 0
IsLicensed subject req (completed provider model prior (err e) ∷ log) =
    (prior ≡ req) × IsRecorded subject req log
IsLicensed subject req log = IsRecorded subject req log

module _ {W : Type 0} (g : ModelGateway W) (subject : Subject) (req : Request) where
  -- Every call of a provider in the log carries this request, had an approved catalogue entry, and
  -- was licensed for this subject when it was made.
  abbrev pub IsGoverned : List Event → Type 0
  IsGoverned [] = Unit
  IsGoverned (completed provider model sent answer ∷ log) =
      (sent ≡ req)
      × (approved g.catalog provider model ≡ true)
      × IsLicensed subject req log
      × IsGoverned log
  IsGoverned (_ ∷ log) = IsGoverned log
