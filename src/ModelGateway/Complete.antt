-- ===== src/ModelGateway/Complete.antt =====
-- pkg/modelgw/modelgw.go: Complete, with the record of every step on the audit store.
pub mod Trace
use helmdeep.Base.{ℕ, String, ◌==◌, if◌then◌else◌, Option, none, some, [], Result, ok, err, lookup}
use helmdeep.Base.Text.{◌+++◌}
use helmdeep.Types.{
  Subject, Action, DecisionRequest, DecisionResponse, ActionRecord, outcome_deny,
  record_outcome_allowed, record_outcome_denied, record_outcome_failed,
}
use helmdeep.Gateway.Calls.{is_allowed, or_else}
use helmdeep.ModelGateway.{
  Request, Response, Provider, Route, ModelGateway, CallError, denied, failed, panicked, approved,
}

abbrev pub model_call : Request → Action
model_call req = record {
  type = "model_call";
  tool = req.purpose;
  resource = "";
  arguments = [];
  risk = "";
  data_classes = [];
  required_scopes = [];
}

abbrev pub model_record : ℕ → Subject → Action → DecisionResponse → String → ActionRecord
model_record now subject action decision outcome = record {
  timestamp = now;
  subject = subject;
  action = action;
  decision = decision;
  outcome = outcome;
  policy_bundle = none;
  prev_hash = "";
  hash = "";
}

abbrev pub detail : Response → String
detail resp =
    resp.provider
    +++ "/"
    +++ resp.model
    +++ (if resp.fallback_from == "" then "" else " (fallback from " +++ resp.fallback_from +++ ")")

-- The action of the outcome record: on an error the response is zero, so its provider is "".
unfoldable pub outcome_action : Action → Result CallError Response → Action
outcome_action action (err e) = action
outcome_action action (ok resp) = if resp.provider == "" then action else record {
  type = action.type;
  tool = action.tool;
  resource = detail resp;
  arguments = action.arguments;
  risk = action.risk;
  data_classes = action.data_classes;
  required_scopes = action.required_scopes;
}

abbrev pub outcome_of : Result CallError Response → String
outcome_of (ok resp) = record_outcome_allowed
outcome_of (err e) = record_outcome_failed

module _ {W : Type 0} (g : ModelGateway W) where
  unfoldable pub denyf : Subject → Request → ℕ → String → String → W → Result CallError Response × W
  denyf subject req now policy_id reason w =
      let (e, w') =
        g.audit_log.append
          (model_record now subject (model_call req)
            (record {
              outcome = outcome_deny;
              obligations = [];
              policy_id = policy_id;
              reason = reason;
            })
            record_outcome_denied)
          w in
      (err (denied policy_id reason), w')

  -- `call` after the fallback provider has answered.
  abbrev pub fallen_back :
      Route → String → Result String Response × W → Result CallError Response × W
  fallen_back route e (ok resp, w) = (
    ok (record {
      provider = resp.provider;
      model = resp.model;
      content = resp.content;
      usage = resp.usage;
      fallback_from = route.provider;
    }),
    w,
  )
  fallen_back route e (err e', w) = (
    err (
        failed (
          "provider "
          +++ g.quote route.provider
          +++ " failed ("
          +++ e
          +++ "), and fallback provider "
          +++ g.quote route.fallback_provider
          +++ " also failed: "
          +++ e')),
    w,
  )

  -- `call` at the fallback provider that the map holds.
  abbrev pub fall_back :
      Route → Request → String → Option (Provider W) → W → Result CallError Response × W
  fall_back route req e none w = (err panicked, w)
  fall_back route req e (some p) w = fallen_back route e (p.complete route.fallback_model req w)

  -- `call` after the primary provider has answered.
  abbrev pub primary_answered :
      Route → Request → Result String Response × W → Result CallError Response × W
  primary_answered route req (ok resp, w) = (ok resp, w)
  primary_answered route req (err e, w) =
      if route.fallback_provider == ""
      then (
        err (
            failed (
              "provider "
              +++ g.quote route.provider
              +++ " failed and no fallback is configured: "
              +++ e)),
        w,
      )
      else if approved g.catalog route.fallback_provider route.fallback_model
      then fall_back route req e (lookup route.fallback_provider g.providers) w
      else (
        err (
            failed (
              "provider "
              +++ g.quote route.provider
              +++ " failed ("
              +++ e
              +++ "), and fallback provider "
              +++ g.quote route.fallback_provider
              +++ " model "
              +++ g.quote route.fallback_model
              +++ " is not an approved Model Catalog entry")),
        w,
      )

  abbrev pub call_primary :
      Route → Request → Option (Provider W) → W → Result CallError Response × W
  call_primary route req none w = (err panicked, w)
  call_primary route req (some p) w = primary_answered route req (p.complete route.model req w)

  unfoldable pub call : Route → Request → W → Result CallError Response × W
  call route req w = call_primary route req (lookup route.provider g.providers) w

  -- The outcome record of Complete. A panic leaves no record.
  abbrev pub settled :
      Subject
      → Action
      → DecisionResponse
      → Result CallError Response × W
      → Result CallError Response × W
  settled subject action decision (err panicked, w) = (err panicked, w)
  settled subject action decision (result, w) =
      let (later, w1) = g.now w in
      let (e, w2) =
        g.audit_log.append
          (model_record later subject (outcome_action action result) decision (outcome_of result))
          w1 in
      (result, w2)

  -- Complete after the append of the record that the call is allowed.
  abbrev pub committed :
      Subject
      → Request
      → Route
      → DecisionResponse
      → Option String × W
      → Result CallError Response × W
  committed subject req route decision (some e, w) = (
    err (
        denied "modelgw.audit_unavailable"
          ("could not durably record this decision, denying: " +++ e)),
    w,
  )
  committed subject req route decision (none, w) =
      settled subject (model_call req) decision (call route req w)

  -- Complete after the decision.
  abbrev pub authorized :
      Subject
      → Request
      → ℕ
      → Route
      → Result String DecisionResponse × W
      → Result CallError Response × W
  authorized subject req now route (err e, w) = denyf subject req now "modelgw.pdp_error" e w
  authorized subject req now route (ok decision, w) =
      if is_allowed decision.outcome
      then committed subject req route decision (
          g.audit_log.append
            (model_record now subject (model_call req) decision record_outcome_allowed) w)
      else (
        err (denied decision.policy_id (or_else decision.reason "denied by policy")),
        (g.audit_log.append
            (model_record now subject (model_call req) decision record_outcome_denied) w).1,
      )

  abbrev pub model_request : Subject → Request → ℕ → DecisionRequest
  model_request subject req now = record {
    subject = subject;
    action = model_call req;
    context = record {
      session_id = "";
      request_id = "";
      time = now;
      usage = record { calls_in_window = 0; window_seconds = 0 };
    };
  }

  -- Complete from the route of the purpose on.
  abbrev pub routed : Subject → Request → ℕ → Option Route → W → Result CallError Response × W
  routed subject req now none w =
      denyf subject req now "modelgw.no_route"
        ("no route configured for purpose " +++ g.quote req.purpose) w
  routed subject req now (some route) w =
      if approved g.catalog route.provider route.model
      then authorized subject req now route (g.pdp none (model_request subject req now) w)
      else denyf subject req now "modelcatalog.unapproved"
          ("provider "
            +++ g.quote route.provider
            +++ " model "
            +++ g.quote route.model
            +++ " is not an approved Model Catalog entry")
          w

  unfoldable pub complete : Subject → Request → W → Result CallError Response × W
  unfolding denyf call outcome_action
  complete subject req w =
      let (now, w') = g.now w in routed subject req now (lookup req.purpose g.routes) w'
