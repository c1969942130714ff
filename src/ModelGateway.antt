-- ===== src/ModelGateway.antt =====
-- pkg/modelgw/modelgw.go: the gateway for calls of models. A provider, the decider and the audit
-- store are parameters over the state `W` of the world; logging to slog is left out. The
-- temperature of a request is a float that is only passed on, and is kept as its text.
pub mod Complete
pub mod Routes
pub mod Providers
use helmdeep.Base.{
  ℕ, ℤ, pos, String, Bool, true, false, ◌&&◌, ◌==◌, if◌then◌else◌, Option, none, some, List, [],
  ◌∷◌, Result, ok, err, Dict, lookup,
}
use helmdeep.Base.Text.{◌+++◌}
use helmdeep.Types.{
  Subject, Action, DecisionRequest, DecisionResponse, ActionRecord, outcome_deny,
  record_outcome_allowed, record_outcome_denied, record_outcome_failed,
}
use helmdeep.Policy.{Decider}
use helmdeep.Audit.{Store}
use helmdeep.ModelCatalog
use helmdeep.Gateway.Calls.{is_allowed, or_else}

pub record Message : Type 0 where
  pub role : String
  pub content : String

pub record Request : Type 0 where
  pub purpose : String
  pub messages : List Message
  pub max_tokens : ℤ
  pub temperature : String

pub record TokenUsage : Type 0 where
  pub prompt_tokens : ℤ
  pub completion_tokens : ℤ

pub record Response : Type 0 where
  pub provider : String
  pub model : String
  pub content : String
  pub usage : TokenUsage
  pub fallback_from : String

pub record Provider (W : Type 0) : Type 0 where
  pub name : String
  pub complete : String → Request → W → Result String Response × W

pub record Route : Type 0 where
  pub provider : String
  pub model : String
  pub fallback_provider : String
  pub fallback_model : String

pub record ModelGateway (W : Type 0) : Type 0 where
  pub providers : Dict (Provider W)
  pub routes : Dict Route
  pub pdp : Decider W
  pub audit_log : Store W
  pub catalog : ModelCatalog.Registry
  pub now : W → ℕ × W
  pub quote : String → String

-- What Complete returns in place of a response: `ErrDenied`, the error of a call, or a panic, on a
-- provider that the map does not hold.
pub data CallError : Type 0 where
  denied : (policy_id reason : String) → CallError
  failed : String → CallError
  panicked : CallError

-- The errors of `New`, with what their texts name.
pub data RouteError : Type 0 where
  no_provider : (purpose : String) → RouteError
  unknown_provider : (purpose provider : String) → RouteError
  no_model : (purpose field : String) → RouteError
  latest_model : (purpose field : String) → RouteError
  unknown_fallback : (purpose provider : String) → RouteError

unfoldable pub validate_model_version : String → String → String → Option RouteError
validate_model_version purpose field model =
    if model == ""
    then some (no_model purpose field)
    else if model == "latest"
    then some (latest_model purpose field)
    else none

-- The check of one route, in the loop of `New`.
unfoldable pub check_route : {W : Type 0} → Dict (Provider W) → String → Route → Option RouteError
unfolding validate_model_version
check_route providers purpose r =
    if r.provider == "" then some (no_provider purpose) else elim (lookup r.provider providers) [
      | none ↦ some (unknown_provider purpose r.provider)
      | some _ ↦ elim (validate_model_version purpose "model" r.model) [
        | some e ↦ some e
        | none ↦
            if r.fallback_provider == ""
            then none
            else elim (lookup r.fallback_provider providers) [
              | none ↦ some (unknown_fallback purpose r.fallback_provider)
              | some _ ↦ validate_model_version purpose "fallback_model" r.fallback_model
            ]
      ]
    ]

-- The loop of `New`, in one of the orders in which Go ranges over a map.
unfoldable pub check_routes : {W : Type 0} → Dict (Provider W) → Dict Route → Option RouteError
unfolding check_route
check_routes providers [] = none
check_routes providers ((purpose, r) ∷ routes) = elim (check_route providers purpose r) [
  | some e ↦ some e
  | none ↦ check_routes providers routes
]

unfoldable pub new_model_gateway :
    {W : Type 0}
    → Dict (Provider W)
    → Dict Route
    → Decider W
    → Store W
    → ModelCatalog.Registry
    → (W → ℕ × W)
    → (String → String)
    → Result RouteError (ModelGateway W)
unfolding check_routes
new_model_gateway providers routes pdp audit_log catalog now quote =
    elim (check_routes providers routes) [
      | some e ↦ err e
      | none ↦ ok (record {
        providers = providers;
        routes = routes;
        pdp = pdp;
        audit_log = audit_log;
        catalog = catalog;
        now = now;
        quote = quote;
      })
    ]

abbrev pub approved_entry : Option ModelCatalog.Entry → Bool
approved_entry none = false
approved_entry (some e) = e.approved

-- A catalogue entry exists for the pair, and is approved.
abbrev pub approved : ModelCatalog.Registry → String → String → Bool
approved catalog provider model = approved_entry (ModelCatalog.find catalog provider model)
