-- ===== src/ModelGateway/Routes.antt =====
-- Which configurations `New` accepts.
pub mod Total
use helmdeep.Base.{
  ℕ, String, true, ◌==◌, eq_iff, Option, none, some, [], ◌∷◌, Result, ok, err, Dict, lookup, ◌≡◌,
  ◌≢◌, ◌⊎◌, refl, sym, inl, inr, Bool-cases, Option-cases, arith, is_some, All, ◌↔◌,
}
use helmdeep.Policy.{Decider}
use helmdeep.Audit.{Store}
use helmdeep.ModelCatalog
use helmdeep.ModelGateway.{
  Request, Response, Provider, Route, ModelGateway, CallError, panicked, denied, failed,
  check_route, check_routes, validate_model_version, new_model_gateway, approved,
}
use helmdeep.ModelGateway.Complete.{
  model_call, model_request, model_record, denyf, call, call_primary, primary_answered, fall_back,
  fallen_back, settled, committed, authorized, routed, complete,
}
use helmdeep.Types.{Subject, Action, DecisionResponse, record_outcome_allowed}
use helmdeep.Gateway.Calls.{is_allowed}

-- An explicit version of a model.
abbrev pub IsPinned : String → Type 0
IsPinned model = (model ≢ "") × (model ≢ "latest")

-- The route names configured providers and pinned models, its fallback too, if it has one.
abbrev pub IsRouted : {W : Type 0} → Dict (Provider W) → String × Route → Type 0
IsRouted providers (purpose, r) =
    (r.provider ≢ "")
    × (is_some (lookup r.provider providers) ≡ true)
    × IsPinned r.model
    × ((r.fallback_provider ≡ "")
        ⊎ ((is_some (lookup r.fallback_provider providers) ≡ true) × IsPinned r.fallback_model))

validate_iff :
    (purpose field model : String)
    → (validate_model_version purpose field model ≡ none) ↔ IsPinned model
unfolding validate_model_version
validate_iff purpose field model = ground (arith, eq_iff model "", eq_iff model "latest")

module _ {W : Type 0} where
  check_route_iff :
      (providers : Dict (Provider W)) (purpose : String) (r : Route)
      → (check_route providers purpose r ≡ none) ↔ IsRouted providers (purpose, r)
  unfolding check_route
  check_route_iff providers purpose r = ground (
    arith,
    eq_iff r.provider "",
    eq_iff r.fallback_provider "",
    validate_iff purpose "model" r.model,
    validate_iff purpose "fallback_model" r.fallback_model,
  )

  check_routes_iff :
      (providers : Dict (Provider W)) (routes : Dict Route)
      → (check_routes providers routes ≡ none) ↔ All (IsRouted providers) routes
  unfolding check_routes
  check_routes_iff providers [] = (λ _. tt, λ _. refl)
  check_routes_iff providers ((purpose, r) ∷ routes) =
      ground (arith, check_route_iff providers purpose r, check_routes_iff providers routes)

  -- New accepts a configuration exactly when every route names a configured provider and an explicit
  -- version of a model that is not "latest", and so does its fallback, if it has one.
  pub new_model_gateway-accepts_iff :
      (providers : Dict (Provider W)) (routes : Dict Route) (pdp : Decider W) (audit_log : Store W)
      (catalog : ModelCatalog.Registry) (now : W → ℕ × W) (quote : String → String)
      → ((g : ModelGateway W) × (new_model_gateway providers routes pdp audit_log catalog now quote
            ≡ ok g))
        ↔ All (IsRouted providers) routes
  unfolding new_model_gateway
  new_model_gateway-accepts_iff providers routes pdp audit_log catalog now quote =
      let each = check_routes_iff providers routes in
      (
        λ (g, built). elim (Option-cases (check_routes providers routes)) [
          | inl passed ↦ each.0 passed
          | inr (e, refused) ↦ let k = rw (refused, new_model_gateway) at built in cc
        ],
        λ routed. (
          record {
            providers = providers;
            routes = routes;
            pdp = pdp;
            audit_log = audit_log;
            catalog = catalog;
            now = now;
            quote = quote;
          },
          rw (each.1 routed, new_model_gateway),
        ),
      )

  pub lookup-IsRouted :
      (providers : Dict (Provider W)) (routes : Dict Route) (purpose : String) (r : Route)
      → All (IsRouted providers) routes
      → lookup purpose routes ≡ some r
      → IsRouted providers (purpose, r)
  lookup-IsRouted providers [] purpose r h e = cc
  lookup-IsRouted providers ((p, r') ∷ routes) purpose r (h, hs) e =
      ground (arith, lookup-IsRouted providers routes purpose r)
