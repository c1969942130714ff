-- ===== src/ModelGateway/Routes/Total.antt =====
-- The calls of a gateway that `New` built never meet a provider that is not there.
use helmdeep.Base.{
  ℕ, String, true, ◌==◌, eq_iff, Option, none, some, Result, ok, err, Dict, lookup, ◌≡◌, ◌≢◌, refl,
  sym, inl, inr, Bool-cases, Option-cases, arith, is_some, All,
}
use helmdeep.Policy.{Decider}
use helmdeep.Audit.{Store}
use helmdeep.ModelCatalog
use helmdeep.ModelGateway.{
  Request, Response, Provider, Route, ModelGateway, CallError, panicked, denied, failed,
  check_routes, new_model_gateway, approved,
}
use helmdeep.ModelGateway.Complete.{
  model_call, model_request, model_record, denyf, call, call_primary, primary_answered, fall_back,
  fallen_back, settled, committed, authorized, routed, complete,
}
use helmdeep.Types.{Subject, Action, DecisionResponse, record_outcome_allowed}
use helmdeep.Gateway.Calls.{is_allowed}
use helmdeep.ModelGateway.Routes.{IsRouted, lookup-IsRouted, new_model_gateway-accepts_iff}

module _ {W : Type 0} (g : ModelGateway W) where
  abbrev Proceeds : Result CallError Response × W → Type 0
  Proceeds r = r.0 ≢ err panicked

  fallen_back-Proceeds :
      (route : Route) (e : String) (answer : Result String Response) (w : W)
      → Proceeds (fallen_back g route e (answer, w))
  fallen_back-Proceeds route e (ok resp) w h = cc
  fallen_back-Proceeds route e (err e') w h = cc

  fall_back-Proceeds :
      (route : Route) (req : Request) (e : String) (o : Option (Provider W)) (w : W)
      → is_some o ≡ true
      → Proceeds (fall_back g route req e o w)
  fall_back-Proceeds route req e none w h = cc
  fall_back-Proceeds route req e (some p) w h =
      let (answer, w') = p.complete route.fallback_model req w in
      fallen_back-Proceeds route e answer w'

  primary_answered-Proceeds :
      (purpose : String) (route : Route) (req : Request) (answer : Result String Response) (w : W)
      → IsRouted g.providers (purpose, route)
      → Proceeds (primary_answered g route req (answer, w))
  primary_answered-Proceeds purpose route req (ok resp) w h = λ e. cc
  primary_answered-Proceeds purpose route req (err e) w (_, _, _, alternate) =
      elim (Bool-cases (route.fallback_provider == "")) [
        | inl unset ↦ rw unset (λ k. cc)
        | inr set ↦
            elim (Bool-cases (approved g.catalog route.fallback_provider route.fallback_model)) [
              | inl fit ↦ elim alternate [
                | inl unset ↦ absurd (ground (arith, eq_iff route.fallback_provider ""))
                | inr (configured, _) ↦
                    rw (set, fit)
                      (fall_back-Proceeds route req e (lookup route.fallback_provider g.providers) w
                        configured)
              ]
              | inr unfit ↦ rw (set, unfit) (λ k. cc)
            ]
      ]

  call_primary-Proceeds :
      (purpose : String) (route : Route) (req : Request) (o : Option (Provider W)) (w : W)
      → is_some o ≡ true
      → IsRouted g.providers (purpose, route)
      → Proceeds (call_primary g route req o w)
  call_primary-Proceeds purpose route req none w s h = cc
  call_primary-Proceeds purpose route req (some p) w s h =
      let (answer, w') = p.complete route.model req w in
      primary_answered-Proceeds purpose route req answer w' h

  settled-Proceeds :
      (subject : Subject) (action : Action) (d : DecisionResponse) (r : Result CallError Response)
      (w : W)
      → Proceeds (r, w)
      → Proceeds (settled g subject action d (r, w))
  settled-Proceeds subject action d (err panicked) w h = h
  settled-Proceeds subject action d (err (denied p r)) w h = h
  settled-Proceeds subject action d (err (failed e)) w h = h
  settled-Proceeds subject action d (ok resp) w h = h

  committed-Proceeds :
      (subject : Subject) (req : Request) (route : Route) (d : DecisionResponse) (e : Option String)
      (w : W)
      → IsRouted g.providers (req.purpose, route)
      → Proceeds (committed g subject req route d (e, w))
  unfolding call
  committed-Proceeds subject req route d (some e) w h = λ k. cc
  committed-Proceeds subject req route d none w h =
      let o = lookup route.provider g.providers in
      settled-Proceeds subject (model_call req) d (call_primary g route req o w).0
        (call_primary g route req o w).1 (call_primary-Proceeds req.purpose route req o w h.1 h)

  denyf-Proceeds :
      (subject : Subject) (req : Request) (now : ℕ) (policy_id reason : String) (w : W)
      → Proceeds (denyf g subject req now policy_id reason w)
  unfolding denyf
  denyf-Proceeds subject req now policy_id reason w = λ k. cc

  authorized-Proceeds :
      (subject : Subject) (req : Request) (now : ℕ) (route : Route)
      (r : Result String DecisionResponse) (w : W)
      → IsRouted g.providers (req.purpose, route)
      → Proceeds (authorized g subject req now route (r, w))
  authorized-Proceeds subject req now route (err e) w h = denyf-Proceeds subject req now _ e w
  authorized-Proceeds subject req now route (ok d) w h =
      let rec = model_record now subject (model_call req) d record_outcome_allowed in
      elim (Bool-cases (is_allowed d.outcome)) [
        | inl al ↦ rw al (
            committed-Proceeds subject req route d (g.audit_log.append rec w).0
              (g.audit_log.append rec w).1 h)
        | inr refused ↦ rw refused (λ k. cc)
      ]

  routed-Proceeds :
      (subject : Subject) (req : Request) (now : ℕ) (o : Option Route) (w : W)
      → ((route : Route) → o ≡ some route → IsRouted g.providers (req.purpose, route))
      → Proceeds (routed g subject req now o w)
  routed-Proceeds subject req now none w h = denyf-Proceeds subject req now _ _ w
  routed-Proceeds subject req now (some route) w h =
      elim (Bool-cases (approved g.catalog route.provider route.model)) [
        | inl fit ↦ rw fit (
            authorized-Proceeds subject req now route
              (g.pdp none (model_request g subject req now) w).0
              (g.pdp none (model_request g subject req now) w).1 (h route refl))
        | inr unfit ↦ rw unfit (denyf-Proceeds subject req now _ _ w)
      ]

  complete-Proceeds :
      (subject : Subject) (req : Request) (w : W)
      → All (IsRouted g.providers) g.routes
      → Proceeds (complete g subject req w)
  unfolding complete
  complete-Proceeds subject req w h =
      let (now, w') = g.now w in
      routed-Proceeds subject req now (lookup req.purpose g.routes) w'
        (λ route. lookup-IsRouted g.providers g.routes req.purpose route h)

built_fields :
    {W : Type 0} (providers : Dict (Provider W)) (routes : Dict Route) (pdp : Decider W)
    (audit_log : Store W) (catalog : ModelCatalog.Registry) (now : W → ℕ × W)
    (quote : String → String) (g : ModelGateway W)
    → new_model_gateway providers routes pdp audit_log catalog now quote ≡ ok g
    → (g.providers ≡ providers) × (g.routes ≡ routes)
unfolding new_model_gateway
built_fields providers routes pdp audit_log catalog now quote g built =
    elim (Option-cases (check_routes providers routes)) [
      | inl passed ↦ let k = rw (passed, new_model_gateway) at built in (cc, cc)
      | inr (e, refused) ↦ let k = rw (refused, new_model_gateway) at built in absurd cc
    ]

-- A gateway that New built never dereferences a provider that is not there: no call of Complete
-- panics, whatever the request, the decider, the store and the providers do.
pub complete-new_model_gateway :
    {W : Type 0} (providers : Dict (Provider W)) (routes : Dict Route) (pdp : Decider W)
    (audit_log : Store W) (catalog : ModelCatalog.Registry) (now : W → ℕ × W)
    (quote : String → String) (g : ModelGateway W) (subject : Subject) (req : Request) (w : W)
    → new_model_gateway providers routes pdp audit_log catalog now quote ≡ ok g
    → (complete g subject req w).0 ≢ err panicked
complete-new_model_gateway providers routes pdp audit_log catalog now quote g subject req w built =
    let checked =
      (new_model_gateway-accepts_iff providers routes pdp audit_log catalog now quote).0
        (g, built) in
    let (same, routes') = built_fields providers routes pdp audit_log catalog now quote g built in
    complete-Proceeds g subject req w (rw (sym same, sym routes') at checked)
