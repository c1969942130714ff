-- ===== src/ModelGateway/Complete/Trace/Governed.antt =====
-- No call of a provider without an approved entry and a recorded decision that allows it.
use helmdeep.Base.{
  ℕ, String, true, ◌==◌, Option, none, some, List, [], ◌∷◌, Result, ok, err, lookup, ◌≡◌, refl, inl,
  inr, Bool-cases,
}
use mathlib.Core.Option
use helmdeep.Types.{Subject, Action, DecisionResponse, record_outcome_allowed}
use helmdeep.Gateway.Calls.{is_allowed}
use helmdeep.ModelGateway.{
  Request, Response, Provider, Route, ModelGateway, CallError, denied, failed, panicked, approved,
}
use helmdeep.ModelGateway.Complete.{
  model_call, model_request, model_record, denyf, call, call_primary, primary_answered, fall_back,
  fallen_back, settled, committed, authorized, routed, complete,
}
use helmdeep.ModelGateway.Complete.Trace.{
  Event, decided, appended, completed, trace_provider, traced, lookup-trace_all, IsRecorded,
  IsLicensed, IsGoverned,
}

module _ {W : Type 0} (g : ModelGateway W) (subject : Subject) (req : Request) where
  denyf-IsGoverned :
      (now : ℕ) (policy_id reason : String) (s : W × List Event)
      → IsGoverned g subject req s.1
      → IsGoverned g subject req (denyf (traced g) subject req now policy_id reason s).1.1
  unfolding denyf
  denyf-IsGoverned now policy_id reason s h = h

  fallen_back-IsGoverned :
      (route : Route) (e : String) (answer : Result String Response) (s : W × List Event)
      → IsGoverned g subject req s.1
      → IsGoverned g subject req (fallen_back (traced g) route e (answer, s)).1.1
  fallen_back-IsGoverned route e (ok resp) s h = h
  fallen_back-IsGoverned route e (err e') s h = h

  fall_back-IsGoverned :
      (route : Route) (e : String) (o : Option (Provider W)) (s : W × List Event)
      → approved g.catalog route.fallback_provider route.fallback_model ≡ true
      → IsLicensed subject req s.1
      → IsGoverned g subject req s.1
      → IsGoverned g subject req
          (fall_back
            (traced g)
            route
            req
            e
            (Option.map (trace_provider route.fallback_provider) o)
            s).1.1
  fall_back-IsGoverned route e none s a l h = h
  fall_back-IsGoverned route e (some p) (w, log) a l h =
      fallen_back-IsGoverned route e (p.complete route.fallback_model req w).0
        (
          (p.complete route.fallback_model req w).1,
          completed route.fallback_provider route.fallback_model req
                (p.complete route.fallback_model req w).0
              ∷ log,
        )
        (refl, a, l, h)

  primary_answered-IsGoverned :
      (route : Route) (answer : Result String Response) (w : W) (log : List Event)
      → approved g.catalog route.provider route.model ≡ true
      → IsRecorded subject req log
      → IsLicensed subject req log
      → IsGoverned g subject req log
      → IsGoverned g subject req
          (primary_answered
            (traced g)
            route
            req
            (answer, (w, completed route.provider route.model req answer ∷ log))).1.1
  primary_answered-IsGoverned route (ok resp) w log a r l h = (refl, a, l, h)
  primary_answered-IsGoverned route (err e) w log a r l h =
      elim (Bool-cases (route.fallback_provider == "")) [
        | inl unset ↦ rw unset (refl, a, l, h)
        | inr set ↦
            elim (Bool-cases (approved g.catalog route.fallback_provider route.fallback_model)) [
              | inl fit ↦
                  rw (set, fit, lookup-trace_all route.fallback_provider g.providers)
                    (fall_back-IsGoverned route e (lookup route.fallback_provider g.providers)
                      (w, completed route.provider route.model req (err e) ∷ log) fit (refl, r)
                      (refl, a, l, h))
              | inr unfit ↦ rw (set, unfit) (refl, a, l, h)
            ]
      ]

  call_primary-IsGoverned :
      (route : Route) (o : Option (Provider W)) (w : W) (log : List Event)
      → approved g.catalog route.provider route.model ≡ true
      → IsRecorded subject req log
      → IsLicensed subject req log
      → IsGoverned g subject req log
      → IsGoverned g subject req
          (call_primary
            (traced g)
            route
            req
            (Option.map (trace_provider route.provider) o)
            (w, log)).1.1
  call_primary-IsGoverned route none w log a r l h = h
  call_primary-IsGoverned route (some p) w log a r l h =
      primary_answered-IsGoverned route (p.complete route.model req w).0
        (p.complete route.model req w).1 log a r l h

  settled-IsGoverned :
      (action : Action) (d : DecisionResponse) (r : Result CallError Response) (s : W × List Event)
      → IsGoverned g subject req s.1
      → IsGoverned g subject req (settled (traced g) subject action d (r, s)).1.1
  settled-IsGoverned action d (err panicked) s h = h
  settled-IsGoverned action d (err (denied p r)) s h = h
  settled-IsGoverned action d (err (failed e)) s h = h
  settled-IsGoverned action d (ok resp) s h = h

  committed-IsGoverned :
      (route : Route) (now : ℕ) (d : DecisionResponse) (e : Option String) (w : W)
      (log : List Event)
      → approved g.catalog route.provider route.model ≡ true
      → is_allowed d.outcome ≡ true
      → IsGoverned g subject req log
      → IsGoverned g subject req
          (committed (traced g) subject req route d (
            e,
            (
              w,
              appended (model_record now subject (model_call req) d record_outcome_allowed) e
                  ∷ decided (model_request g subject req now) (ok d)
                  ∷ log,
            ),
          )).1.1
  unfolding call
  committed-IsGoverned route now d (some e) w log a al h = h
  committed-IsGoverned route now d none w log a al h =
      let log' =
        appended (model_record now subject (model_call req) d record_outcome_allowed) none
        ∷ decided (model_request g subject req now) (ok d)
        ∷ log in
      let r : IsRecorded subject req log' =
        (al, refl, refl, refl, refl, refl, (refl, refl, refl, refl, refl, refl, refl)) in
      rw (lookup-trace_all route.provider g.providers) (
        settled-IsGoverned (model_call req) d
          (call_primary (traced g) route req
            (Option.map (trace_provider route.provider) (lookup route.provider g.providers))
            (w, log')).0
          (call_primary (traced g) route req
            (Option.map (trace_provider route.provider) (lookup route.provider g.providers))
            (w, log')).1
          (call_primary-IsGoverned route (lookup route.provider g.providers) w log' a r r h))

  authorized-IsGoverned :
      (route : Route) (now : ℕ) (r : Result String DecisionResponse) (w : W) (log : List Event)
      → approved g.catalog route.provider route.model ≡ true
      → IsGoverned g subject req log
      → IsGoverned g subject req
          (authorized
            (traced g)
            subject
            req
            now
            route
            (r, (w, decided (model_request g subject req now) r ∷ log))).1.1
  authorized-IsGoverned route now (err e) w log a h =
      denyf-IsGoverned now "modelgw.pdp_error" e
        (w, decided (model_request g subject req now) (err e) ∷ log) h
  authorized-IsGoverned route now (ok d) w log a h =
      let rec = model_record now subject (model_call req) d record_outcome_allowed in
      elim (Bool-cases (is_allowed d.outcome)) [
        | inl al ↦ rw al (
            committed-IsGoverned route now d (g.audit_log.append rec w).0
              (g.audit_log.append rec w).1 log a al h)
        | inr refused ↦ rw refused h
      ]

  routed-IsGoverned :
      (now : ℕ) (o : Option Route) (w : W) (log : List Event)
      → IsGoverned g subject req log
      → IsGoverned g subject req (routed (traced g) subject req now o (w, log)).1.1
  routed-IsGoverned now none w log h = denyf-IsGoverned now _ _ (w, log) h
  routed-IsGoverned now (some route) w log h =
      elim (Bool-cases (approved g.catalog route.provider route.model)) [
        | inl fit ↦ rw fit (
            authorized-IsGoverned route now (g.pdp none (model_request g subject req now) w).0
              (g.pdp none (model_request g subject req now) w).1 log fit h)
        | inr unfit ↦ rw unfit (denyf-IsGoverned now _ _ (w, log) h)
      ]

  -- Complete calls a provider only with the request it was given, for a pair of a provider and a model
  -- that the catalogue approves, and only right after the decision that allowed this subject a model
  -- call of the request's purpose and the successful append of the record that says so, or as the
  -- fallback right after such a call failed; whatever the providers, the decider and the store answer.
  pub complete-IsGoverned :
      (w : W) → IsGoverned g subject req (complete (traced g) subject req (w, [])).1.1
  unfolding complete
  complete-IsGoverned w =
      routed-IsGoverned (g.now w).0 (lookup req.purpose g.routes) (g.now w).1 [] tt
