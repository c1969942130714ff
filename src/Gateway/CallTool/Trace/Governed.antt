-- ===== src/Gateway/CallTool/Trace/Governed.antt =====
-- No call of an upstream without a recorded decision that allows it.
use mathlib.Core.Option
use helmdeep.Base.{
  ℕ, String, true, Option, none, some, List, ◌∷◌, ◌≡◌, refl, sym, ap, ◌∙◌, Result, ok, err, Dict,
  not, ◌&&◌, ◌==◌, if_elim, if◌then◌else◌,
}
use helmdeep.Json.{Json}
use helmdeep.Types.{
  Subject, DecisionRequest, DecisionResponse, ActionRecord, Value, record_outcome_allowed,
  record_outcome_denied,
}
use helmdeep.Mcp.{CallContext, Upstream}
use helmdeep.ToolRegistry
use helmdeep.Gateway.Usage.{usage}
use helmdeep.Gateway.Calls.{
  Gateway, State, is_allowed, new_record, append, deny_without_subject, deny_undeclared_agent,
  deny_undeclared_tool, deny_upstream_mismatch, agent_deny_reason, decide, deadline,
}
use helmdeep.Gateway.CallTool.{
  Call, governed_action, decision_of, enforce, consult, route, screened, identified, call_tool,
}
use helmdeep.Gateway.CallTool.Trace.{
  Event, resolved, decided, appended, trace_upstream, traced, log_of, IsResolved, IsRecorded,
  IsGoverned,
}
use helmdeep.Gateway.CallTool.Trace.Licensed.{trace_call, recorded-IsGoverned}

module _ {W : Type 0} (g : Gateway W) where
  IsRecorded-new :
      (credential name : String) (args : Dict Value) (rec : ActionRecord) (e : Option String)
      (req : DecisionRequest) (r : Result String DecisionResponse) (log : List Event)
      → is_allowed (decision_of r).outcome ≡ true
      → rec.outcome ≡ record_outcome_allowed
      → rec.decision ≡ decision_of r
      → rec.subject ≡ req.subject
      → rec.action ≡ req.action
      → req.action.tool ≡ name
      → req.action.arguments ≡ args
      → IsResolved credential req.subject log
      → e ≡ none
      → IsRecorded credential name args (appended rec e ∷ decided req r ∷ log)
  IsRecorded-new credential name args rec none req (ok d) log al o dd s a t x who e =
      (al, o, dd, s, a, t, x, who)
  IsRecorded-new credential name args rec none req (err x) log al o dd s a t y who e = cc
  IsRecorded-new credential name args rec (some x) req r log al o dd s a t y who e = cc

  enforce-IsGoverned :
      (c : Call W) (w : W) (req : DecisionRequest) (r : Result String DecisionResponse)
      (log : List Event) (st : State (W × List Event))
      → c.decision ≡ decision_of r
      → req.subject ≡ c.subject
      → req.action ≡ c.action
      → c.action.tool ≡ c.name
      → IsResolved c.context.credential req.subject log
      → IsGoverned log
      → IsGoverned (
          log_of
            (enforce (traced g) (trace_call c) (record st { world = (w, decided req r ∷ log) })).1)
  unfolding enforce append traced
  enforce-IsGoverned c w req r log st d s a n who h =
      let rec =
        new_record c.at c.subject c.action c.decision (
          if is_allowed c.decision.outcome
          then record_outcome_allowed
          else record_outcome_denied) in
      let (e, w') = g.audit_log.append rec w in
      recorded-IsGoverned g c e (record st { world = (w', appended rec e ∷ decided req r ∷ log) })
        (λ allowed written.
          IsRecorded-new c.context.credential c.name c.action.arguments rec e req r log
            (rw (← d) allowed) (rw allowed) d (sym s) (sym a) (ap (λ x. x.tool) a ∙ n)
            (ap (λ x. x.arguments) a) who written)
        h

  consult-IsGoverned :
      (ctx : CallContext) (name : String) (args : Dict Json) (subject : Subject) (up : Upstream W)
      (entry : ToolRegistry.Entry) (now : ℕ) (st : State (W × List Event))
      → IsResolved ctx.credential subject (log_of st)
      → IsGoverned (log_of st)
      → IsGoverned
          (log_of (consult (traced g) ctx name args subject (trace_upstream up) entry now st).1)
  unfolding consult decide traced governed_action
  consult-IsGoverned ctx name args subject up entry now st who h =
      let action = governed_action (traced g) st subject name args entry now in
      let (used, tracker) = usage st.usage subject.id now in
      let req : DecisionRequest = record {
        subject = subject;
        action = action;
        context = record { session_id = ""; request_id = ctx.request_id; time = now; usage = used };
      } in
      let (r, w) = g.pdp (deadline g.decision_timeout) req st.world.0 in
      let c : Call W = record {
        context = ctx;
        name = name;
        subject = subject;
        upstream = up;
        action = action;
        decision = decision_of r;
        at = now;
      } in
      enforce-IsGoverned c w req r (log_of st) (record st { usage = tracker }) refl refl refl refl
        who h

  route-IsGoverned :
      (ctx : CallContext) (name : String) (args : Dict Json) (subject : Subject) (now : ℕ)
      (up : Option (Upstream W)) (entry : Option ToolRegistry.Entry) (st : State (W × List Event))
      → IsResolved ctx.credential subject (log_of st)
      → IsGoverned (log_of st)
      → IsGoverned (
          log_of
            (route (traced g) ctx name args subject now (Option.map trace_upstream up) entry st).1)
  unfolding route deny_undeclared_tool deny_upstream_mismatch traced
  route-IsGoverned ctx name args subject now none entry st who h = h
  route-IsGoverned ctx name args subject now (some up) none st who h = h
  route-IsGoverned ctx name args subject now (some up) (some entry) st who h =
      if_elim (λ x. IsGoverned (log_of x.1))
        (not (entry.upstream == "") && not (entry.upstream == up.name))
        (deny_upstream_mismatch (traced g) subject name entry.upstream up.name now st)
        (consult (traced g) ctx name args subject (trace_upstream up) entry now st) h
        (consult-IsGoverned ctx name args subject up entry now st who h)

  screened-IsGoverned :
      (ctx : CallContext) (name : String) (args : Dict Json) (subject : Subject) (now : ℕ)
      (reason : Option String) (st : State (W × List Event))
      → IsResolved ctx.credential subject (log_of st)
      → IsGoverned (log_of st)
      → IsGoverned (log_of (screened (traced g) ctx name args subject now reason st).1)
  unfolding screened deny_undeclared_agent traced
  screened-IsGoverned ctx name args subject now (some reason) st who h = h
  screened-IsGoverned ctx name args subject now none st who h =
      route-IsGoverned ctx name args subject now (g.registry.resolve name)
        (ToolRegistry.find g.tool_reg name) st who h

  identified-IsGoverned :
      (ctx : CallContext) (name : String) (args : Dict Json) (now : ℕ) (r : Result String Subject)
      (w : W) (log : List Event) (st : State (W × List Event))
      → IsGoverned log
      → IsGoverned (
          log_of
            (identified
              (traced g)
              ctx
              name
              args
              now
              r
              (record st { world = (w, resolved ctx.credential r ∷ log) })).1)
  unfolding identified deny_without_subject traced
  identified-IsGoverned ctx name args now (err e) w log st h = h
  identified-IsGoverned ctx name args now (ok subject) w log st h =
      screened-IsGoverned ctx name args subject now (agent_deny_reason (traced g) subject)
        (record st { world = (w, resolved ctx.credential (ok subject) ∷ log) }) (refl, refl) h

  pub call_tool-IsGoverned :
      (ctx : CallContext) (name : String) (args : Dict Json) (st : State (W × List Event))
      → IsGoverned (log_of st)
      → IsGoverned (log_of (call_tool (traced g) ctx name args st).1)
  unfolding call_tool traced
  call_tool-IsGoverned ctx name args st h =
      let (now, w) = g.now st.world.0 in
      let (r, w') = g.identity ctx.credential w in
      identified-IsGoverned ctx name args now r w' (log_of st) st h
