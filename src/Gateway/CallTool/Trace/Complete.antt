-- ===== src/Gateway/CallTool/Trace/Complete.antt =====
-- No answer to a call of a tool without an append of its record.
use mathlib.Core.Option
use helmdeep.Base.{
  ℕ, String, Option, none, some, List, [], ◌∷◌, ◌++◌, ◌≡◌, refl, ap, Result, ok, err, Dict,
  Bool-cases, inl, inr, not, ◌&&◌, ◌==◌, if_elim, if◌then◌else◌,
}
use helmdeep.Json.{Json}
use helmdeep.Types.{
  Subject, ActionRecord, ToolResult, DecisionResponse, record_outcome_denied,
  record_outcome_allowed,
}
use helmdeep.Mcp.{CallContext, Upstream}
use helmdeep.Identity.{CredentialBroker}
use helmdeep.ToolRegistry
use helmdeep.Gateway.Calls.{
  Gateway, State, Reply, result, protocol_error, is_allowed, append, deny_without_subject,
  deny_early, unknown_subject, new_record, bare_action, deny_undeclared_agent, deny_undeclared_tool,
  deny_upstream_mismatch, agent_deny_reason, decide,
}
use helmdeep.Gateway.CallTool.{
  Call, answered, forward, exchanged, act_through, recorded, enforce, consult, route, screened,
  identified, call_tool, governed_action,
}
use helmdeep.Gateway.CallTool.Keeps.{Keeps, BrokerKeeps, UpstreamKeeps, recorded-Keeps}
use helmdeep.Gateway.CallTool.Trace.{
  Event, resolved, decided, appended, minted, called, trace_upstream, trace_broker, traced, log_of,
}

-- The records that the gateway tried to append, the newest first.
abbrev pub appends : List Event → List ActionRecord
appends [] = []
appends (appended rec e ∷ log) = rec ∷ appends log
appends (decided _ _ ∷ log) = appends log
appends (minted _ _ _ _ ∷ log) = appends log
appends (resolved _ _ ∷ log) = appends log
appends (called _ _ ∷ log) = appends log

-- After `log`, a record of a call of this tool was appended, or an append of it failed.
abbrev pub IsAudited : String → List Event → List Event → Type 0
IsAudited name log log' =
    (more : List ActionRecord) × (rec : ActionRecord) × (appends log' ≡ more ++ (rec ∷ appends log))
    × (rec.action.tool ≡ name)

-- A result is audited; a protocol error leaves no record.
abbrev pub IsAccounted : String → List Event → Reply → List Event → Type 0
IsAccounted name log (result r) log' = IsAudited name log log'
IsAccounted name log (protocol_error e) log' = appends log' ≡ appends log

abbrev IsResult : Reply → Type 0
IsResult (result r) = Unit
IsResult (protocol_error e) = ⊥

IsAccounted-result :
    (name : String) (log : List Event) (r : Reply) (log' : List Event)
    → IsResult r
    → IsAudited name log log'
    → IsAccounted name log r log'
IsAccounted-result name log (result r) log' h audited = audited
IsAccounted-result name log (protocol_error e) log' h audited = absurd h

module _ {W : Type 0} (g : Gateway W) where
  answered-IsResult :
      (c : Call W) (r : Result String ToolResult) (st : State W) → IsResult (answered g c r st).0
  unfolding answered
  answered-IsResult c (err e) st = tt
  answered-IsResult c (ok res) st = tt

  forward-IsResult :
      (c : Call W) (credential : String) (st : State W) → IsResult (forward g c credential st).0
  unfolding forward
  forward-IsResult c credential st = answered-IsResult c _ _

  exchanged-IsResult :
      (c : Call W) (r : Result String String) (st : State W) → IsResult (exchanged g c r st).0
  unfolding exchanged
  exchanged-IsResult c (err e) st = tt
  exchanged-IsResult c (ok token) st = forward-IsResult c token st

  act-IsResult :
      (broker : Option (CredentialBroker W)) (c : Call W) (st : State W)
      → IsResult (act_through g broker c st).0
  unfolding act_through
  act-IsResult none c st = forward-IsResult c "" st
  act-IsResult (some broker) c st =
      exchanged-IsResult c (broker c.context.credential c.upstream.name c.name st.world).0 _

  recorded-IsResult :
      (c : Call W) (e : Option String) (st : State W) → IsResult (recorded g c e st).0
  unfolding recorded
  recorded-IsResult c (some e) st = tt
  recorded-IsResult c none st = elim (Bool-cases (is_allowed c.decision.outcome)) [
    | inl allowed ↦ rw (allowed, recorded) (act-IsResult g.broker c st)
    | inr denied ↦ rw (denied, recorded) tt
  ]

module _ {W : Type 0} (g : Gateway W) (name : String) (log : List Event) where
  abbrev Audited : W × List Event → Type 0
  Audited w = IsAudited name log w.1

  traced-broker :
      (broker : Option (CredentialBroker W)) → BrokerKeeps Audited (Option.map trace_broker broker)
  traced-broker none = tt
  traced-broker (some broker) = λ credential up tool w h. h

  traced-upstream :
      (found : Option (Upstream W)) (u : Upstream (W × List Event))
      → Option.map trace_upstream found ≡ some u
      → UpstreamKeeps Audited u
  unfolding trace_upstream
  traced-upstream none u e = cc
  traced-upstream (some v) u e = let same : trace_upstream v ≡ u = cc in rw (← same) (λ call w h. h)

  traced-Keeps : Keeps Audited (traced g)
  unfolding traced
  traced-Keeps = record {
    shared = record { clock = λ w h. h; identity = λ credential w h. h; pdp = λ d req w h. h };
    audit = λ rec w h.
        let (more, first, held, tool) = h in (rec ∷ more, first, ap (λ x. rec ∷ x) held, tool);
    broker = traced-broker g.broker;
    upstreams = λ asked u e. traced-upstream (g.registry.resolve asked) u e;
  }

  recorded-IsAccounted :
      (c : Call (W × List Event)) (e : Option String) (st : State (W × List Event))
      → UpstreamKeeps Audited c.upstream
      → IsAudited name log (log_of st)
      → IsAccounted name log (recorded (traced g) c e st).0 (log_of (recorded (traced g) c e st).1)
  recorded-IsAccounted c e st up h =
      IsAccounted-result name log _ _ (recorded-IsResult (traced g) c e st)
        (recorded-Keeps Audited (traced g) traced-Keeps c e st up h)

  append-IsAudited :
      (rec : ActionRecord) (st : State (W × List Event))
      → appends (log_of st) ≡ appends log
      → rec.action.tool ≡ name
      → IsAudited name log (log_of (append (traced g) rec st).1)
  unfolding append traced
  append-IsAudited rec st h tool = ([], rec, ap (λ x. rec ∷ x) h, tool)

  deny_early-IsAccounted :
      (subject : Subject) (d : DecisionResponse) (told : String) (now : ℕ)
      (st : State (W × List Event))
      → appends (log_of st) ≡ appends log
      → IsAccounted name log
          (deny_early (traced g) subject name d told now st).0
          (log_of (deny_early (traced g) subject name d told now st).1)
  unfolding deny_early
  deny_early-IsAccounted subject d told now st h =
      append-IsAudited (new_record now subject (bare_action name) d record_outcome_denied) st h refl

  enforce-IsAccounted :
      (c : Call (W × List Event)) (st : State (W × List Event))
      → c.action.tool ≡ name
      → UpstreamKeeps Audited c.upstream
      → appends (log_of st) ≡ appends log
      → IsAccounted name log (enforce (traced g) c st).0 (log_of (enforce (traced g) c st).1)
  unfolding enforce
  enforce-IsAccounted c st tool up h = recorded-IsAccounted c _ _ up (
      append-IsAudited
        (new_record c.at c.subject c.action c.decision
          (if is_allowed c.decision.outcome then record_outcome_allowed else record_outcome_denied))
        st h tool)

  route-IsAccounted :
      (ctx : CallContext) (args : Dict Json) (subject : Subject) (now : ℕ)
      (up : Option (Upstream W)) (entry : Option ToolRegistry.Entry) (st : State (W × List Event))
      → appends (log_of st) ≡ appends log
      → IsAccounted name log
          (route (traced g) ctx name args subject now (Option.map trace_upstream up) entry st).0
          (log_of
            (route (traced g) ctx name args subject now (Option.map trace_upstream up) entry st).1)
  unfolding route deny_undeclared_tool deny_upstream_mismatch consult decide governed_action traced
  route-IsAccounted ctx args subject now none entry st h = h
  route-IsAccounted ctx args subject now (some up) none st h =
      deny_early-IsAccounted subject _ "" now st h
  route-IsAccounted ctx args subject now (some up) (some entry) st h =
      if_elim (λ x. IsAccounted name log x.0 (log_of x.1))
        (not (entry.upstream == "") && not (entry.upstream == up.name))
        (deny_upstream_mismatch (traced g) subject name entry.upstream up.name now st)
        (consult (traced g) ctx name args subject (trace_upstream up) entry now st)
        (deny_early-IsAccounted subject _ "" now st h)
        (enforce-IsAccounted _ _ refl (traced-upstream (some up) (trace_upstream up) refl) h)

  screened-IsAccounted :
      (ctx : CallContext) (args : Dict Json) (subject : Subject) (now : ℕ) (reason : Option String)
      (st : State (W × List Event))
      → appends (log_of st) ≡ appends log
      → IsAccounted name log
          (screened (traced g) ctx name args subject now reason st).0
          (log_of (screened (traced g) ctx name args subject now reason st).1)
  unfolding screened deny_undeclared_agent traced
  screened-IsAccounted ctx args subject now (some reason) st h =
      deny_early-IsAccounted subject _ "" now st h
  screened-IsAccounted ctx args subject now none st h =
      route-IsAccounted ctx args subject now (g.registry.resolve name)
        (ToolRegistry.find g.tool_reg name) st h

  identified-IsAccounted :
      (ctx : CallContext) (args : Dict Json) (now : ℕ) (r : Result String Subject)
      (st : State (W × List Event))
      → appends (log_of st) ≡ appends log
      → IsAccounted name log
          (identified (traced g) ctx name args now r st).0
          (log_of (identified (traced g) ctx name args now r st).1)
  unfolding identified deny_without_subject
  identified-IsAccounted ctx args now (err e) st h =
      deny_early-IsAccounted unknown_subject _ "" now st h
  identified-IsAccounted ctx args now (ok subject) st h =
      screened-IsAccounted ctx args subject now (agent_deny_reason (traced g) subject) st h

-- Every call of a tool that is answered with a result, of success, of a failure or of a denial,
-- has appended a record of a call of that tool, or has tried to; a protocol error appends nothing.
pub call_tool-IsAccounted :
    {W : Type 0} (g : Gateway W) (ctx : CallContext) (name : String) (args : Dict Json)
    (st : State (W × List Event))
    → IsAccounted name
        (log_of st)
        (call_tool (traced g) ctx name args st).0
        (log_of (call_tool (traced g) ctx name args st).1)
unfolding call_tool traced
call_tool-IsAccounted g ctx name args st =
    let (now, w) = g.now st.world.0 in
    let (r, w') = g.identity ctx.credential w in
    identified-IsAccounted g name (log_of st) ctx args now r
      (record st { world = (w', resolved ctx.credential r ∷ log_of st) }) refl
