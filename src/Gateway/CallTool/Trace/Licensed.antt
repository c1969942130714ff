-- ===== src/Gateway/CallTool/Trace/Licensed.antt =====
-- Once a call has been recorded: what the gateway then does keeps the log governed.
use mathlib.Core.Option
use helmdeep.Base.{
  ℕ, String, true, Option, none, some, List, [], ◌∷◌, ◌≡◌, refl, inl, inr, Result, ok, err,
  Bool-cases, arith,
}
use helmdeep.Types.{Subject, Action, DecisionResponse, ToolResult, ToolCall}
use helmdeep.Identity.{CredentialBroker}
use helmdeep.Gateway.Calls.{Gateway, State, is_allowed, record_failure, record_result_provenance}
use helmdeep.Gateway.CallTool.{Call, answered, forward, exchanged, act_through, recorded}
use helmdeep.Gateway.CallTool.Trace.{
  Event, resolved, decided, appended, minted, called, trace_upstream, trace_broker, traced, log_of,
  IsRecorded, IsLicensed, IsGoverned,
}

abbrev pub trace_call : {W : Type 0} → Call W → Call (W × List Event)
trace_call c = record {
  context = c.context;
  name = c.name;
  subject = c.subject;
  upstream = trace_upstream c.upstream;
  action = c.action;
  decision = c.decision;
  at = c.at;
}

module _ {W : Type 0} (g : Gateway W) where
  record_failure-IsGoverned :
      (subject : Subject) (action : Action) (d : DecisionResponse) (st : State (W × List Event))
      → IsGoverned (log_of st)
      → IsGoverned (log_of (record_failure (traced g) subject action d st))
  unfolding record_failure traced
  record_failure-IsGoverned subject action d st h = h

  log-record_result_provenance :
      (id up : String) (res : ToolResult) (now : ℕ) (st : State (W × List Event))
      → (record_result_provenance (traced g) id up res now st).world ≡ st.world
  unfolding record_result_provenance traced
  log-record_result_provenance id up res now st = ground arith

  answered-IsGoverned :
      (c : Call W) (r : Result String ToolResult) (st : State (W × List Event))
      → IsGoverned (log_of st)
      → IsGoverned (log_of (answered (traced g) (trace_call c) r st).1)
  unfolding answered
  answered-IsGoverned c (err e) st h = record_failure-IsGoverned c.subject c.action c.decision st h
  answered-IsGoverned c (ok res) st h = rw log-record_result_provenance h

  forward-IsGoverned :
      (c : Call W) (credential : String) (st : State (W × List Event))
      → IsLicensed c.upstream.name
          (record { tool = c.name; arguments = c.action.arguments; credential = credential })
          (log_of st)
      → IsGoverned (log_of st)
      → IsGoverned (log_of (forward (traced g) (trace_call c) credential st).1)
  unfolding forward trace_upstream
  forward-IsGoverned c credential st licence h = answered-IsGoverned c _ _ (licence, h)

-- A call with no credential is licensed by its record alone.
licence_of_record :
    (up credential : String) (call : ToolCall) (log : List Event)
    → call.credential ≡ ""
    → IsRecorded credential call.tool call.arguments log
    → IsLicensed up call log
licence_of_record up credential call (appended _ _ ∷ log) e h = (e, credential, h)
licence_of_record up credential call (resolved _ _ ∷ log) e h = absurd h
licence_of_record up credential call (decided _ _ ∷ log) e h = absurd h
licence_of_record up credential call (minted _ _ _ _ ∷ log) e h = absurd h
licence_of_record up credential call (called _ _ ∷ log) e h = absurd h
licence_of_record up credential call [] e h = absurd h

abbrev call_of : {W : Type 0} → Call W → String → ToolCall
call_of c credential = record {
  tool = c.name;
  arguments = c.action.arguments;
  credential = credential;
}

module _ {W : Type 0} (g : Gateway W) where
  exchanged-IsGoverned :
      (c : Call W) (r : Result String String) (w : W) (log : List Event)
      (st : State (W × List Event))
      → IsRecorded c.context.credential c.name c.action.arguments log
      → IsGoverned log
      → IsGoverned (
          log_of
            (exchanged (traced g) (trace_call c) r (record st {
              world = (w, minted c.context.credential c.upstream.name c.name r ∷ log);
            })).1)
  unfolding exchanged
  exchanged-IsGoverned c (err e) w log st rec h =
      record_failure-IsGoverned g c.subject c.action c.decision
        (record st {
          world = (w, minted c.context.credential c.upstream.name c.name (err e) ∷ log);
        })
        h
  exchanged-IsGoverned c (ok token) w log st rec h =
      forward-IsGoverned g c token
        (record st {
          world = (w, minted c.context.credential c.upstream.name c.name (ok token) ∷ log);
        })
        (refl, refl, refl, rec) h

  act-IsGoverned :
      (broker : Option (CredentialBroker W)) (c : Call W) (st : State (W × List Event))
      → IsRecorded c.context.credential c.name c.action.arguments (log_of st)
      → IsGoverned (log_of st)
      → IsGoverned
          (log_of (act_through (traced g) (Option.map trace_broker broker) (trace_call c) st).1)
  unfolding act_through trace_upstream
  act-IsGoverned none c st rec h =
      forward-IsGoverned g c "" st
        (licence_of_record c.upstream.name c.context.credential (call_of c "") (log_of st) refl rec)
        h
  act-IsGoverned (some broker) c st rec h =
      let (r, w) = broker c.context.credential c.upstream.name c.name st.world.0 in
      exchanged-IsGoverned c r w (log_of st) st rec h

  pub recorded-IsGoverned :
      (c : Call W) (e : Option String) (st : State (W × List Event))
      → (is_allowed c.decision.outcome ≡ true
          → e ≡ none
          → IsRecorded c.context.credential c.name c.action.arguments (log_of st))
      → IsGoverned (log_of st)
      → IsGoverned (log_of (recorded (traced g) (trace_call c) e st).1)
  unfolding recorded traced
  recorded-IsGoverned c (some e) st rec h = h
  recorded-IsGoverned c none st rec h = elim (Bool-cases (is_allowed c.decision.outcome)) [
    | inl allowed ↦ rw allowed (act-IsGoverned g.broker c st (rec allowed refl) h)
    | inr denied ↦ rw denied h
  ]
