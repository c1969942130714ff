-- ===== src/Gateway/CallTool.antt =====
-- internal/gateway/gateway.go: CallTool, a function for each stretch between two answers of the
-- world outside, and ListTools.
pub mod Trace
pub mod Keeps
pub mod Listing
use helmdeep.Base.{
  ℕ, String, negsuc, Bool, not, ◌&&◌, ◌||◌, Option, none, some, List, [], ◌∷◌, ◌==◌, if◌then◌else◌,
  Result, ok, err, Dict,
}
use helmdeep.Base.Text.{◌+++◌}
use helmdeep.Json.{Json}
use helmdeep.Types.{
  Subject, Action, DecisionRequest, DecisionResponse, outcome_allow_with_obligations,
  record_outcome_allowed, record_outcome_denied, Tool, ToolResult,
}
use helmdeep.Mcp.{CallContext, ListToolsResult, Upstream}
use helmdeep.Identity.{CredentialBroker}
use helmdeep.ToolRegistry
use helmdeep.Gateway.Usage.{usage, usage_peek}
use helmdeep.Gateway.Obligations.{apply_obligations}
use helmdeep.Gateway.Calls.{
  Gateway, State, Reply, result, protocol_error, is_allowed, or_else, deny, new_record,
  denied_result, failed_result, append, deny_without_subject, deny_undeclared_agent,
  deny_undeclared_tool, deny_upstream_mismatch, agent_deny_reason, decide, taint_arguments,
  record_result_provenance, record_failure,
}

-- What the handler holds once the decision is made.
pub record Call (W : Type 0) : Type 0 where
  pub context : CallContext
  pub name : String
  pub subject : Subject
  pub upstream : Upstream W
  pub action : Action
  pub decision : DecisionResponse
  pub at : ℕ

-- The action that the decision is asked for.
unfoldable pub governed_action :
    {W : Type 0}
    → Gateway W
    → State W
    → Subject
    → String
    → Dict Json
    → ToolRegistry.Entry
    → ℕ
    → Action
governed_action g st subject name args entry now = record {
  type = "tool_call";
  tool = name;
  resource = "";
  arguments = taint_arguments g subject.id now st.prov args;
  risk = entry.risk;
  data_classes = entry.data_classes;
  required_scopes = entry.scopes;
}

-- An error of the decider is a denial.
abbrev pub decision_of : Result String DecisionResponse → DecisionResponse
decision_of (ok d) = d
decision_of (err e) = deny "pdp.error" e

module _ {W : Type 0} (g : Gateway W) where
  -- After the upstream has answered.
  unfoldable pub answered : Call W → Result String ToolResult → State W → Reply × State W
  answered c (err e) st = (
    result (failed_result g ("upstream call failed: " +++ e)),
    record_failure g c.subject c.action c.decision st,
  )
  answered c (ok res) st =
      let res' =
        if c.decision.outcome == outcome_allow_with_obligations
        then apply_obligations g.codec res c.decision.obligations
        else res in
      (result res', record_result_provenance g c.subject.id c.upstream.name res' c.at st)

  unfoldable pub forward : Call W → String → State W → Reply × State W
  unfolding answered
  forward c credential st =
      let (r, w) =
        c.upstream.call_tool
          (record { tool = c.name; arguments = c.action.arguments; credential = credential })
          st.world in
      answered c r (record st { world = w })

  -- After the broker has answered.
  unfoldable pub exchanged : Call W → Result String String → State W → Reply × State W
  unfolding forward
  exchanged c (err e) st = (
    result (failed_result g ("could not obtain a scoped upstream credential: " +++ e)),
    record_failure g c.subject c.action c.decision st,
  )
  exchanged c (ok minted) st = forward c minted st

  -- The credential is the broker's, or none where no broker is configured.
  unfoldable pub act_through : Option (CredentialBroker W) → Call W → State W → Reply × State W
  unfolding exchanged
  act_through none c st = forward c "" st
  act_through (some broker) c st =
      let (r, w) = broker c.context.credential c.upstream.name c.name st.world in
      exchanged c r (record st { world = w })

  -- After the decision record has been appended, or not.
  unfoldable pub recorded : Call W → Option String → State W → Reply × State W
  unfolding act_through
  recorded c (some e) st =
      (result (denied_result g ("could not durably record this decision, denying: " +++ e)), st)
  recorded c none st =
      if is_allowed c.decision.outcome
      then act_through g.broker c st
      else (result (denied_result g (or_else c.decision.reason "denied by policy")), st)

  unfoldable pub enforce : Call W → State W → Reply × State W
  unfolding recorded
  enforce c st =
      let outcome =
        if is_allowed c.decision.outcome then record_outcome_allowed else record_outcome_denied in
      let (e, st') = append g (new_record c.at c.subject c.action c.decision outcome) st in
      recorded c e st'

  -- The request of CallTool, with the call counted.
  unfoldable pub consult :
      CallContext
      → String
      → Dict Json
      → Subject
      → Upstream W
      → ToolRegistry.Entry
      → ℕ
      → State W
      → Reply × State W
  unfolding enforce governed_action
  consult cc name args subject upstream entry now st =
      let action = governed_action g st subject name args entry now in
      let (used, tracker) = usage st.usage subject.id now in
      let req : DecisionRequest = record {
        subject = subject;
        action = action;
        context = record { session_id = ""; request_id = cc.request_id; time = now; usage = used };
      } in
      let (r, st') = decide g req (record st { usage = tracker }) in
      enforce
        (record {
          context = cc;
          name = name;
          subject = subject;
          upstream = upstream;
          action = action;
          decision = decision_of r;
          at = now;
        })
        st'

  -- The checks of the tool, in the order of the code.
  unfoldable pub route :
      CallContext
      → String
      → Dict Json
      → Subject
      → ℕ
      → Option (Upstream W)
      → Option ToolRegistry.Entry
      → State W
      → Reply × State W
  unfolding consult
  route cc name args subject now none declared st =
      (protocol_error (record { code = negsuc 32601; message = "unknown tool: " +++ name }), st)
  route cc name args subject now (some upstream) none st =
      deny_undeclared_tool g subject name now st
  route cc name args subject now (some upstream) (some entry) st =
      if not (entry.upstream == "") && not (entry.upstream == upstream.name)
      then deny_upstream_mismatch g subject name entry.upstream upstream.name now st
      else consult cc name args subject upstream entry now st

  -- After the agent has been looked up: denied for a reason, or let through.
  unfoldable pub screened :
      CallContext → String → Dict Json → Subject → ℕ → Option String → State W → Reply × State W
  unfolding route
  screened cc name args subject now (some reason) st =
      deny_undeclared_agent g subject name reason now st
  screened cc name args subject now none st =
      route cc name args subject now (g.registry.resolve name) (ToolRegistry.find g.tool_reg name)
        st

  -- After the credential has been resolved.
  unfoldable pub identified :
      CallContext → String → Dict Json → ℕ → Result String Subject → State W → Reply × State W
  unfolding screened
  identified cc name args now (err e) st = deny_without_subject g name e now st
  identified cc name args now (ok subject) st =
      screened cc name args subject now (agent_deny_reason g subject) st

  unfoldable pub call_tool : CallContext → String → Dict Json → State W → Reply × State W
  unfolding identified
  call_tool cc name args st =
      let (now, w) = g.now st.world in
      let (r, w') = g.identity cc.credential w in
      identified cc name args now r (record st { world = w' })

  -- The request that asks whether a subject may see a tool; it counts no call.
  abbrev pub visibility_request :
      CallContext → Subject → ToolRegistry.Entry → Tool → ℕ → State W → DecisionRequest
  visibility_request cc subject entry tool now st = record {
    subject = subject;
    action = record {
      type = "tool_call";
      tool = tool.name;
      resource = "";
      arguments = [];
      risk = entry.risk;
      data_classes = entry.data_classes;
      required_scopes = entry.scopes;
    };
    context = record {
      session_id = "";
      request_id = cc.request_id;
      time = now;
      usage = usage_peek st.usage subject.id now;
    };
  }

  -- One round of the loop of ListTools: whether the tool is visible.
  unfoldable pub is_visible : CallContext → Subject → ℕ → Tool → State W → Bool × State W
  is_visible cc subject now tool st = elim (ToolRegistry.find g.tool_reg tool.name) [
    | none ↦ (Bool.false, st)
    | some entry ↦
        let (r, st') = decide g (visibility_request cc subject entry tool now st) st in
        (elim r [ err e ↦ Bool.false | ok d ↦ is_allowed d.outcome ], st')
  ]

  unfoldable pub visible_tools :
      CallContext → Subject → ℕ → List Tool → State W → List Tool × State W
  visible_tools cc subject now [] st = ([], st)
  visible_tools cc subject now (tool ∷ tools) st =
      let (shown, st') = is_visible cc subject now tool st in
      let (rest, st'') = visible_tools cc subject now tools st' in
      (if shown then tool ∷ rest else rest, st'')

  -- After the agent has been looked up. The clock is read once the agent is accepted.
  unfoldable pub list_screened :
      CallContext → Subject → Option String → State W → ListToolsResult × State W
  unfolding visible_tools
  list_screened cc subject (some reason) st = (record { tools = []; next_cursor = "" }, st)
  list_screened cc subject none st =
      let (now, w) = g.now st.world in
      let (tools, st') = visible_tools cc subject now g.registry.tools (record st { world = w }) in
      (record { tools = tools; next_cursor = "" }, st')

  -- After the credential has been resolved.
  unfoldable pub list_for :
      CallContext → Result String Subject → State W → ListToolsResult × State W
  unfolding list_screened
  list_for cc (err e) st = (record { tools = []; next_cursor = "" }, st)
  list_for cc (ok subject) st = list_screened cc subject (agent_deny_reason g subject) st

  unfoldable pub list_tools : CallContext → String → State W → ListToolsResult × State W
  unfolding list_for
  list_tools cc cursor st =
      let (r, w) = g.identity cc.credential st.world in list_for cc r (record st { world = w })
