-- ===== src/Gateway/CallTool/Keeps.antt =====
-- What every answer of the world outside keeps, a request to the gateway keeps.
use helmdeep.Base.{
  ℕ, String, Option, none, some, List, [], ◌∷◌, ◌≡◌, refl, inl, inr, Result, ok, err, Dict,
  Bool-cases, Option-cases, not, ◌&&◌, ◌==◌, if_elim, arith,
}
use helmdeep.Json.{Json}
use helmdeep.Types.{Subject, Action, DecisionRequest, DecisionResponse, ActionRecord, ToolResult}
use helmdeep.Types.{Tool, ToolCall}
use helmdeep.Mcp.{CallContext, Upstream}
use helmdeep.Identity.{CredentialBroker}
use helmdeep.ToolRegistry
use helmdeep.Gateway.Calls.{
  Gateway, State, is_allowed, append, deny_without_subject, deny_undeclared_agent,
  deny_undeclared_tool, deny_upstream_mismatch, agent_deny_reason, decide, record_failure,
  record_result_provenance, deadline,
}
use helmdeep.Gateway.CallTool.{
  Call, answered, forward, exchanged, act_through, recorded, enforce, consult, route, screened,
  identified, call_tool, is_visible, visible_tools, list_screened, list_for, list_tools,
}

module _ {W : Type 0} (P : W → Type 0) where
  -- A call of an upstream keeps `P`.
  abbrev pub UpstreamKeeps : Upstream W → Type 0
  UpstreamKeeps u = (call : ToolCall) (w : W) → P w → P (u.call_tool call w).1

  abbrev pub BrokerKeeps : Option (CredentialBroker W) → Type 0
  BrokerKeeps none = Unit
  BrokerKeeps (some broker) =
      (credential up tool : String) (w : W) → P w → P (broker credential up tool w).1

  -- Each question that both handlers ask of the world keeps `P`.
  pub record ListKeeps (g : Gateway W) : Type 0 where
    pub clock : (w : W) → P w → P (g.now w).1
    pub identity : (credential : String) (w : W) → P w → P (g.identity credential w).1
    pub pdp : (d : Option ℕ) (req : DecisionRequest) (w : W) → P w → P (g.pdp d req w).1

  -- Each question that the gateway asks of the world keeps `P`.
  pub record Keeps (g : Gateway W) : Type 0 where
    pub shared : ListKeeps g
    pub audit : (rec : ActionRecord) (w : W) → P w → P (g.audit_log.append rec w).1
    pub broker : BrokerKeeps g.broker
    pub upstreams :
        (name : String) (u : Upstream W) → g.registry.resolve name ≡ some u → UpstreamKeeps u

  module _ (g : Gateway W) (k : Keeps g) where
    record_failure-Keeps :
        (subject : Subject) (action : Action) (d : DecisionResponse) (st : State W)
        → P st.world
        → P (record_failure g subject action d st).world
    unfolding record_failure append
    record_failure-Keeps subject action d st h = k.audit _ _ (k.shared.clock st.world h)

    world-record_result_provenance :
        (id up : String) (res : ToolResult) (now : ℕ) (st : State W)
        → (record_result_provenance g id up res now st).world ≡ st.world
    unfolding record_result_provenance
    world-record_result_provenance id up res now st = ground arith

    answered-Keeps :
        (c : Call W) (r : Result String ToolResult) (st : State W)
        → P st.world
        → P (answered g c r st).1.world
    unfolding answered
    answered-Keeps c (err e) st h = record_failure-Keeps c.subject c.action c.decision st h
    answered-Keeps c (ok res) st h = rw world-record_result_provenance h

    forward-Keeps :
        (c : Call W) (credential : String) (st : State W)
        → UpstreamKeeps c.upstream
        → P st.world
        → P (forward g c credential st).1.world
    unfolding forward
    forward-Keeps c credential st up h = answered-Keeps c _ _ (up _ st.world h)

    exchanged-Keeps :
        (c : Call W) (r : Result String String) (st : State W)
        → UpstreamKeeps c.upstream
        → P st.world
        → P (exchanged g c r st).1.world
    unfolding exchanged
    exchanged-Keeps c (err e) st up h = record_failure-Keeps c.subject c.action c.decision st h
    exchanged-Keeps c (ok token) st up h = forward-Keeps c token st up h

    act-Keeps :
        (broker : Option (CredentialBroker W)) (c : Call W) (st : State W)
        → BrokerKeeps broker
        → UpstreamKeeps c.upstream
        → P st.world
        → P (act_through g broker c st).1.world
    unfolding act_through
    act-Keeps none c st b up h = forward-Keeps c "" st up h
    act-Keeps (some broker) c st b up h =
        exchanged-Keeps c _ _ up (b c.context.credential c.upstream.name c.name st.world h)

    pub recorded-Keeps :
        (c : Call W) (e : Option String) (st : State W)
        → UpstreamKeeps c.upstream
        → P st.world
        → P (recorded g c e st).1.world
    unfolding recorded
    recorded-Keeps c (some e) st up h = h
    recorded-Keeps c none st up h = elim (Bool-cases (is_allowed c.decision.outcome)) [
      | inl allowed ↦ rw allowed (act-Keeps g.broker c st k.broker up h)
      | inr denied ↦ rw denied h
    ]

    enforce-Keeps :
        (c : Call W) (st : State W)
        → UpstreamKeeps c.upstream
        → P st.world
        → P (enforce g c st).1.world
    unfolding enforce append
    enforce-Keeps c st up h = recorded-Keeps c _ _ up (k.audit _ st.world h)

    consult-Keeps :
        (ctx : CallContext) (name : String) (args : Dict Json) (subject : Subject) (up : Upstream W)
        (entry : ToolRegistry.Entry) (now : ℕ) (st : State W)
        → UpstreamKeeps up
        → P st.world
        → P (consult g ctx name args subject up entry now st).1.world
    unfolding consult decide
    consult-Keeps ctx name args subject up entry now st keeps h =
        enforce-Keeps _ _ keeps (k.shared.pdp (deadline g.decision_timeout) _ st.world h)

    route-Keeps :
        (ctx : CallContext) (name : String) (args : Dict Json) (subject : Subject) (now : ℕ)
        (up : Option (Upstream W)) (entry : Option ToolRegistry.Entry) (st : State W)
        → ((u : Upstream W) → up ≡ some u → UpstreamKeeps u)
        → P st.world
        → P (route g ctx name args subject now up entry st).1.world
    unfolding route deny_undeclared_tool deny_upstream_mismatch append
    route-Keeps ctx name args subject now none entry st keeps h = h
    route-Keeps ctx name args subject now (some up) none st keeps h = k.audit _ st.world h
    route-Keeps ctx name args subject now (some up) (some entry) st keeps h =
        if_elim (λ x. P x.1.world) (not (entry.upstream == "") && not (entry.upstream == up.name))
          (deny_upstream_mismatch g subject name entry.upstream up.name now st)
          (consult g ctx name args subject up entry now st) (k.audit _ st.world h)
          (consult-Keeps ctx name args subject up entry now st (keeps up refl) h)

    screened-Keeps :
        (ctx : CallContext) (name : String) (args : Dict Json) (subject : Subject) (now : ℕ)
        (reason : Option String) (st : State W)
        → P st.world
        → P (screened g ctx name args subject now reason st).1.world
    unfolding screened deny_undeclared_agent append
    screened-Keeps ctx name args subject now (some reason) st h = k.audit _ st.world h
    screened-Keeps ctx name args subject now none st h =
        route-Keeps ctx name args subject now (g.registry.resolve name)
          (ToolRegistry.find g.tool_reg name) st (k.upstreams name) h

    identified-Keeps :
        (ctx : CallContext) (name : String) (args : Dict Json) (now : ℕ) (r : Result String Subject)
        (st : State W)
        → P st.world
        → P (identified g ctx name args now r st).1.world
    unfolding identified deny_without_subject append
    identified-Keeps ctx name args now (err e) st h = k.audit _ st.world h
    identified-Keeps ctx name args now (ok subject) st h =
        screened-Keeps ctx name args subject now (agent_deny_reason g subject) st h

    pub call_tool-Keeps :
        (ctx : CallContext) (name : String) (args : Dict Json) (st : State W)
        → P st.world
        → P (call_tool g ctx name args st).1.world
    unfolding call_tool
    call_tool-Keeps ctx name args st h =
        identified-Keeps ctx name args _ _ _
          (k.shared.identity ctx.credential _ (k.shared.clock st.world h))

  module _ (g : Gateway W) (k : ListKeeps g) where
    is_visible-Keeps :
        (ctx : CallContext) (subject : Subject) (now : ℕ) (tool : Tool) (st : State W)
        → P st.world
        → P (is_visible g ctx subject now tool st).1.world
    unfolding is_visible decide
    is_visible-Keeps ctx subject now tool st h =
        elim (Option-cases (ToolRegistry.find g.tool_reg tool.name)) [
          | inl absent ↦ rw (absent, is_visible) h
          | inr (entry, found) ↦
              rw (found, is_visible) (k.pdp (deadline g.decision_timeout) _ st.world h)
        ]

    visible_tools-Keeps :
        (ctx : CallContext) (subject : Subject) (now : ℕ) (tools : List Tool) (st : State W)
        → P st.world
        → P (visible_tools g ctx subject now tools st).1.world
    unfolding visible_tools
    visible_tools-Keeps ctx subject now [] st h = h
    visible_tools-Keeps ctx subject now (tool ∷ tools) st h =
        visible_tools-Keeps ctx subject now tools _ (is_visible-Keeps ctx subject now tool st h)

    list_for-Keeps :
        (ctx : CallContext) (r : Result String Subject) (st : State W)
        → P st.world
        → P (list_for g ctx r st).1.world
    unfolding list_for list_screened
    list_for-Keeps ctx (err e) st h = h
    list_for-Keeps ctx (ok subject) st h = elim (Option-cases (agent_deny_reason g subject)) [
      | inr (reason, denied) ↦ rw denied h
      | inl accepted ↦
          rw accepted (visible_tools-Keeps ctx subject _ g.registry.tools _ (k.clock st.world h))
    ]

    pub list_tools-Keeps :
        (ctx : CallContext) (cursor : String) (st : State W)
        → P st.world
        → P (list_tools g ctx cursor st).1.world
    unfolding list_tools
    list_tools-Keeps ctx cursor st h = list_for-Keeps ctx _ _ (k.identity ctx.credential st.world h)
