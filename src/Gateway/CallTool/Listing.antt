-- ===== src/Gateway/CallTool/Listing.antt =====
-- ListTools: what a caller is shown, and that looking costs nothing.
use helmdeep.Base.{
  ℕ, String, true, Option, none, some, List, [], ◌∷◌, ◌≡◌, refl, inl, inr, ◌∙◌, Result, ok, err,
  arith, All, Bool-cases, is_some,
}
use helmdeep.Types.{Subject, Tool}
use helmdeep.Mcp.{CallContext}
use helmdeep.ToolRegistry
use helmdeep.Gateway.Calls.{Gateway, State, agent_deny_reason, decide}
use helmdeep.Gateway.CallTool.{is_visible, visible_tools, list_screened, list_for, list_tools}

-- The two states count the same calls and hold the same labels.
pub record SameCounters {W : Type 0} (s t : State W) : Type 0 where
  pub usage : s.usage ≡ t.usage
  pub prov : s.prov ≡ t.prov

module _ {W : Type 0} (g : Gateway W) where
  -- The tool registry declares the tool.
  abbrev pub IsDeclared : Tool → Type 0
  IsDeclared tool = is_some (ToolRegistry.find g.tool_reg tool.name) ≡ true

  is_visible-SameCounters :
      (ctx : CallContext) (subject : Subject) (now : ℕ) (tool : Tool) (st : State W)
      → SameCounters (is_visible g ctx subject now tool st).1 st
  unfolding is_visible decide
  is_visible-SameCounters ctx subject now tool st = record {
    usage = ground arith;
    prov = ground arith;
  }

  is_visible-IsDeclared :
      (ctx : CallContext) (subject : Subject) (now : ℕ) (tool : Tool) (st : State W)
      → (is_visible g ctx subject now tool st).0 ≡ true
      → IsDeclared tool
  unfolding is_visible
  is_visible-IsDeclared ctx subject now tool st h = ground arith

  visible_tools_lem :
      (ctx : CallContext) (subject : Subject) (now : ℕ) (tools : List Tool) (st : State W)
      → SameCounters (visible_tools g ctx subject now tools st).1 st
        × All IsDeclared (visible_tools g ctx subject now tools st).0
  unfolding visible_tools
  visible_tools_lem ctx subject now [] st = (record { usage = refl; prov = refl }, tt)
  visible_tools_lem ctx subject now (tool ∷ tools) st =
      let (shown, st') = is_visible g ctx subject now tool st in
      let here = is_visible-SameCounters ctx subject now tool st in
      let (same, declared) = visible_tools_lem ctx subject now tools st' in
      (
        record { usage = same.usage ∙ here.usage; prov = same.prov ∙ here.prov },
        elim (Bool-cases shown) [
          | inl yes' ↦ rw yes' (is_visible-IsDeclared ctx subject now tool st yes', declared)
          | inr no' ↦ rw no' declared
        ],
      )

  list_screened_lem :
      (ctx : CallContext) (subject : Subject) (reason : Option String) (st : State W)
      → SameCounters (list_screened g ctx subject reason st).1 st
        × All IsDeclared (list_screened g ctx subject reason st).0.tools
  unfolding list_screened
  list_screened_lem ctx subject (some reason) st = (record { usage = refl; prov = refl }, tt)
  list_screened_lem ctx subject none st =
      let (now, w) = g.now st.world in
      let (same, declared) =
        visible_tools_lem ctx subject now g.registry.tools (record st { world = w }) in
      (record { usage = same.usage; prov = same.prov }, declared)

  list_for_lem :
      (ctx : CallContext) (r : Result String Subject) (st : State W)
      → SameCounters (list_for g ctx r st).1 st × All IsDeclared (list_for g ctx r st).0.tools
  unfolding list_for
  list_for_lem ctx (err e) st = (record { usage = refl; prov = refl }, tt)
  list_for_lem ctx (ok subject) st = list_screened_lem ctx subject (agent_deny_reason g subject) st

  -- ListTools shows only tools that the tool registry declares, and it counts no call and records
  -- no label, whatever the decider answers.
  pub list_tools_lem :
      (ctx : CallContext) (cursor : String) (st : State W)
      → SameCounters (list_tools g ctx cursor st).1 st
        × All IsDeclared (list_tools g ctx cursor st).0.tools
  unfolding list_tools
  list_tools_lem ctx cursor st =
      let (r, w) = g.identity ctx.credential st.world in
      let (same, declared) = list_for_lem ctx r (record st { world = w }) in
      (record { usage = same.usage; prov = same.prov }, declared)
