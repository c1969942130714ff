-- ===== src/Mcp/StaticRegistry.antt =====
-- pkg/mcp/registry.go: the registry over a fixed list of upstreams, with the index of their tools.
pub mod Index
use helmdeep.Base.{
  String, Option, none, some, List, [], ◌∷◌, ◌++◌, Result, ok, err, Dict, lookup, insert,
}
use helmdeep.Types.{Tool}
use helmdeep.Mcp.{Upstream, Registry}

pub record StaticRegistry (W : Type 0) : Type 0 where
  pub upstreams : List (Upstream W)
  pub by_tool : Dict (Upstream W)
  pub tools : List Tool

module _ {W : Type 0} where
  -- The inner loop of Refresh: each tool of an upstream, under its name.
  abbrev pub index_tools : Upstream W → List Tool → Dict (Upstream W) → Dict (Upstream W)
  index_tools u [] index = index
  index_tools u (t ∷ ts) index = index_tools u ts (insert t.name u index)

  -- The outer loop, up to the first upstream that fails.
  unfoldable pub collect :
      List (Upstream W)
      → Dict (Upstream W)
      → List Tool
      → W
      → Result String (Dict (Upstream W) × List Tool) × W
  collect [] index gathered w = (ok (index, gathered), w)
  collect (u ∷ us) index gathered w =
      let (answer, w') = u.list_tools w in
      elim answer [
        | err e ↦ (err e, w')
        | ok tools ↦ collect us (index_tools u tools index) (gathered ++ tools) w'
      ]

  -- `Refresh` once the upstreams have answered.
  abbrev pub refreshed :
      StaticRegistry W
      → Result String (Dict (Upstream W) × List Tool) × W
      → Option String × StaticRegistry W × W
  refreshed r (err e, w) = (some e, r, w)
  refreshed r (ok (index, gathered), w) =
      (none, record { upstreams = r.upstreams; by_tool = index; tools = gathered }, w)

  unfoldable pub refresh : StaticRegistry W → W → Option String × StaticRegistry W × W
  unfolding collect
  refresh r w = refreshed r (collect r.upstreams [] [] w)

  -- `NewStaticRegistry`
  unfoldable pub new_static_registry : List (Upstream W) → W → Result String (StaticRegistry W) × W
  unfolding refresh
  new_static_registry upstreams w =
      let (e, r, w') = refresh (record { upstreams = upstreams; by_tool = []; tools = [] }) w in
      elim e [ some text ↦ (err text, w') | none ↦ (ok r, w') ]

  abbrev pub resolve : StaticRegistry W → String → Option (Upstream W)
  resolve r tool_name = lookup tool_name r.by_tool

  -- The registry as the gateway sees it.
  abbrev pub as_registry : StaticRegistry W → Registry W
  as_registry r = record { upstreams = r.upstreams; resolve = resolve r; tools = r.tools }
