-- ===== src/Mcp/StaticRegistry/Index.antt =====
-- What the index holds after a refresh.
use helmdeep.Base.{
  String, Bool, false, ◌||◌, ◌==◌, none, is_some, List, [], ◌∷◌, ◌++◌, Result, ok, err,
  Result-cases, Dict, lookup, insert, lookup-insert, ◌≡◌, ◌≢◌, ◌⊎◌, inl, inr, refl, arith,
}
use helmdeep.Types.{Tool}
use helmdeep.Mcp.{Upstream}
use helmdeep.Mcp.StaticRegistry.{StaticRegistry, index_tools, collect, refreshed, refresh, resolve}

abbrev pub has_tool : String → List Tool → Bool
has_tool name [] = false
has_tool name (t ∷ ts) = t.name == name || has_tool name ts

has_tool-append :
    (name : String) (ts us : List Tool)
    → has_tool name (ts ++ us) ≡ (has_tool name ts || has_tool name us)
has_tool-append name [] us = refl
has_tool-append name (t ∷ ts) us = ground (arith, has_tool-append name ts us)

module _ {W : Type 0} where
  lookup-index_tools :
      (name : String) (u : Upstream W) (ts : List Tool) (index : Dict (Upstream W))
      → is_some (lookup name (index_tools u ts index))
        ≡ (is_some (lookup name index) || has_tool name ts)
  lookup-index_tools name u [] index = ground arith
  lookup-index_tools name u (t ∷ ts) index = ground (
    arith,
    lookup-index_tools name u ts (insert t.name u index),
    lookup-insert t.name name u index,
  )

  collect-lookup :
      (name : String) (us : List (Upstream W)) (index found : Dict (Upstream W))
      (gathered tools : List Tool) (w : W)
      → is_some (lookup name index) ≡ has_tool name gathered
      → (collect us index gathered w).0 ≡ ok (found, tools)
      → is_some (lookup name found) ≡ has_tool name tools
  unfolding collect
  collect-lookup name [] index found gathered tools w h e = cc
  collect-lookup name (u ∷ us) index found gathered tools w h e =
      elim (Result-cases (u.list_tools w).0) [
        | inr (text, failed) ↦ let k = rw (failed, collect) at e in absurd cc
        | inl (ts, listed) ↦
            collect-lookup name us (index_tools u ts index) found (gathered ++ ts) tools
              (u.list_tools w).1
              (rw (lookup-index_tools name u ts index, has_tool-append name gathered ts, h) refl)
              (rw (listed, collect) at e)
      ]

  refreshed_lem :
      (r : StaticRegistry W) (answer : Result String (Dict (Upstream W) × List Tool)) (w : W)
      → ((found : Dict (Upstream W)) (tools : List Tool)
          → answer ≡ ok (found, tools)
          → (name : String) → is_some (lookup name found) ≡ has_tool name tools)
      → (((refreshed r (answer, w)).0 ≢ none) × ((refreshed r (answer, w)).1 ≡ r))
        ⊎ (((refreshed r (answer, w)).0 ≡ none)
            × ((name : String)
                → is_some (resolve (refreshed r (answer, w)).1 name)
                  ≡ has_tool name (refreshed r (answer, w)).1.tools))
  refreshed_lem r (err e) w h = inl (λ k. cc, refl)
  refreshed_lem r (ok (found, tools)) w h = inr (refl, h found tools refl)

  -- A refresh that fails leaves the registry as it was. After one that succeeds a tool resolves to an
  -- upstream exactly when it is among the tools that the registry lists.
  pub refresh_lem :
      (r : StaticRegistry W) (w : W)
      → (((refresh r w).0 ≢ none) × ((refresh r w).1 ≡ r))
        ⊎ (((refresh r w).0 ≡ none)
            × ((name : String)
                → is_some (resolve (refresh r w).1 name) ≡ has_tool name (refresh r w).1.tools))
  unfolding refresh
  refresh_lem r w =
      let (answer, w') = collect r.upstreams [] [] w in
      refreshed_lem r answer w' (λ found tools collected name.
        collect-lookup name r.upstreams [] found [] tools w refl collected)
