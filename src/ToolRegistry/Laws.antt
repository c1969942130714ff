-- ===== src/ToolRegistry/Laws.antt =====
-- What a registry that `New` builds holds, and which configurations `New` accepts.
use helmdeep.Base.{
  String, List, [], ◌∷◌, true, Option, none, eq_iff, ◌≡◌, ◌≢◌, ◌↔◌, ◌⊎◌, refl, ok, Dict, lookup,
  insert, lookup-insert, arith, declared, Fresh, Fresh-insert, Fresh-nil, either,
}
use helmdeep.ToolRegistry.{valid, Entry, Registry, register, new, find}

-- The entry that a configuration declares under an id.
abbrev pub tool_entry : String → List Entry → Option Entry
tool_entry = declared (λ e. e.tool_id)

-- The four ratings of a risk.
abbrev pub IsRating : String → Type 0
IsRating risk = (risk ≡ "low") ⊎ ((risk ≡ "medium") ⊎ ((risk ≡ "high") ⊎ (risk ≡ "critical")))

valid_iff : (risk : String) → (valid risk ≡ true) ↔ IsRating risk
unfolding valid
valid_iff risk =
    ground
      (arith, eq_iff risk "low", eq_iff risk "medium", eq_iff risk "high", eq_iff risk "critical")

abbrev pub IsWellFormed : List Entry → Type 0
IsWellFormed [] = Unit
IsWellFormed (e ∷ es) =
    (e.tool_id ≢ "") × IsRating e.risk × (tool_entry e.tool_id es ≡ none) × IsWellFormed es

register-find :
    (es : List Entry) (m : Dict Entry) (r : Registry) (id : String)
    → register es m ≡ ok r
    → find r id ≡ either (lookup id m) (tool_entry id es)
unfolding register find
register-find [] m r id h = ground arith
register-find (e ∷ es) m r id h = ground (
  arith,
  register-find es (insert e.tool_id e m) r id,
  lookup-insert e.tool_id id e m,
  eq_iff e.tool_id id,
)

register_sound :
    (es : List Entry) (m : Dict Entry) (r : Registry)
    → register es m ≡ ok r
    → IsWellFormed es × Fresh (λ e. e.tool_id) es m
unfolding register
register_sound [] m r h = (tt, tt)
register_sound (e ∷ es) m r h = ground (
  arith,
  register_sound es (insert e.tool_id e m) r,
  eq_iff e.tool_id "",
  valid_iff e.risk,
  Fresh-insert (λ e. e.tool_id) e.tool_id e es m,
)

register_complete :
    (es : List Entry) (m : Dict Entry)
    → IsWellFormed es
    → Fresh (λ e. e.tool_id) es m
    → (r : Registry) × (register es m ≡ ok r)
unfolding register
register_complete [] m w f = (_, refl)
register_complete (e ∷ es) m (named, rated, once, w) (fresh, f) =
    let (r, built) =
      register_complete es (insert e.tool_id e m) w
        ((Fresh-insert (λ e. e.tool_id) e.tool_id e es m).1 (f, once)) in
    (r, ground (arith, eq_iff e.tool_id "", valid_iff e.risk))

-- New accepts a configuration exactly when every entry has an id and one of the four risk ratings,
-- and no id is declared twice.
pub new-accepts_iff : (es : List Entry) → ((r : Registry) × (new es ≡ ok r)) ↔ IsWellFormed es
unfolding new
new-accepts_iff es = (
  λ (r, h). (register_sound es [] r h).0,
  λ w. register_complete es [] w (Fresh-nil (λ e. e.tool_id) es),
)

-- The registry that New builds answers Lookup with the declared entry of an id, and with nothing
-- for an id that was never declared.
pub find-new :
    (es : List Entry) (r : Registry) (id : String) → new es ≡ ok r → find r id ≡ tool_entry id es
unfolding new
find-new es r id h = register-find es [] r id h
