-- ===== src/AgentRegistry/Laws.antt =====
-- What a registry that `New` builds holds, and which configurations `New` accepts.
use helmdeep.Base.{
  String, List, [], ◌∷◌, Option, none, eq_iff, ◌≡◌, ◌≢◌, ◌↔◌, refl, ok, Dict, lookup, insert,
  lookup-insert, arith, declared, Fresh, Fresh-insert, Fresh-nil, either,
}
use helmdeep.AgentRegistry.{Entry, Registry, register, new, find}

-- The entry that a configuration declares under an id.
abbrev pub agent_entry : String → List Entry → Option Entry
agent_entry = declared (λ e. e.agent_id)

abbrev pub IsWellFormed : List Entry → Type 0
IsWellFormed [] = Unit
IsWellFormed (e ∷ es) = (e.agent_id ≢ "") × (agent_entry e.agent_id es ≡ none) × IsWellFormed es

register-find :
    (es : List Entry) (m : Dict Entry) (r : Registry) (id : String)
    → register es m ≡ ok r
    → find r id ≡ either (lookup id m) (agent_entry id es)
unfolding register find
register-find [] m r id h = ground arith
register-find (e ∷ es) m r id h = ground (
  arith,
  register-find es (insert e.agent_id e m) r id,
  lookup-insert e.agent_id id e m,
  eq_iff e.agent_id id,
)

register_sound :
    (es : List Entry) (m : Dict Entry) (r : Registry)
    → register es m ≡ ok r
    → IsWellFormed es × Fresh (λ e. e.agent_id) es m
unfolding register
register_sound [] m r h = (tt, tt)
register_sound (e ∷ es) m r h = ground (
  arith,
  register_sound es (insert e.agent_id e m) r,
  eq_iff e.agent_id "",
  Fresh-insert (λ e. e.agent_id) e.agent_id e es m,
)

register_complete :
    (es : List Entry) (m : Dict Entry)
    → IsWellFormed es
    → Fresh (λ e. e.agent_id) es m
    → (r : Registry) × (register es m ≡ ok r)
unfolding register
register_complete [] m w f = (_, refl)
register_complete (e ∷ es) m (named, once, w) (fresh, f) =
    let (r, built) =
      register_complete es (insert e.agent_id e m) w
        ((Fresh-insert (λ e. e.agent_id) e.agent_id e es m).1 (f, once)) in
    (r, ground (arith, eq_iff e.agent_id ""))

-- New accepts a configuration of agents exactly when every entry has an id and no id is declared
-- twice.
pub new_agents-accepts_iff :
    (es : List Entry) → ((r : Registry) × (new es ≡ ok r)) ↔ IsWellFormed es
unfolding new
new_agents-accepts_iff es = (
  λ (r, h). (register_sound es [] r h).0,
  λ w. register_complete es [] w (Fresh-nil (λ e. e.agent_id) es),
)

-- The registry that New builds answers Lookup with the declared entry of an agent, and with
-- nothing for an agent that was never declared.
pub find-new_agents :
    (es : List Entry) (r : Registry) (id : String) → new es ≡ ok r → find r id ≡ agent_entry id es
unfolding new
find-new_agents es r id h = register-find es [] r id h
