-- ===== src/AgentRegistry.antt =====
-- pkg/agentregistry: the catalogue of declared agents, built once from the configuration.
pub mod Laws
use helmdeep.Base.{
  String, List, [], ◌∷◌, Option, ◌==◌, if◌then◌else◌, is_some, Result, ok, err, Dict, lookup,
  insert,
}

pub record Entry : Type 0 where
  pub agent_id : String
  pub version : String
  pub owner : String
  pub risk : String
  pub data_classes : List String

pub record Registry : Type 0 where
  pub by_id : Dict Entry

-- The two errors of `New`, with what their texts name.
pub data NewError : Type 0 where
  empty_id : NewError
  duplicate : String → NewError

-- The loop of `New`.
register : List Entry → Dict Entry → Result NewError Registry
register [] by_id = ok (record { by_id = by_id })
register (e ∷ es) by_id =
    if e.agent_id == ""
    then err empty_id
    else if is_some (lookup e.agent_id by_id)
    then err (duplicate e.agent_id)
    else register es (insert e.agent_id e by_id)

unfoldable pub new : List Entry → Result NewError Registry
unfolding register
new entries = register entries []

unfoldable pub find : Registry → String → Option Entry
find r agent_id = lookup agent_id r.by_id
