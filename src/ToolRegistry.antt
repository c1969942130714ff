-- ===== src/ToolRegistry.antt =====
-- pkg/toolregistry: the catalogue of declared tools, built once from the configuration.
pub mod Laws
use helmdeep.Base.{
  String, List, [], ◌∷◌, Bool, not, ◌||◌, Option, ◌==◌, if◌then◌else◌, is_some, Result, ok, err,
  Dict, lookup, insert,
}

-- `RiskRating.valid`
unfoldable pub valid : String → Bool
valid risk = risk == "low" || (risk == "medium" || (risk == "high" || risk == "critical"))

pub record Entry : Type 0 where
  pub tool_id : String
  pub upstream : String
  pub risk : String
  pub data_classes : List String
  pub scopes : List String

pub record Registry : Type 0 where
  pub by_id : Dict Entry

-- The three errors of `New`, with what their texts name.
pub data NewError : Type 0 where
  empty_id : NewError
  invalid_risk : String → String → NewError
  duplicate : String → NewError

-- The loop of `New`.
register : List Entry → Dict Entry → Result NewError Registry
unfolding valid
register [] by_id = ok (record { by_id = by_id })
register (e ∷ es) by_id =
    if e.tool_id == ""
    then err empty_id
    else if not (valid e.risk)
    then err (invalid_risk e.tool_id e.risk)
    else if is_some (lookup e.tool_id by_id)
    then err (duplicate e.tool_id)
    else register es (insert e.tool_id e by_id)

unfoldable pub new : List Entry → Result NewError Registry
unfolding register
new entries = register entries []

unfoldable pub find : Registry → String → Option Entry
find r tool_id = lookup tool_id r.by_id
