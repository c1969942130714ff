-- ===== src/Gateway/Obligations.antt =====
-- internal/gateway/obligations.go: the redactions that an allowed call's result goes through.
pub mod Laws
pub mod Redaction
use Prim.Native.Nat.{◌<◌}
use mathlib.Core.Option
use helmdeep.Base.{
  ℕ, zero, suc, ℤ, pos, negsuc, String, Bool, true, false, Option, none, some, List, [], ◌∷◌, ◌==◌,
  if◌then◌else◌, Result, ok, err,
}
use helmdeep.Base.Text.{split, atoi}
use helmdeep.Json.{
  Json, null, bool, num, str, arr, obj, Elems, nil, cons, Fields, end, field, Codec,
}
use helmdeep.Types.{ToolResult, Obligation, obligation_redact}

abbrev pub redacted_placeholder : String
redacted_placeholder = "[REDACTED]"

-- `c[seg]` of a map, and the write to a key that is there.
abbrev pub field_at : Fields → String → Option Json
field_at end seg = none
field_at (field k v fs) seg = if k == seg then some v else field_at fs seg

abbrev pub set_field : Fields → String → Json → Fields
set_field end seg new = end
set_field (field k v fs) seg new =
    if k == seg then field k new fs else field k v (set_field fs seg new)

-- `c[idx]` of a slice, and the write to an index in range.
abbrev pub elem_at : Elems → ℕ → Option Json
elem_at nil i = none
elem_at (cons v vs) zero = some v
elem_at (cons v vs) (suc i) = elem_at vs i

abbrev pub set_elem : Elems → ℕ → Json → Elems
set_elem nil i new = nil
set_elem (cons v vs) zero new = cons new vs
set_elem (cons v vs) (suc i) new = cons v (set_elem vs i new)

-- The index that a segment names, if it is a number that is not negative.
abbrev pub index : Option ℤ → Option ℕ
index (some (pos i)) = some i
index (some (negsuc i)) = none
index none = none

-- The entry of a container that a segment names: the map's, the slice's, or none.
unfoldable pub child : Json → String → Option Json
child (obj fs) seg = field_at fs seg
child (arr vs) seg = elim (index (atoi seg)) [ none ↦ none | some i ↦ elem_at vs i ]
child _ seg = none

-- The container with that entry replaced.
unfoldable pub with_child : Json → String → Json → Json
with_child (obj fs) seg new = obj (set_field fs seg new)
with_child (arr vs) seg new = elim (index (atoi seg)) [
  | none ↦ arr vs
  | some i ↦ arr (set_elem vs i new)
]
with_child v seg new = v

-- `setAtPath`: none where it reports false; else the root with the entry replaced. The write in
-- place is seen through the root alone, since a decoded value shares no part.
unfoldable pub set_at_path : Json → List String → Json → Option Json
unfolding child with_child
set_at_path root [] new = none
set_at_path root (last ∷ []) new = elim (child root last) [
  | none ↦ none
  | some old ↦ some (with_child root last new)
]
set_at_path root (seg ∷ next ∷ rest) new = elim (child root seg) [
  | none ↦ none
  | some inner ↦ Option.map (with_child root seg) (set_at_path inner (next ∷ rest) new)
]

module _ (codec : Codec) where
  pub redact_in_json : String → List String → String
  unfolding set_at_path
  redact_in_json raw segments = if raw == "" then raw else elim (codec.unmarshal raw) [
    | err e ↦ raw
    | ok v ↦ elim (set_at_path v segments (str redacted_placeholder)) [
      | none ↦ raw
      | some v' ↦ elim (codec.marshal v') [ err e ↦ raw | ok b ↦ b ]
    ]
  ]

  -- `redactPath` on the segments of the path.
  redact_segments : ToolResult → List String → ToolResult
  unfolding redact_in_json
  redact_segments result [] = result
  redact_segments result (first ∷ []) = result
  redact_segments result (first ∷ next ∷ rest) =
      if first == "structuredContent"
      then record result {
        structured_content = redact_in_json result.structured_content (next ∷ rest);
      }
      else if first == "content"
      then record result { content = redact_in_json result.content (next ∷ rest) }
      else result

  pub redact_path : ToolResult → String → ToolResult
  unfolding redact_segments
  redact_path result path = redact_segments result (split b'.' path)

  unfoldable pub apply_obligations : ToolResult → List Obligation → ToolResult
  unfolding redact_path
  apply_obligations result [] = result
  apply_obligations result (o ∷ os) =
      apply_obligations
        (if o.type == obligation_redact then redact_path result o.target else result) os
