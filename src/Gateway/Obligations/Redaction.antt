-- ===== src/Gateway/Obligations/Redaction.antt =====
-- What a redaction does to the raw JSON of a result, over the laws of encoding/json.
use helmdeep.Base.{
  String, none, some, List, [], ◌∷◌, ◌++◌, ◌∙◌, All, false, ◌==◌, eq_iff, ◌≡◌, ◌≢◌, refl, inl, inr,
  if◌then◌else◌, ok, arith, Result-cases, Bool-cases,
}
use helmdeep.Base.Text.{split}
use helmdeep.Json.{Json, str, Codec}
use helmdeep.Types.{ToolResult, Obligation, obligation_redact}
use helmdeep.Gateway.Obligations.{
  redacted_placeholder, set_at_path, redact_in_json, redact_segments, redact_path,
  apply_obligations,
}
use helmdeep.Gateway.Obligations.Laws.{get_at_path, IsReplaced, set_at_path_lem, set_at_path-none}

false_of_ne : (a b : String) → a ≢ b → (a == b) ≡ false
false_of_ne a b h = ground (arith, eq_iff a b)

module _ (codec : Codec) where
  -- encoding/json writes the value, and reads what it wrote as that value.
  abbrev pub IsReread : Json → Type 0
  IsReread v = (b : String) × (codec.marshal v ≡ ok b) × (codec.unmarshal b ≡ ok v)

  -- If the path leads to an entry of the decoded text, the redacted text decodes to a value that
  -- has the placeholder at the path, and at every path that parts from it what was there before;
  -- encoding/json is to read back the value that it writes.
  pub redact_hides :
      (raw : String) (v old : Json) (first : String) (path : List String)
      → raw ≢ ""
      → codec.unmarshal raw ≡ ok v
      → get_at_path v (first ∷ path) ≡ some old
      → ((v' : Json)
          → set_at_path v (first ∷ path) (str redacted_placeholder) ≡ some v'
          → IsReread v')
      → (v' : Json) × (codec.unmarshal (redact_in_json codec raw (first ∷ path)) ≡ ok v')
        × IsReplaced v v' (first ∷ path) (str redacted_placeholder)
  unfolding redact_in_json
  redact_hides raw v old first path text decoded found reread =
      let (v', set, replaced) = set_at_path_lem v first path (str redacted_placeholder) old found in
      let (b, written, read) = reread v' set in
      (v', ground (arith, eq_iff raw "", decoded, set, written, read), replaced)

  -- If the text is no JSON, or the path leads to no entry of it, the redaction leaves every byte.
  pub redact_unresolved :
      (raw : String) (path : List String)
      → ((v : Json) → codec.unmarshal raw ≡ ok v → get_at_path v path ≡ none)
      → redact_in_json codec raw path ≡ raw
  unfolding redact_in_json
  redact_unresolved raw path h = elim (Result-cases (codec.unmarshal raw)) [
    | inl (v, decoded) ↦
        ground (arith, decoded, set_at_path-none v path (str redacted_placeholder) (h v decoded))
    | inr (e, refused) ↦ ground (arith, refused)
  ]

  is_error-redact_path :
      (r : ToolResult) (path : String) → (redact_path codec r path).is_error ≡ r.is_error
  unfolding redact_path
  is_error-redact_path r path = is_error-segments (split b'.' path)
    where
      is_error-segments : (ps : List String) → (redact_segments codec r ps).is_error ≡ r.is_error
      is_error-segments [] = refl
      is_error-segments (a ∷ []) = refl
      is_error-segments (a ∷ b ∷ ps) = ground arith

  is_error-apply_obligations :
      (r : ToolResult) (os : List Obligation) → (apply_obligations codec r os).is_error ≡ r.is_error
  unfolding apply_obligations
  is_error-apply_obligations r [] = refl
  is_error-apply_obligations r (o ∷ os) = elim (Bool-cases (o.type == obligation_redact)) [
    | inl redact ↦
        rw (redact, apply_obligations)
          (is_error-apply_obligations (redact_path codec r o.target) os
            ∙ is_error-redact_path r o.target)
    | inr other ↦ rw (other, apply_obligations) (is_error-apply_obligations r os)
  ]

  apply_obligations-append :
      (r : ToolResult) (os more : List Obligation)
      → apply_obligations codec r (os ++ more)
        ≡ apply_obligations codec (apply_obligations codec r os) more
  unfolding apply_obligations
  apply_obligations-append r [] more = refl
  apply_obligations-append r (o ∷ os) more =
      apply_obligations-append
        (if o.type == obligation_redact then redact_path codec r o.target else r) os more

  -- Obligations of which none is a redaction change nothing.
  apply_obligations-others :
      (r : ToolResult) (os : List Obligation)
      → All (λ o. o.type ≢ obligation_redact) os
      → apply_obligations codec r os ≡ r
  unfolding apply_obligations
  apply_obligations-others r [] h = refl
  apply_obligations-others r (o ∷ os) (other, h) =
      rw (false_of_ne o.type obligation_redact other, apply_obligations)
        (apply_obligations-others r os h)

  redact_path-structured :
      (r : ToolResult) (target first : String) (path : List String)
      → split b'.' target ≡ "structuredContent" ∷ first ∷ path
      → redact_path codec r target
        ≡ record r { structured_content = redact_in_json codec r.structured_content (first ∷ path) }
  unfolding redact_path redact_segments
  redact_path-structured r target first path h = rw (h, redact_path) refl

  -- Where an allowed call's obligations redact an entry of the structured content that is there when
  -- their turn comes, whatever obligations precede it, and no redaction follows, the result that is
  -- handed on has the placeholder in the place of that entry, what it had at every path that parts
  -- from it, the content that the preceding ones left, and the error flag of the result; encoding/json
  -- is to read back the value that it writes.
  pub apply_obligations_hides :
      (r : ToolResult) (os others : List Obligation) (target first : String) (path : List String)
      (v old : Json)
      → split b'.' target ≡ "structuredContent" ∷ first ∷ path
      → All (λ o. o.type ≢ obligation_redact) others
      → (apply_obligations codec r os).structured_content ≢ ""
      → codec.unmarshal (apply_obligations codec r os).structured_content ≡ ok v
      → get_at_path v (first ∷ path) ≡ some old
      → ((v' : Json)
          → set_at_path v (first ∷ path) (str redacted_placeholder) ≡ some v'
          → IsReread v')
      → (out : ToolResult) × (v' : Json) × (apply_obligations codec r
            (os ++ (record { type = "redact"; target = target } ∷ others))
          ≡ out)
        × (codec.unmarshal out.structured_content ≡ ok v')
        × IsReplaced v v' (first ∷ path) (str redacted_placeholder)
        × (out.content ≡ (apply_obligations codec r os).content)
        × (out.is_error ≡ r.is_error)
  unfolding apply_obligations
  apply_obligations_hides r os others target first path v old cut rest text decoded found reread =
      let so_far = apply_obligations codec r os in
      let (v', read, replaced) =
        redact_hides so_far.structured_content v old first path text decoded found reread in
      (
        record so_far {
          structured_content = redact_in_json codec so_far.structured_content (first ∷ path);
        },
        v',
        apply_obligations-append r os (record { type = "redact"; target = target } ∷ others)
            ∙ apply_obligations-others (redact_path codec so_far target) others rest
            ∙ redact_path-structured so_far target first path cut,
        read,
        replaced,
        refl,
        is_error-apply_obligations r os,
      )
