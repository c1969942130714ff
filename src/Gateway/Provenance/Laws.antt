-- ===== src/Gateway/Provenance/Laws.antt =====
-- What the cache answers: the exact effect of one recording, the bound on its size, and that
-- nothing is trusted which no trusted upstream returned to the same subject within the time to live.
use helmdeep.Base.{
  ℕ, ◌+◌, ◌≤◌, ◌<◌, String, Bool, some, List, [], ◌∷◌, ◌≡◌, ◌≢◌, refl, ◌==◌, eq_iff, ltb, leb,
  if◌then◌else◌, Dict, lookup, insert, lookup-insert, length, length-insert-le, arith, Bool-cases,
  inl, inr, map, ◌∙◌,
}
use helmdeep.Json.{Json, str, arr, obj, Fields, end, field, fields, Elems, nil, cons, elems}
use helmdeep.Types.{Provenance}
use helmdeep.Gateway.Provenance.{
  CachedProvenance, ProvenanceCache, untrusted_provenance, entries, room, record_value, resolve,
  record_string, record_fields, record_elems, record_top_level_strings,
}

-- The subject's cache is full, so that the next recording clears it.
abbrev pub is_full : ProvenanceCache → String → Bool
is_full c subject = leb c.max_size (length (entries (lookup subject c.by_subject)))

-- After `prov` is recorded for a value of a subject: that value of that subject resolves to `prov`
-- until the time to live is over; its other values resolve as before, or to the untrusted default
-- if the subject's cache was full; those of the other subjects resolve as before.
pub resolve-record :
    (c : ProvenanceCache) (s v : String) (prov : Provenance) (now : ℕ) (s' v' : String) (later : ℕ)
    → v ≢ ""
    → resolve (record_value c s v prov now) s' v' later ≡ (
        if s == s'
        then (if v == v'
            then (if ltb later (now + c.ttl) then prov else untrusted_provenance)
            else if is_full c s
            then untrusted_provenance
            else resolve c s' v' later)
        else resolve c s' v' later)
unfolding resolve record_value
resolve-record c s v prov now s' v' later h =
    let m = room c.max_size (entries (lookup s c.by_subject)) in
    let entry : CachedProvenance = record { provenance = prov; expires_at = now + c.ttl } in
    ground (
      arith,
      eq_iff v "",
      eq_iff s s',
      lookup-insert s s' (insert v entry m) c.by_subject,
      lookup-insert v v' entry m,
    )

pub record IsBounded (c : ProvenanceCache) : Type 0 where
  pub at :
      (s : String) (m : Dict CachedProvenance)
      → lookup s c.by_subject ≡ some m
      → length m ≤ c.max_size

length-room-le :
    (cap : ℕ) (v : String) (e : CachedProvenance) (m : Dict CachedProvenance)
    → 0 < cap
    → length (insert v e (room cap m)) ≤ cap
length-room-le cap v e m pos = ground (arith, length-insert-le v e m)

record-IsBounded :
    (c : ProvenanceCache) (s v : String) (prov : Provenance) (now : ℕ)
    → 0 < c.max_size
    → IsBounded c
    → IsBounded (record_value c s v prov now)
      × ((record_value c s v prov now).max_size ≡ c.max_size)
unfolding record_value
record-IsBounded c s v prov now pos h = elim (Bool-cases (v == "")) [
  | inl empty ↦ rw empty (h, refl)
  | inr text ↦
      let joined = room c.max_size (entries (lookup s c.by_subject)) in
      let entry : CachedProvenance = record { provenance = prov; expires_at = now + c.ttl } in
      rw text (
        record {
          at = λ s' m e. ground (
            arith,
            lookup-insert s s' (insert v entry joined) c.by_subject,
            h.at s' m,
            length-room-le c.max_size v entry (entries (lookup s c.by_subject)) pos,
          );
        },
        refl,
      )
]

-- The values that `recordTopLevelStrings` looks at.
abbrev pub top_level : Json → List Json
top_level (obj fs) = map (λ f. f.1) (fields fs)
top_level (arr vs) = elems vs
top_level v = v ∷ []

unfoldable pub record_list : ProvenanceCache → String → List Json → Provenance → ℕ → ProvenanceCache
record_list c s [] prov now = c
record_list c s (v ∷ vs) prov now = record_list (record_string c s v prov now) s vs prov now

record_fields-eq-list :
    (c : ProvenanceCache) (s : String) (fs : Fields) (prov : Provenance) (now : ℕ)
    → record_fields c s fs prov now ≡ record_list c s (map (λ f. f.1) (fields fs)) prov now
unfolding record_fields record_list
record_fields-eq-list c s end prov now = refl
record_fields-eq-list c s (field k v fs) prov now =
    record_fields-eq-list (record_string c s v prov now) s fs prov now

record_elems-eq-list :
    (c : ProvenanceCache) (s : String) (vs : Elems) (prov : Provenance) (now : ℕ)
    → record_elems c s vs prov now ≡ record_list c s (elems vs) prov now
unfolding record_elems record_list
record_elems-eq-list c s nil prov now = refl
record_elems-eq-list c s (cons v vs) prov now =
    record_elems-eq-list (record_string c s v prov now) s vs prov now

pub record_top-eq-list :
    (c : ProvenanceCache) (s : String) (decoded : Json) (prov : Provenance) (now : ℕ)
    → record_top_level_strings c s decoded prov now ≡ record_list c s (top_level decoded) prov now
unfolding record_top_level_strings record_list
record_top-eq-list c s (obj fs) prov now = record_fields-eq-list c s fs prov now
record_top-eq-list c s (arr vs) prov now = record_elems-eq-list c s vs prov now
record_top-eq-list c s _ prov now = refl

record_string-IsBounded :
    (c : ProvenanceCache) (s : String) (v : Json) (prov : Provenance) (now : ℕ)
    → 0 < c.max_size
    → IsBounded c
    → IsBounded (record_string c s v prov now)
      × ((record_string c s v prov now).max_size ≡ c.max_size)
unfolding record_string
record_string-IsBounded c s (str v) prov now pos h = record-IsBounded c s v prov now pos h
record_string-IsBounded c s _ prov now pos h = (h, refl)

record_list-IsBounded :
    (c : ProvenanceCache) (s : String) (vs : List Json) (prov : Provenance) (now : ℕ)
    → 0 < c.max_size
    → IsBounded c
    → IsBounded (record_list c s vs prov now)
      × ((record_list c s vs prov now).max_size ≡ c.max_size)
unfolding record_list
record_list-IsBounded c s [] prov now pos h = (h, refl)
record_list-IsBounded c s (v ∷ vs) prov now pos h =
    let (h', cap) = record_string-IsBounded c s v prov now pos h in
    let (h'', cap') =
      record_list-IsBounded (record_string c s v prov now) s vs prov now (omega arith) h' in
    (h'', cap' ∙ cap)

-- No subject ever holds more than `maxSize` entries, whatever a tool result contains, and the
-- bound itself does not change.
pub record_top-IsBounded :
    (c : ProvenanceCache) (s : String) (decoded : Json) (prov : Provenance) (now : ℕ)
    → 0 < c.max_size
    → IsBounded c
    → IsBounded (record_top_level_strings c s decoded prov now)
      × ((record_top_level_strings c s decoded prov now).max_size ≡ c.max_size)
record_top-IsBounded c s decoded prov now pos h =
    rw (record_top-eq-list c s decoded prov now)
      (record_list-IsBounded c s (top_level decoded) prov now pos h)
