-- ===== src/Gateway/Provenance.antt =====
-- internal/gateway/provenance.go: which upstream a text value was seen to come from, for each
-- subject, with a time to live and a bound on the size.
pub mod Laws
pub mod Origin
use helmdeep.Base.{
  ℕ, ◌+◌, String, false, Option, none, some, List, [], ◌∷◌, ◌==◌, ltb, leb, if◌then◌else◌, Dict,
  lookup, insert, length,
}
use helmdeep.Json.{Json, null, bool, num, str, arr, obj, Fields, end, field, Elems, nil, cons}
use helmdeep.Types.{Provenance}

pub record CachedProvenance : Type 0 where
  pub provenance : Provenance
  pub expires_at : ℕ

pub record ProvenanceCache : Type 0 where
  pub ttl : ℕ
  pub max_size : ℕ
  pub by_subject : Dict (Dict CachedProvenance)

-- 15 * time.Minute
abbrev pub provenance_cache_ttl : ℕ
provenance_cache_ttl = 900_000_000_000

abbrev pub provenance_cache_max_size : ℕ
provenance_cache_max_size = 256

abbrev pub new_provenance_cache : ProvenanceCache
new_provenance_cache = record {
  ttl = provenance_cache_ttl;
  max_size = provenance_cache_max_size;
  by_subject = [];
}

abbrev pub untrusted_provenance : Provenance
untrusted_provenance = record { source = "unspecified"; trusted = false }

-- The subject's entries, as `record` finds or creates them.
abbrev pub entries : Option (Dict CachedProvenance) → Dict CachedProvenance
entries none = []
entries (some m) = m

-- The entries that a new one joins: none, once they are `max_size` or more.
abbrev pub room : ℕ → Dict CachedProvenance → Dict CachedProvenance
room max_size m = if leb max_size (length m) then [] else m

-- `provenanceCache.record`
pub record_value : ProvenanceCache → String → String → Provenance → ℕ → ProvenanceCache
record_value c subject_id value prov now = if value == "" then c else record c {
  by_subject =
      insert subject_id
        (insert value (record { provenance = prov; expires_at = now + c.ttl })
          (room c.max_size (entries (lookup subject_id c.by_subject))))
        c.by_subject;
}

abbrev live : ℕ → Option CachedProvenance → Provenance
live now none = untrusted_provenance
live now (some cp) = if ltb now cp.expires_at then cp.provenance else untrusted_provenance

unfoldable pub resolve : ProvenanceCache → String → String → ℕ → Provenance
resolve c subject_id value now = elim (lookup subject_id c.by_subject) [
  | none ↦ untrusted_provenance
  | some m ↦ live now (lookup value m)
]

-- One round of the loops of `recordTopLevelStrings`: only a text is recorded.
pub record_string : ProvenanceCache → String → Json → Provenance → ℕ → ProvenanceCache
unfolding record_value
record_string c subject_id (str s) prov now = record_value c subject_id s prov now
record_string c subject_id _ prov now = c

record_fields : ProvenanceCache → String → Fields → Provenance → ℕ → ProvenanceCache
unfolding record_string
record_fields c subject_id end prov now = c
record_fields c subject_id (field k v fs) prov now =
    record_fields (record_string c subject_id v prov now) subject_id fs prov now

record_elems : ProvenanceCache → String → Elems → Provenance → ℕ → ProvenanceCache
unfolding record_string
record_elems c subject_id nil prov now = c
record_elems c subject_id (cons v vs) prov now =
    record_elems (record_string c subject_id v prov now) subject_id vs prov now

unfoldable pub record_top_level_strings :
    ProvenanceCache → String → Json → Provenance → ℕ → ProvenanceCache
unfolding record_fields record_elems
record_top_level_strings c subject_id (obj fs) prov now = record_fields c subject_id fs prov now
record_top_level_strings c subject_id (arr vs) prov now = record_elems c subject_id vs prov now
record_top_level_strings c subject_id v prov now = record_string c subject_id v prov now
