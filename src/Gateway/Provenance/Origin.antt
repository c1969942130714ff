-- ===== src/Gateway/Provenance/Origin.antt =====
-- Where a trusted label comes from: the tool results that the gateway saw, the newest first.
use helmdeep.Base.{
  ℕ, ◌+◌, ◌<◌, String, Bool, true, false, List, [], ◌∷◌, ◌≡◌, refl, ◌⊎◌, inl, inr, ◌==◌, eq_iff,
  ltb, if◌then◌else◌, arith, Any, here, there, Bool-cases,
}
use helmdeep.Json.{Json, str}
use helmdeep.Types.{Provenance}
use helmdeep.Gateway.Provenance.{
  ProvenanceCache, new_provenance_cache, provenance_cache_ttl, untrusted_provenance, record_value,
  record_string, record_top_level_strings, resolve,
}
use helmdeep.Gateway.Provenance.Laws.{
  resolve-record, top_level, record_list, record_top-eq-list, is_full,
}

-- A tool result, with the label of the upstream that returned it.
pub record Seen : Type 0 where
  pub subject : String
  pub decoded : Json
  pub provenance : Provenance
  pub time : ℕ

unfoldable pub replay : List Seen → ProvenanceCache
replay [] = new_provenance_cache
replay (x ∷ xs) = record_top_level_strings (replay xs) x.subject x.decoded x.provenance x.time

-- The result was returned to this subject, under this label, with the text at its top level, and
-- less than the time to live ago.
pub record Vouches (s v : String) (later : ℕ) (p : Provenance) (x : Seen) : Type 0 where
  pub subject : x.subject ≡ s
  pub contains : Any (λ w. w ≡ str v) (top_level x.decoded)
  pub label : x.provenance ≡ p
  pub recent : later < x.time + provenance_cache_ttl

-- `P s v later p` says why the value may carry the label `p`.
record Justified (P : String → String → ℕ → Provenance → Type 0) (c : ProvenanceCache)
    : Type 0 where
  at :
      (s v : String) (later : ℕ)
      → (resolve c s v later ≡ untrusted_provenance) ⊎ P s v later (resolve c s v later)
  ttl : c.ttl ≡ provenance_cache_ttl

pick :
    (Q : Provenance → Type 0) (b : Bool) {p q : Provenance}
    → (b ≡ true → Q p)
    → (b ≡ false → Q q)
    → Q (if b then p else q)
pick Q true f g = f refl
pick Q false f g = g refl

module _ (P : String → String → ℕ → Provenance → Type 0) where
  Justified-record :
      (c : ProvenanceCache) (s v : String) (prov : Provenance) (now : ℕ)
      → ((later : ℕ) → later < now + provenance_cache_ttl → P s v later prov)
      → Justified P c
      → Justified P (record_value c s v prov now)
  unfolding record_value
  Justified-record c s v prov now new h = elim (Bool-cases (v == "")) [
    | inl empty ↦ rw empty h
    | inr text ↦ record {
      ttl = rw text h.ttl;
      at = λ s' v' later.
          let Q : Provenance → Type 0 = λ p. (p ≡ untrusted_provenance) ⊎ P s' v' later p in
          rw (resolve-record c s v prov now s' v' later (ground (arith, eq_iff v ""))) (
            pick Q (s == s')
              (λ es.
                pick Q (v == v')
                  (λ ev.
                    pick Q (ltb later (now + c.ttl))
                      (λ soon. inr (
                        rw (← (eq_iff s s').0 es, ← (eq_iff v v').0 ev)
                          (new later (ground (arith, h.ttl)))))
                      (λ _. inl refl))
                  (λ _. pick Q (is_full c s) (λ _. inl refl) (λ _. h.at s' v' later)))
              (λ _. h.at s' v' later));
    }
  ]

  Justified-string :
      (c : ProvenanceCache) (s : String) (w : Json) (prov : Provenance) (now : ℕ)
      → ((v : String) (later : ℕ)
          → w ≡ str v
          → later < now + provenance_cache_ttl
          → P s v later prov)
      → Justified P c
      → Justified P (record_string c s w prov now)
  unfolding record_string
  Justified-string c s (str v) prov now new h =
      Justified-record c s v prov now (λ later. new v later refl) h
  Justified-string c s _ prov now new h = h

  Justified-list :
      (c : ProvenanceCache) (s : String) (vs : List Json) (prov : Provenance) (now : ℕ)
      → ((v : String) (later : ℕ)
          → Any (λ w. w ≡ str v) vs
          → later < now + provenance_cache_ttl
          → P s v later prov)
      → Justified P c
      → Justified P (record_list c s vs prov now)
  unfolding record_list
  Justified-list c s [] prov now new h = h
  Justified-list c s (v ∷ vs) prov now new h =
      Justified-list (record_string c s v prov now) s vs prov now
        (λ w later m. new w later (there m))
        (Justified-string c s v prov now (λ w later e. new w later (here e)) h)

  Justified-weaken :
      (R : String → String → ℕ → Provenance → Type 0) (c : ProvenanceCache)
      → ((s v : String) (later : ℕ) (p : Provenance) → R s v later p → P s v later p)
      → Justified R c
      → Justified P c
  Justified-weaken R c f h = record {
    ttl = h.ttl;
    at = λ s v later. elim (h.at s v later) [ inl e ↦ inl e | inr r ↦ inr (f s v later _ r) ];
  }

-- The reason for a label: some result vouches for it.
abbrev Vouched : List Seen → String → String → ℕ → Provenance → Type 0
Vouched seen s v later p = Any (Vouches s v later p) seen

resolve-new :
    (s v : String) (later : ℕ) → resolve new_provenance_cache s v later ≡ untrusted_provenance
unfolding resolve
resolve-new s v later = refl

replay-Justified : (seen : List Seen) → Justified (Vouched seen) (replay seen)
unfolding replay
replay-Justified [] = record { at = λ s v later. inl (resolve-new s v later); ttl = refl }
replay-Justified (x ∷ xs) =
    let P = Vouched (x ∷ xs) in
    let old =
      Justified-weaken P (Vouched xs) (replay xs) (λ s v later p a. there a)
        (replay-Justified xs) in
    rw (record_top-eq-list (replay xs) x.subject x.decoded x.provenance x.time) (
      Justified-list P (replay xs) x.subject (top_level x.decoded) x.provenance x.time
        (λ v later m soon.
          here (record { subject = refl; contains = m; label = refl; recent = soon }))
        old)

-- Every label that says `trusted` was given by an upstream: some result that the gateway returned
-- to the same subject, less than the time to live ago and under that very label, has the value at
-- its top level.
pub resolve-trusted :
    (seen : List Seen) (s v : String) (later : ℕ)
    → (resolve (replay seen) s v later).trusted ≡ true
    → Any (Vouches s v later (resolve (replay seen) s v later)) seen
resolve-trusted seen s v later h = elim ((replay-Justified seen).at s v later) [
  | inl e ↦ absurd (ground (arith, e))
  | inr a ↦ a
]
