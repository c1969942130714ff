-- ===== src/Audit/FileStore/Chain.antt =====
-- Appending keeps the chain that Verify checks, and what a verified chain determines.
use helmdeep.Base.{
  ℕ, suc, String, none, List, [], ◌∷◌, ◌++◌, ◌≡◌, refl, inl, inr, eq_iff, eq_refl, ok, Result-cases,
  All, arith,
}
use helmdeep.Types.{ActionRecord}
use helmdeep.Audit.FileStore.{
  Bytes, newline, RecordCodec, WriteOutcome, written, not_opened, cut_short, not_synced, FileStore,
  lines_of, compute_hash, write_line, append, verify_lines, verify,
}
use helmdeep.Audit.FileStore.Lines.{
  IsComplete, HasNoNewline, lines_of-append, lines_of-line, IsComplete-append-line,
}

-- encoding/json writes a record on one line, and reads what it wrote back.
pub record IsFaithful (codec : RecordCodec) : Type 0 where
  pub one_line :
      (rec : ActionRecord) (line : Bytes) → codec.marshal rec ≡ ok line → HasNoNewline line
  pub reads :
      (rec : ActionRecord) (line : Bytes)
      → codec.marshal rec ≡ ok line
      → codec.unmarshal (line ++ newline ∷ []) ≡ ok rec

-- A write that leaves the file whole: it succeeds, or the file does not open.
abbrev pub IsClean : WriteOutcome → Type 0
IsClean written = Unit
IsClean (not_opened e) = Unit
IsClean (cut_short n e) = ⊥
IsClean (not_synced e) = ⊥

module _ (codec : RecordCodec) where
  -- The lines are records, each with the hash of its predecessor and its own; `tail` is the last.
  abbrev pub IsChained : String → List Bytes → String → Type 0
  IsChained prev [] tail = prev ≡ tail
  IsChained prev (line ∷ lines) tail =
      (rec : ActionRecord) × (codec.unmarshal line ≡ ok rec)
      × (rec.prev_hash ≡ prev)
      × (compute_hash codec rec ≡ ok rec.hash)
      × IsChained rec.hash lines tail

  pub verify_lines_complete :
      (n : ℕ) (prev : String) (lines : List Bytes) (tail : String)
      → IsChained prev lines tail
      → verify_lines codec n prev lines ≡ none
  unfolding verify_lines
  verify_lines_complete n prev [] tail h = refl
  verify_lines_complete n prev (line ∷ lines) tail (rec, read, linked, own, h) = ground (
    arith,
    read,
    linked,
    own,
    eq_iff rec.prev_hash prev,
    eq_refl rec.hash,
    verify_lines_complete (suc n) rec.hash lines tail h,
  )

  pub verify_lines_sound :
      (n : ℕ) (prev : String) (lines : List Bytes)
      → verify_lines codec n prev lines ≡ none
      → (tail : String) × IsChained prev lines tail
  unfolding verify_lines
  verify_lines_sound n prev [] h = (prev, refl)
  verify_lines_sound n prev (line ∷ lines) h = elim (Result-cases (codec.unmarshal line)) [
    | inr (e, unread) ↦ absurd (ground (arith, unread))
    | inl (rec, read) ↦ elim (Result-cases (compute_hash codec rec)) [
      | inr (e, unhashed) ↦ absurd (ground (arith, read, unhashed))
      | inl (want, hashed) ↦
          let (tail, rest) =
            verify_lines_sound (suc n) rec.hash lines
              (ground (arith, read, hashed, eq_iff rec.hash want)) in
          (
            tail,
            (
              rec,
              read,
              ground (arith, read, hashed, eq_iff rec.prev_hash prev),
              ground (arith, read, hashed, eq_iff rec.hash want),
              rest,
            ),
          )
    ]
  ]

  pub IsChained-append :
      (prev : String) (lines more : List Bytes) (mid tail : String)
      → IsChained prev lines mid
      → IsChained mid more tail
      → IsChained prev (lines ++ more) tail
  IsChained-append prev [] more mid tail h k = rw h k
  IsChained-append prev (line ∷ lines) more mid tail (rec, read, linked, own, h) k =
      (rec, read, linked, own, IsChained-append rec.hash lines more mid tail h k)

  -- The store's tail is the last hash of the chain that its file holds.
  pub record IsIntact (s : FileStore) : Type 0 where
    pub complete : IsComplete s.content
    pub chained : IsChained "" (lines_of s.content) s.last_hash

  pub verify_of_IsIntact : (s : FileStore) → IsIntact s → verify codec s ≡ none
  unfolding verify
  verify_of_IsIntact s h = verify_lines_complete 1 "" (lines_of s.content) s.last_hash h.chained

  pub added-IsIntact :
      (rec : ActionRecord) (line : Bytes) (outcomes : List WriteOutcome) (s : FileStore)
      → IsFaithful codec
      → codec.marshal rec ≡ ok line
      → rec.prev_hash ≡ s.last_hash
      → compute_hash codec rec ≡ ok rec.hash
      → IsIntact s
      → IsIntact (record {
        last_hash = rec.hash;
        content = s.content ++ (line ++ newline ∷ []);
        outcomes = outcomes;
      })
  added-IsIntact rec line outcomes s f m linked own h = record {
    complete = IsComplete-append-line s.content line;
    chained = rw (lines_of-append s.content (line ++ newline ∷ []) h.complete) (
        rw (lines_of-line line (f.one_line rec line m)) (
          IsChained-append "" (lines_of s.content) ((line ++ newline ∷ []) ∷ []) s.last_hash
            rec.hash h.chained (rec, f.reads rec line m, linked, own, refl)));
  }

  write_line-IsIntact :
      (rec : ActionRecord) (line : Bytes) (outcomes : List WriteOutcome) (s : FileStore)
      → IsFaithful codec
      → codec.marshal rec ≡ ok line
      → rec.prev_hash ≡ s.last_hash
      → compute_hash codec rec ≡ ok rec.hash
      → All IsClean outcomes
      → IsIntact s
      → IsIntact (write_line codec (line ++ newline ∷ []) rec.hash outcomes s).1
        × All IsClean (write_line codec (line ++ newline ∷ []) rec.hash outcomes s).1.outcomes
  unfolding write_line
  write_line-IsIntact rec line [] s f m linked own clean h =
      (added-IsIntact rec line [] s f m linked own h, tt)
  write_line-IsIntact rec line (written ∷ later) s f m linked own clean h =
      (added-IsIntact rec line later s f m linked own h, clean.1)
  write_line-IsIntact rec line (not_opened e ∷ later) s f m linked own clean h =
      (record { complete = h.complete; chained = h.chained }, clean.1)
  write_line-IsIntact rec line (cut_short n e ∷ later) s f m linked own clean h = absurd clean.0
  write_line-IsIntact rec line (not_synced e ∷ later) s f m linked own clean h = absurd clean.0

  pub append-IsIntact :
      (rec : ActionRecord) (s : FileStore)
      → IsFaithful codec
      → All IsClean s.outcomes
      → IsIntact s
      → IsIntact (append codec rec s).1 × All IsClean (append codec rec s).1.outcomes
  unfolding append
  append-IsIntact rec s f clean h =
      let chained = record rec { prev_hash = s.last_hash } in
      elim (Result-cases (compute_hash codec chained)) [
        | inr (e, failed) ↦ rw (failed, append) (h, clean)
        | inl (hash, hashed) ↦
            let full = record chained { hash = hash } in
            elim (Result-cases (codec.marshal full)) [
              | inr (e, failed) ↦ rw (hashed, failed, append) (h, clean)
              | inl (line, m) ↦
                  rw (hashed, m, append)
                    (write_line-IsIntact full line s.outcomes s f m refl hashed clean h)
            ]
      ]

  -- The store after these records have been appended, whatever each Append answered.
  unfoldable pub append_all : List ActionRecord → FileStore → FileStore
  append_all [] s = s
  append_all (rec ∷ recs) s = append_all recs (append codec rec s).1

  pub append_all-IsIntact :
      (recs : List ActionRecord) (s : FileStore)
      → IsFaithful codec
      → All IsClean s.outcomes
      → IsIntact s
      → IsIntact (append_all recs s)
  unfolding append_all
  append_all-IsIntact [] s f clean h = h
  append_all-IsIntact (rec ∷ recs) s f clean h =
      let (intact, clean') = append-IsIntact rec s f clean h in
      append_all-IsIntact recs (append codec rec s).1 f clean' intact

  pub IsChained-nil : IsChained "" (lines_of []) ""
  unfolding lines_of
  IsChained-nil = refl

  -- From an empty file, whatever records are appended, Verify finds no fault, as long as each write
  -- either succeeds or does not open the file.
  pub verify-append_all :
      (recs : List ActionRecord) (outcomes : List WriteOutcome)
      → IsFaithful codec
      → All IsClean outcomes
      → verify codec
          (append_all recs (record { last_hash = ""; content = []; outcomes = outcomes }))
        ≡ none
  verify-append_all recs outcomes f clean = verify_of_IsIntact _ (
      append_all-IsIntact recs (record { last_hash = ""; content = []; outcomes = outcomes }) f
        clean (record { complete = tt; chained = IsChained-nil }))
