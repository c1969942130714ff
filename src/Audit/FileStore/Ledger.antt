-- ===== src/Audit/FileStore/Ledger.antt =====
-- What the file promises: a ledger, to which records are added at the end and from which nothing is
-- taken. The ledger knows no bytes, no lines and no writes.
use helmdeep.Base.{
  String, Option, none, some, List, [], ◌∷◌, ◌++◌, ◌≡◌, refl, sym, inl, inr, Result, ok, err,
  Result-cases, All,
}
use helmdeep.Types.{ActionRecord}
use helmdeep.Audit.FileStore.{
  Bytes, newline, RecordCodec, WriteOutcome, written, not_opened, cut_short, not_synced, FileStore,
  lines_of, compute_hash, write_line, append,
}
use helmdeep.Audit.FileStore.Lines.{lines_of-append, lines_of-line}
use helmdeep.Audit.FileStore.Chain.{
  IsFaithful, IsClean, IsIntact, IsChained, IsChained-nil, append-IsIntact, append_all,
}

abbrev pub Ledger : Type 0
Ledger = List ActionRecord

module _ (codec : RecordCodec) where
  -- The record as it enters the ledger, after the record whose hash is `prev`.
  unfoldable pub seal : String → ActionRecord → ActionRecord
  seal prev rec =
      let chained = record rec { prev_hash = prev } in
      elim (compute_hash codec chained) [
        | err e ↦ chained
        | ok hash ↦ record chained { hash = hash }
      ]

  -- The hash of the last record.
  abbrev pub last_hash_of : String → Ledger → String
  last_hash_of prev [] = prev
  last_hash_of prev (rec ∷ recs) = last_hash_of rec.hash recs

  -- One call on the ledger: a call that is answered without an error adds its record, and a call
  -- that is answered with one changes nothing.
  abbrev pub add : ActionRecord → Option String → Ledger → Ledger
  add rec none recs = recs ++ seal (last_hash_of "" recs) rec ∷ []
  add rec (some e) recs = recs

  -- A run of calls on a store, beside the ledger that its answers call for.
  unfoldable pub ledger_of : List ActionRecord → FileStore → Ledger → Ledger
  ledger_of [] s recs = recs
  ledger_of (rec ∷ more) s recs =
      let (e, s') = append codec rec s in ledger_of more s' (add rec e recs)

  -- The records that the lines of a file are.
  unfoldable pub read_all : List Bytes → Result String Ledger
  read_all [] = ok []
  read_all (line ∷ lines) =
      let rest = read_all lines in
      elim (codec.unmarshal line) [
        | err e ↦ err e
        | ok rec ↦ elim rest [ err e ↦ err e | ok recs ↦ ok (rec ∷ recs) ]
      ]

  -- Line by line, the lines read as the records.
  abbrev pub AreRead : List Bytes → Ledger → Type 0
  AreRead [] [] = Unit
  AreRead (line ∷ lines) (rec ∷ recs) = (codec.unmarshal line ≡ ok rec) × AreRead lines recs
  AreRead _ _ = ⊥

  read_all-AreRead :
      (lines : List Bytes) (recs : Ledger) → AreRead lines recs → read_all lines ≡ ok recs
  unfolding read_all
  read_all-AreRead [] [] h = refl
  read_all-AreRead (line ∷ lines) (rec ∷ recs) (read, h) =
      rw (read, read_all-AreRead lines recs h, read_all) refl
  read_all-AreRead [] (rec ∷ recs) h = absurd h
  read_all-AreRead (line ∷ lines) [] h = absurd h

  AreRead-snoc :
      (lines : List Bytes) (line : Bytes) (recs : Ledger) (rec : ActionRecord)
      → AreRead lines recs
      → codec.unmarshal line ≡ ok rec
      → AreRead (lines ++ line ∷ []) (recs ++ rec ∷ [])
  AreRead-snoc [] line [] rec h read = (read, tt)
  AreRead-snoc (l ∷ lines) line (r ∷ recs) rec (first, h) read =
      (first, AreRead-snoc lines line recs rec h read)
  AreRead-snoc [] line (r ∷ recs) rec h read = absurd h
  AreRead-snoc (l ∷ lines) line [] rec h read = absurd h

  -- The tail of a chained file is the tail of its ledger.
  tail-IsChained :
      (prev : String) (lines : List Bytes) (tail : String) (recs : Ledger)
      → IsChained codec prev lines tail
      → AreRead lines recs
      → tail ≡ last_hash_of prev recs
  tail-IsChained prev [] tail [] h e = sym h
  tail-IsChained prev (line ∷ lines) tail (r ∷ recs) (rec, read, linked, own, h) (first, e) =
      let same : rec.hash ≡ r.hash = cc in tail-IsChained r.hash lines tail recs (rw (← same) h) e
  tail-IsChained prev [] tail (r ∷ recs) h e = absurd e
  tail-IsChained prev (line ∷ lines) tail [] h e = absurd e

  -- The file holds the ledger: its chain is whole, and its lines are the records.
  pub record Holds (s : FileStore) (recs : Ledger) : Type 0 where
    pub intact : IsIntact codec s
    pub clean : All IsClean s.outcomes
    pub reads : AreRead (lines_of s.content) recs

  -- A line that is written is the record that the ledger adds.
  added-AreRead :
      (line : Bytes) (rec sealed : ActionRecord) (s : FileStore) (recs : Ledger)
      → IsFaithful codec
      → codec.marshal sealed ≡ ok line
      → Holds s recs
      → sealed ≡ seal (last_hash_of "" recs) rec
      → AreRead (lines_of (s.content ++ (line ++ newline ∷ []))) (add rec none recs)
  added-AreRead line rec sealed s recs f m h e =
      rw (lines_of-append s.content (line ++ newline ∷ []) h.intact.complete) (
        rw (lines_of-line line (f.one_line sealed line m)) (
          rw (← e) (
            AreRead-snoc (lines_of s.content) (line ++ newline ∷ []) recs sealed h.reads
              (f.reads sealed line m))))

  write_line-AreRead :
      (line : Bytes) (rec sealed : ActionRecord) (outcomes : List WriteOutcome) (s : FileStore)
      (recs : Ledger)
      → IsFaithful codec
      → codec.marshal sealed ≡ ok line
      → All IsClean outcomes
      → Holds s recs
      → sealed ≡ seal (last_hash_of "" recs) rec
      → AreRead
          (lines_of (write_line codec (line ++ newline ∷ []) sealed.hash outcomes s).1.content)
          (add rec (write_line codec (line ++ newline ∷ []) sealed.hash outcomes s).0 recs)
  unfolding write_line
  write_line-AreRead line rec sealed [] s recs f m clean h e =
      added-AreRead line rec sealed s recs f m h e
  write_line-AreRead line rec sealed (written ∷ later) s recs f m clean h e =
      added-AreRead line rec sealed s recs f m h e
  write_line-AreRead line rec sealed (not_opened x ∷ later) s recs f m clean h e = h.reads
  write_line-AreRead line rec sealed (cut_short n x ∷ later) s recs f m clean h e = absurd clean.0
  write_line-AreRead line rec sealed (not_synced x ∷ later) s recs f m clean h e = absurd clean.0

  seal-ok :
      (prev : String) (rec : ActionRecord) (hash : String)
      → compute_hash codec (record rec { prev_hash = prev }) ≡ ok hash
      → seal prev rec ≡ record rec { prev_hash = prev; hash = hash }
  unfolding seal
  seal-ok prev rec hash h = rw (h, seal) refl

  append-AreRead :
      (rec : ActionRecord) (s : FileStore) (recs : Ledger)
      → IsFaithful codec
      → Holds s recs
      → AreRead (lines_of (append codec rec s).1.content) (add rec (append codec rec s).0 recs)
  unfolding append
  append-AreRead rec s recs f h =
      let chained = record rec { prev_hash = s.last_hash } in
      elim (Result-cases (compute_hash codec chained)) [
        | inr (e, failed) ↦ rw (failed, append) h.reads
        | inl (hash, hashed) ↦
            let full = record chained { hash = hash } in
            elim (Result-cases (codec.marshal full)) [
              | inr (e, failed) ↦ rw (hashed, failed, append) h.reads
              | inl (line, m) ↦
                  rw (hashed, m, append)
                    (write_line-AreRead line rec full s.outcomes s recs f m h.clean h (
                      rw
                        (← tail-IsChained "" (lines_of s.content) s.last_hash recs h.intact.chained
                          h.reads)
                        (sym (seal-ok s.last_hash rec hash hashed))))
            ]
      ]

  append-Holds :
      (rec : ActionRecord) (s : FileStore) (recs : Ledger)
      → IsFaithful codec
      → Holds s recs
      → Holds (append codec rec s).1 (add rec (append codec rec s).0 recs)
  append-Holds rec s recs f h =
      let (intact, clean) = append-IsIntact codec rec s f h.clean h.intact in
      record { intact = intact; clean = clean; reads = append-AreRead rec s recs f h }

  AreRead-empty : AreRead (lines_of []) []
  unfolding lines_of
  AreRead-empty = tt

  append_all-Holds :
      (more : List ActionRecord) (s : FileStore) (recs : Ledger)
      → IsFaithful codec
      → Holds s recs
      → Holds (append_all codec more s) (ledger_of more s recs)
  unfolding append_all ledger_of
  append_all-Holds [] s recs f h = h
  append_all-Holds (rec ∷ more) s recs f h =
      append_all-Holds more (append codec rec s).1 (add rec (append codec rec s).0 recs) f
        (append-Holds rec s recs f h)

  -- The file store implements the ledger: from an empty file, after any calls of Append, each of
  -- whose writes succeeds or does not open the file, the lines of the file are the ledger that the
  -- answers call for: the records of the calls that gave no error, in their order, each sealed
  -- after its predecessor, and nothing else.
  pub append_all-refines :
      (more : List ActionRecord) (outcomes : List WriteOutcome)
      → IsFaithful codec
      → All IsClean outcomes
      → let s : FileStore = record { last_hash = ""; content = []; outcomes = outcomes } in
        read_all (lines_of (append_all codec more s).content) ≡ ok (ledger_of more s [])
  append_all-refines more outcomes f clean =
      let s : FileStore = record { last_hash = ""; content = []; outcomes = outcomes } in
      read_all-AreRead _ _
        (append_all-Holds more s [] f (record {
          intact = record { complete = tt; chained = IsChained-nil codec };
          clean = clean;
          reads = AreRead-empty;
        })).reads
