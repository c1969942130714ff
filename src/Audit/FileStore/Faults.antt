-- ===== src/Audit/FileStore/Faults.antt =====
-- A write that reaches the file but whose sync fails: Append reports the error and keeps the old
-- tail, and the file keeps the line.
use mathlib.Core.Path.{subst}
use mathlib.Core.List.{append-nil, append_assoc}
use helmdeep.Base.{
  String, Option, none, List, [], ◌∷◌, ◌++◌, ◌≡◌, ◌≢◌, refl, sym, ap, ◌∙◌, Result, ok, arith, some,
  inl, inr, Result-cases,
}
use helmdeep.Types.{ActionRecord}
use helmdeep.Audit.FileStore.{
  Bytes, newline, RecordCodec, WriteOutcome, written, not_opened, cut_short, not_synced, take,
  VerifyError, FileStore, lines_of, compute_hash, write_line, append, verify_lines, verify,
}
use helmdeep.Audit.FileStore.Lines.{lines_of-append, lines_of-line, IsComplete-append-line}
use helmdeep.Audit.FileStore.Chain.{
  IsFaithful, IsIntact, IsChained, append_all, verify_lines_sound, added-IsIntact,
}

module _ (codec : RecordCodec) where
  write_line_grows :
      (line : Bytes) (hash : String) (outcomes : List WriteOutcome) (s : FileStore)
      → (more : Bytes) × ((write_line codec line hash outcomes s).1.content ≡ s.content ++ more)
  unfolding write_line
  write_line_grows line hash [] s = (line, refl)
  write_line_grows line hash (written ∷ later) s = (line, refl)
  write_line_grows line hash (not_opened e ∷ later) s = ([], sym (append-nil s.content))
  write_line_grows line hash (cut_short n e ∷ later) s = (take n line, refl)
  write_line_grows line hash (not_synced e ∷ later) s = (line, refl)

  append_grows :
      (rec : ActionRecord) (s : FileStore)
      → (more : Bytes) × ((append codec rec s).1.content ≡ s.content ++ more)
  unfolding append
  append_grows rec s =
      let chained = record rec { prev_hash = s.last_hash } in
      elim (Result-cases (compute_hash codec chained)) [
        | inr (e, unhashed) ↦ ([], rw (unhashed, append) (sym (append-nil s.content)))
        | inl (hash, hashed) ↦
            elim (Result-cases (codec.marshal (record chained { hash = hash }))) [
              | inr (e, unwritten) ↦
                  ([], rw (hashed, unwritten, append) (sym (append-nil s.content)))
              | inl (line, marshalled) ↦
                  let (more, grown) = write_line_grows (line ++ newline ∷ []) hash s.outcomes s in
                  (more, rw (hashed, marshalled, append) grown)
            ]
      ]

  -- Appends only add to the file.
  append_all_grows :
      (recs : List ActionRecord) (s : FileStore)
      → (more : Bytes) × ((append_all codec recs s).content ≡ s.content ++ more)
  unfolding append_all
  append_all_grows [] s = ([], sym (append-nil s.content))
  append_all_grows (rec ∷ recs) s =
      let (some_more, grown) = append_grows rec s in
      let (rest, grown') = append_all_grows recs (append codec rec s).1 in
      (
        some_more ++ rest,
        grown' ∙ ap (λ c. c ++ rest) grown ∙ append_assoc s.content some_more rest,
      )

  -- The record as Append writes it after the hash `prev`, with its line.
  pub record Written (prev : String) (rec : ActionRecord) : Type 0 where
    pub hash : String
    pub line : Bytes
    pub hashed : compute_hash codec (record rec { prev_hash = prev }) ≡ ok hash
    pub marshalled : codec.marshal (record rec { prev_hash = prev; hash = hash }) ≡ ok line

  IsChained-rest :
      (prev : String) (lines more : List Bytes) (mid tail : String)
      → IsChained codec prev lines mid
      → IsChained codec prev (lines ++ more) tail
      → IsChained codec mid more tail
  IsChained-rest prev [] more mid tail h k = rw (← h) k
  IsChained-rest prev (line ∷ lines) more mid tail (rec, read, linked, own, h)
        (rec', read', l', o', k) =
      let same : rec' ≡ rec = cc in
      IsChained-rest rec.hash lines more mid tail h (rw (ap (λ r. r.hash) same) at k)

  prev_hash_of :
      (a b : ActionRecord)
      → ◌≡◌ {A = Result String ActionRecord} (ok a) (ok b)
      → a.prev_hash ≡ b.prev_hash
  prev_hash_of a b h = ground arith

  module _ (s : FileStore) (e : String) (first second : ActionRecord)
      (w : Written s.last_hash first) (v : Written s.last_hash second) (later : List WriteOutcome)
      (next : s.outcomes ≡ not_synced e ∷ written ∷ later) where
    -- The file with the first line, and then with the second too.
    abbrev once : Bytes
    once = s.content ++ (w.line ++ newline ∷ [])

    append_unsynced :
        append codec first s
        ≡ (some e, record { last_hash = s.last_hash; content = once; outcomes = written ∷ later })
    unfolding append
    append_unsynced = ground (arith, next, w.hashed, w.marshalled)

    append_after :
        append codec second
          (record { last_hash = s.last_hash; content = once; outcomes = written ∷ later })
        ≡ (
          none,
          record {
            last_hash = v.hash;
            content = once ++ (v.line ++ newline ∷ []);
            outcomes = later;
          },
        )
    unfolding append
    append_after = ground (arith, v.hashed, v.marshalled)

    append_both :
        (append_all codec (first ∷ second ∷ []) s).content ≡ once ++ (v.line ++ newline ∷ [])
    unfolding append_all
    append_both =
        ap (λ x. (append codec second x.1).1.content) append_unsynced
        ∙ ap (λ x. x.1.content) append_after

    lines_both :
        IsFaithful codec
        → lines_of (once ++ (v.line ++ newline ∷ []))
          ≡ lines_of once ++ (v.line ++ newline ∷ []) ∷ []
    lines_both f =
        lines_of-append once (v.line ++ newline ∷ []) (IsComplete-append-line s.content w.line)
        ∙ ap (λ l. lines_of once ++ l)
            (lines_of-line v.line (
              f.one_line (record second { prev_hash = s.last_hash; hash = v.hash }) v.line
                v.marshalled))

    -- A file that goes on after the two lines is refused: the second names another predecessor.
    refused :
        (more : Bytes) (n : Option VerifyError)
        → IsFaithful codec
        → IsIntact codec s
        → w.hash ≢ s.last_hash
        → verify_lines codec 1 "" (lines_of ((once ++ (v.line ++ newline ∷ [])) ++ more)) ≡ n
        → n ≢ none
    unfolding compute_hash
    refused more n f h differ found accepted =
        let one = record first { prev_hash = s.last_hash; hash = w.hash } in
        let two = record second { prev_hash = s.last_hash; hash = v.hash } in
        let kept = added-IsIntact codec one w.line [] s f w.marshalled refl w.hashed h in
        let split : lines_of ((once ++ (v.line ++ newline ∷ [])) ++ more)
            ≡ lines_of once ++ ((v.line ++ newline ∷ []) ∷ lines_of more) =
          lines_of-append (once ++ (v.line ++ newline ∷ [])) more
            (IsComplete-append-line once v.line)
          ∙ ap (λ ls. ls ++ lines_of more) (lines_both f)
          ∙ append_assoc (lines_of once) ((v.line ++ newline ∷ []) ∷ []) (lines_of more) in
        let (tail, chained) = verify_lines_sound codec 1 "" _ (found ∙ accepted) in
        let (rec, read, linked, own, _) =
          IsChained-rest "" (lines_of once) ((v.line ++ newline ∷ []) ∷ lines_of more) w.hash tail
            kept.chained (subst (λ ls. IsChained codec "" ls tail) split chained) in
        let same : ok rec ≡ ok two = sym read ∙ f.reads two v.line v.marshalled in
        differ (sym linked ∙ prev_hash_of rec two same)

    append_all_both :
        (recs : List ActionRecord)
        → (more : Bytes) × ((append_all codec (first ∷ second ∷ recs) s).content
            ≡ (once ++ (v.line ++ newline ∷ [])) ++ more)
    unfolding append_all
    append_all_both recs =
        let both : FileStore = record {
          last_hash = v.hash;
          content = once ++ (v.line ++ newline ∷ []);
          outcomes = later;
        } in
        let (more, grown) = append_all_grows recs both in
        (
          more,
          ap (λ x. (append_all codec recs (append codec second x.1).1).content) append_unsynced
              ∙ ap (λ x. (append_all codec recs x.1).content) append_after
              ∙ grown,
        )

    -- On an intact file, one failed sync that is followed by a write that succeeds breaks the chain for
    -- good, where the first record has another hash than the one before it: Append reports success for
    -- the second record, but writes it, right after the line whose sync failed, with the hash before
    -- that line as its predecessor; and whatever is appended after it, and however those writes go,
    -- Verify refuses the file. A record is read back from its line, which has no line end within.
    pub verify_after_failed_sync :
        IsFaithful codec
        → IsIntact codec s
        → w.hash ≢ s.last_hash
        → ((append codec second (append codec first s).1).0 ≡ none)
          × ((append_all codec (first ∷ second ∷ []) s).content
              ≡ (s.content ++ (w.line ++ newline ∷ [])) ++ (v.line ++ newline ∷ []))
          × (codec.unmarshal (v.line ++ newline ∷ [])
              ≡ ok (record second { prev_hash = s.last_hash; hash = v.hash }))
          × ((recs : List ActionRecord)
              → verify codec (append_all codec (first ∷ second ∷ recs) s) ≢ none)
    unfolding verify
    verify_after_failed_sync f h differ = (
      ap (λ x. (append codec second x.1).0) append_unsynced ∙ ap (λ x. x.0) append_after,
      append_both,
      f.reads (record second { prev_hash = s.last_hash; hash = v.hash }) v.line v.marshalled,
      λ recs.
          let (more, grown) = append_all_both recs in
          refused more _ f h differ (ap (λ c. verify_lines codec 1 "" (lines_of c)) (sym grown)),
    )
