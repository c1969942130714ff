-- ===== src/Audit/FileStore.antt =====
-- pkg/audit/file_store.go: a file of records, one JSON text to a line, chained by their hashes.
-- The mutex makes each operation one step. The file is its bytes, and what the operating system
-- does to the next writes is a list of outcomes, read in order; past its end every write succeeds.
pub mod Lines
pub mod Chain
pub mod Tamper
pub mod Ledger
pub mod Faults
pub mod Recovery
use helmdeep.Base.{
  ℕ, zero, suc, ◌+◌, ◌-◌, String, Bool, true, false, ◌&&◌, Option, none, some, List, [], ◌∷◌, ◌++◌,
  ◌==◌, ltb, leb, if◌then◌else◌, Result, ok, err, length, ◌||◌,
}
use helmdeep.Base.Text.{eqb}
use helmdeep.Types.{Subject, Action, DecisionResponse, PolicyBundleRef, ActionRecord}

abbrev pub Bytes : Type 0
Bytes = List ℕ

abbrev pub newline : ℕ
newline = 10

-- What is hashed of a record: all but the hash itself.
pub record Hashable : Type 0 where
  pub timestamp : ℕ
  pub subject : Subject
  pub action : Action
  pub decision : DecisionResponse
  pub outcome : String
  pub policy_bundle : Option PolicyBundleRef
  pub prev_hash : String

-- encoding/json on records, and crypto/sha256 with encoding/hex.
pub record RecordCodec : Type 0 where
  pub marshal_hashable : Hashable → Result String Bytes
  pub marshal : ActionRecord → Result String Bytes
  pub unmarshal : Bytes → Result String ActionRecord
  pub sha256_hex : Bytes → String

-- What becomes of one write of a line: it is written and synced; or the file does not open; or only
-- some first bytes are written; or the line is written and the sync fails.
pub data WriteOutcome : Type 0 where
  written : WriteOutcome
  not_opened : String → WriteOutcome
  cut_short : ℕ → String → WriteOutcome
  not_synced : String → WriteOutcome

pub record FileStore : Type 0 where
  pub last_hash : String
  pub content : Bytes
  pub outcomes : List WriteOutcome

-- What Verify reports, with the number of the line.
pub data VerifyError : Type 0 where
  not_json : ℕ → VerifyError
  broken_chain : ℕ → VerifyError
  no_hash : ℕ → VerifyError
  altered : ℕ → VerifyError

abbrev pub hashable : ActionRecord → Hashable
hashable rec = record {
  timestamp = rec.timestamp;
  subject = rec.subject;
  action = rec.action;
  decision = rec.decision;
  outcome = rec.outcome;
  policy_bundle = rec.policy_bundle;
  prev_hash = rec.prev_hash;
}

abbrev pub take : ℕ → Bytes → Bytes
take zero bs = []
take (suc n) [] = []
take (suc n) (b ∷ bs) = b ∷ take n bs

-- The lines of the file with their line ends, as `ReadBytes` cuts them; the last may lack its own.
abbrev pub push_byte : ℕ → List Bytes → List Bytes
push_byte b [] = (b ∷ []) ∷ []
push_byte b (line ∷ lines) = (b ∷ line) ∷ lines

unfoldable pub lines_of : Bytes → List Bytes
lines_of [] = []
lines_of (b ∷ bs) =
    let rest = lines_of bs in if eqb b newline then (b ∷ []) ∷ rest else push_byte b rest

-- `bufio.ScanLines` drops the line end, a carriage return included.
abbrev pub drop_last : ℕ → Bytes → Bytes
drop_last k [] = []
drop_last k (b ∷ []) = if eqb b k then [] else b ∷ []
drop_last k (b ∷ c ∷ bs) = b ∷ drop_last k (c ∷ bs)

unfoldable pub scan_line : Bytes → Bytes
scan_line line = drop_last 13 (drop_last newline line)

-- The buffer of the scanner: 8 MiB. It takes a line with its line end, or a last line that leaves a
-- byte free for the end of the file to be seen.
abbrev pub max_line : ℕ
max_line = 8_388_608

abbrev pub is_scannable : Bytes → Bool
is_scannable line = ltb (length (drop_last newline line)) max_line

abbrev pub too_long : String
too_long = "read audit log: bufio.Scanner: token too long"

module _ (codec : RecordCodec) where
  unfoldable pub compute_hash : ActionRecord → Result String String
  compute_hash rec = elim (codec.marshal_hashable (hashable rec)) [
    | err e ↦ err e
    | ok b ↦ ok (codec.sha256_hex b)
  ]

  -- Opening, writing and syncing, and the new tail where all three succeed.
  unfoldable pub write_line :
      Bytes → String → List WriteOutcome → FileStore → Option String × FileStore
  write_line line hash [] s =
      (none, record { last_hash = hash; content = s.content ++ line; outcomes = [] })
  write_line line hash (written ∷ later) s =
      (none, record { last_hash = hash; content = s.content ++ line; outcomes = later })
  write_line line hash (not_opened e ∷ later) s = (some e, record s { outcomes = later })
  write_line line hash (cut_short n e ∷ later) s =
      (some e, record s { content = s.content ++ take n line; outcomes = later })
  write_line line hash (not_synced e ∷ later) s =
      (some e, record s { content = s.content ++ line; outcomes = later })

  unfoldable pub append : ActionRecord → FileStore → Option String × FileStore
  unfolding compute_hash write_line
  append rec s =
      let chained = record rec { prev_hash = s.last_hash } in
      elim (compute_hash chained) [
        | err e ↦ (some e, s)
        | ok hash ↦ elim (codec.marshal (record chained { hash = hash })) [
          | err e ↦ (some e, s)
          | ok line ↦ write_line (line ++ newline ∷ []) hash s.outcomes s
        ]
      ]

  -- The loop of Verify from a line on; none where it reaches the end.
  unfoldable pub verify_lines : ℕ → String → List Bytes → Option VerifyError
  unfolding compute_hash
  verify_lines n prev [] = none
  verify_lines n prev (line ∷ lines) = elim (codec.unmarshal line) [
    | err e ↦ some (not_json n)
    | ok rec ↦
        let rest = verify_lines (suc n) rec.hash lines in
        if rec.prev_hash == prev
        then elim (compute_hash rec) [
          | err e ↦ some (no_hash n)
          | ok want ↦ if rec.hash == want then rest else some (altered n)
        ]
        else some (broken_chain n)
  ]

  unfoldable pub verify : FileStore → Option VerifyError
  unfolding verify_lines lines_of
  verify s = verify_lines 1 "" (lines_of s.content)

  -- The loop of NewFileStore: the hash of the last record, empty lines skipped, and the error of
  -- the first line that is no record or that the scanner cannot hold.
  unfoldable pub recover_tail : String → List Bytes → Result String String
  recover_tail tail [] = ok tail
  recover_tail tail (line ∷ lines) = elim (is_scannable line) [
    | false ↦ err too_long
    | true ↦ elim (scan_line line) [
      | [] ↦ recover_tail tail lines
      | ◌∷◌ b bs ↦ elim (codec.unmarshal (b ∷ bs)) [
        | err e ↦ err e
        | ok rec ↦ recover_tail rec.hash lines
      ]
    ]
  ]

  unfoldable pub new_file_store : Bytes → List WriteOutcome → Result String FileStore
  unfolding recover_tail lines_of scan_line
  new_file_store content outcomes = elim (recover_tail "" (lines_of content)) [
    | err e ↦ err e
    | ok tail ↦ ok (record { last_hash = tail; content = content; outcomes = outcomes })
  ]
