-- ===== src/Audit/FileStore/Recovery.antt =====
-- What NewFileStore finds in a file that Append wrote.
use helmdeep.Base.{ℕ, ◌∷◌, ◌≡◌, ok}
use helmdeep.Types.{ActionRecord}
use helmdeep.Audit.FileStore.{Bytes, RecordCodec, FileStore, scan_line}

module _ (codec : RecordCodec) where
  -- A text that encoding/json reads as a record is not blank, and the line end is no part of it.
  abbrev pub IgnoresLineEnd : Type 0
  IgnoresLineEnd =
      (line : Bytes) (rec : ActionRecord)
      → codec.unmarshal line ≡ ok rec
      → (b : ℕ) × (bs : Bytes) × (scan_line line ≡ b ∷ bs) × (codec.unmarshal (b ∷ bs) ≡ ok rec)
