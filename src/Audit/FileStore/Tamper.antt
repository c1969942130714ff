-- ===== src/Audit/FileStore/Tamper.antt =====
-- What the hash of the last record says of the whole file.
use helmdeep.Base.{String, List, [], ◌∷◌, ◌≡◌, ◌≢◌, Result, ok, err}
use helmdeep.Types.{ActionRecord}
use helmdeep.Audit.FileStore.{
  Bytes, Hashable, hashable, RecordCodec, FileStore, lines_of, compute_hash,
}

module _ (codec : RecordCodec) where
  -- The bytes that are hashed of a record.
  abbrev pub payload : ActionRecord → Result String Bytes
  payload rec = codec.marshal_hashable (hashable rec)

  -- The records of the lines, the newest first, on top of those of earlier lines.
  unfoldable pub newest_first : List ActionRecord → List Bytes → List ActionRecord
  newest_first older [] = older
  newest_first older (line ∷ lines) = elim (codec.unmarshal line) [
    | err e ↦ newest_first older lines
    | ok rec ↦ newest_first (rec ∷ older) lines
  ]

  -- A chain read backwards from its last hash.
  abbrev pub ReachesBack : String → List ActionRecord → Type 0
  ReachesBack tail [] = tail ≡ ""
  ReachesBack tail (rec ∷ older) =
      (rec.hash ≡ tail) × (compute_hash codec rec ≡ ok rec.hash) × ReachesBack rec.prev_hash older

  -- Two different texts with one hash.
  pub record Collision : Type 0 where
    pub left : Bytes
    pub right : Bytes
    pub differ : left ≢ right
    pub same_hash : codec.sha256_hex left ≡ codec.sha256_hex right

  -- A hash is never the empty text, and the hashed text shows the hash of the predecessor.
  pub record IsHashing : Type 0 where
    pub sha256_hex-ne-empty : (b : Bytes) → codec.sha256_hex b ≢ ""
    pub shows_prev_hash :
        (g h : Hashable) (b : Bytes)
        → codec.marshal_hashable g ≡ ok b
        → codec.marshal_hashable h ≡ ok b
        → g.prev_hash ≡ h.prev_hash

  -- The hash of the last record of a file, "" if it has none.
  abbrev last_hash_of : List ActionRecord → String
  last_hash_of [] = ""
  last_hash_of (rec ∷ older) = rec.hash

  unfoldable pub tail_of : FileStore → String
  tail_of s = last_hash_of (newest_first [] (lines_of s.content))
