-- ===== src/Audit.antt =====
-- pkg/audit: the action record store. An operation that succeeds returns no error.
pub mod FileStore
use helmdeep.Base.{String, Option}
use helmdeep.Types.{ActionRecord}

pub record Store (W : Type 0) : Type 0 where
  pub append : ActionRecord → W → Option String × W
  pub verify : W → Option String × W
