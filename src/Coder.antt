-- ===== src/Coder.antt =====
-- The `Coder` trait of babel/src/compression.rs, and `NoCoder`, which is used where the archive is
-- not compressed. The zstd coders are the crate's, and stand for values of this record.
use blockvisor.Common.{ℕ, Option, none, some, List, []}

pub record Coder : Type 1 where
  pub State : Type 0
  pub initial : State
  pub feed : State → List ℕ → Option State
  pub consume : State → Option (List ℕ × State)
  pub finalize : State → Option (List ℕ)

abbrev pub or_empty : Option (List ℕ) → List ℕ
or_empty none = []
or_empty (some buffer) = buffer

-- Its state is `data`; `take()` leaves `none` behind.
abbrev pub no_coder : Coder
no_coder = record {
  State = Option (List ℕ);
  initial = none;
  feed = λ state buffer. some (some buffer);
  consume = λ state. some (or_empty state, none);
  finalize = λ state. some (or_empty state);
}
