-- ===== src/Gateway/Usage.antt =====
-- internal/gateway/usage.go: a counter of calls for each subject over a fixed window. The mutex
-- makes each operation one step. Times are nanoseconds, so that `now.Sub(start) >= window` reads
-- start + window ≤ now; counters do not wrap.
pub mod Window
use Prim.Native.Nat.{◌/◌}
use helmdeep.Base.{ℕ, ◌+◌, String, Option, none, some, [], leb, if◌then◌else◌, Dict, lookup, insert}
use helmdeep.Types.{Usage}

pub record WindowState : Type 0 where
  pub start : ℕ
  pub count : ℕ

pub record UsageTracker : Type 0 where
  pub window : ℕ
  pub state : Dict WindowState

-- time.Minute
abbrev pub default_usage_window : ℕ
default_usage_window = 60_000_000_000

abbrev pub new_usage_tracker : UsageTracker
new_usage_tracker = record { window = default_usage_window; state = [] }

-- The window that a call at `now` counts in: the subject's own, or a new one from `now`.
current_window : ℕ → ℕ → Option WindowState → WindowState
current_window window now none = record { start = now; count = 0 }
current_window window now (some s) =
    if leb (s.start + window) now then record { start = now; count = 0 } else s

-- `recordAndCount`
pub record_and_count : UsageTracker → String → ℕ → ℕ × UsageTracker
unfolding current_window
record_and_count t subject_id now =
    let s = current_window t.window now (lookup subject_id t.state) in
    let counted = record s { count = s.count + 1 } in
    (counted.count, record t { state = insert subject_id counted t.state })

pub peek : UsageTracker → String → ℕ → ℕ
peek t subject_id now = elim (lookup subject_id t.state) [
  | none ↦ 0
  | some s ↦ if leb (s.start + t.window) now then 0 else s.count
]

abbrev pub window_seconds : UsageTracker → ℕ
window_seconds t = t.window / 1_000_000_000

-- `usageTracker.usage`
unfoldable pub usage : UsageTracker → String → ℕ → Usage × UsageTracker
usage t subject_id now =
    let (count, t') = record_and_count t subject_id now in
    (record { calls_in_window = count; window_seconds = window_seconds t }, t')

unfoldable pub usage_peek : UsageTracker → String → ℕ → Usage
usage_peek t subject_id now = record {
  calls_in_window = peek t subject_id now;
  window_seconds = window_seconds t;
}
