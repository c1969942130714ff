-- ===== src/Gateway/Usage/Window.antt =====
-- What the counters say: within a window the calls of a subject are numbered in order, whatever
-- the other subjects do, and asking costs nothing.
use helmdeep.Base.{
  ℕ, suc, ◌+◌, ◌≤◌, ◌<◌, String, none, some, List, [], ◌∷◌, ◌≡◌, refl, ap, ◌==◌, eq_iff, ◌∙◌,
  if◌then◌else◌, lookup, lookup-insert, lookup-insert_self, arith, All, Bool-cases, inl, inr, false,
}
use helmdeep.Gateway.Usage.{WindowState, UsageTracker, current_window, record_and_count, peek}

-- The numbers that successive calls of one subject are given.
pub counts : UsageTracker → String → List ℕ → List ℕ
counts t id [] = []
counts t id (now ∷ later) =
    (record_and_count t id now).0 ∷ counts (record_and_count t id now).1 id later

-- The same in a run where calls of all subjects mix.
pub counts_among : UsageTracker → String → List (String × ℕ) → List ℕ
counts_among t id [] = []
counts_among t id ((caller, now) ∷ later) =
    let rest = counts_among (record_and_count t caller now).1 id later in
    if caller == id then (record_and_count t caller now).0 ∷ rest else rest

-- The times of the calls of one subject.
abbrev pub times_of : String → List (String × ℕ) → List ℕ
times_of id [] = []
times_of id ((caller, now) ∷ later) =
    let rest = times_of id later in if caller == id then now ∷ rest else rest

abbrev pub count_from : ℕ → List ℕ → List ℕ
count_from n [] = []
count_from n (x ∷ xs) = n ∷ count_from (suc n) xs

-- Two trackers that agree on a subject number its calls alike.
record Agree (id : String) (t u : UsageTracker) : Type 0 where
  window : t.window ≡ u.window
  at : lookup id t.state ≡ lookup id u.state

Agree-record :
    (id : String) (now : ℕ) (t u : UsageTracker)
    → Agree id t u
    → ((record_and_count t id now).0 ≡ (record_and_count u id now).0)
      × Agree id (record_and_count t id now).1 (record_and_count u id now).1
unfolding record_and_count
Agree-record id now t u h =
    let same : current_window t.window now (lookup id t.state)
        ≡ current_window u.window now (lookup id u.state) =
      rw (h.window, h.at) refl in
    (
      ap (λ s. s.count + 1) same,
      record { window = h.window; at = simp lookup-insert_self (ground (arith, same)) },
    )

Agree-other :
    (id caller : String) (now : ℕ) (t u : UsageTracker)
    → (caller == id) ≡ false
    → Agree id t u
    → Agree id (record_and_count t caller now).1 u
unfolding record_and_count
Agree-other id caller now t u ne h = record {
  window = h.window;
  at = simp lookup-insert (rw ne h.at);
}

counts_among_eq :
    (t u : UsageTracker) (id : String) (events : List (String × ℕ))
    → Agree id t u
    → counts_among t id events ≡ counts u id (times_of id events)
unfolding counts_among counts
counts_among_eq t u id [] h = refl
counts_among_eq t u id ((caller, now) ∷ later) h = elim (Bool-cases (caller == id)) [
  | inl same ↦
      let (number, agree) = Agree-record id now t u h in
      rw same (
        rw ((eq_iff caller id).0 same) (
          cc (
            number,
            counts_among_eq (record_and_count t id now).1 (record_and_count u id now).1 id later
                agree,
          )))
  | inr other ↦ rw other (
      counts_among_eq (record_and_count t caller now).1 u id later
        (Agree-other id caller now t u other h))
]

-- The number that a call gets is one more than what `peek` answers at that moment, and `peek`
-- answers it from then on until the window ends.
pub peek-record :
    (t : UsageTracker) (id : String) (now : ℕ)
    → 0 < t.window
    → ((record_and_count t id now).0 ≡ peek t id now + 1)
      × (peek (record_and_count t id now).1 id now ≡ (record_and_count t id now).0)
unfolding record_and_count peek
peek-record t id now h =
    let s = current_window t.window now (lookup id t.state) in
    let kept = lookup-insert_self id (record s { count = s.count + 1 }) t.state in
    (ground arith, ground (arith, kept))

-- The subject has no window, or its window has ended.
abbrev pub IsIdle : UsageTracker → String → ℕ → Type 0
IsIdle t id now = elim (lookup id t.state) [ none ↦ Unit | some s ↦ s.start + t.window ≤ now ]

counts_open :
    (t : UsageTracker) (id : String) (s : WindowState) (times : List ℕ)
    → lookup id t.state ≡ some s
    → All (λ now. now < s.start + t.window) times
    → counts t id times ≡ count_from (suc s.count) times
unfolding counts record_and_count
counts_open t id s [] e h = refl
counts_open t id s (now ∷ later) e (early, h) =
    let same : current_window t.window now (lookup id t.state) ≡ s = rw e (ground arith) in
    let t' = (record_and_count t id now).1 in
    let s' : WindowState = record { start = s.start; count = suc s.count } in
    let kept : lookup id t'.state ≡ some s' = simp lookup-insert_self (rw same (ground arith)) in
    ground (arith, same, counts_open t' id s' later kept h)

counts_first :
    (t : UsageTracker) (id : String) (first : ℕ) (later : List ℕ)
    → IsIdle t id first
    → All (λ now. now < first + t.window) later
    → counts t id (first ∷ later) ≡ count_from 1 (first ∷ later)
unfolding counts record_and_count
counts_first t id first later idle h =
    let s : WindowState = record { start = first; count = 0 } in
    let same : current_window t.window first (lookup id t.state) ≡ s = ground arith in
    let t' = (record_and_count t id first).1 in
    let s' : WindowState = record { start = first; count = 1 } in
    let kept : lookup id t'.state ≡ some s' = simp lookup-insert_self (rw same (ground arith)) in
    ground (arith, same, counts_open t' id s' later kept h)

-- From a moment at which a subject has no running window, its calls within one window's length are
-- numbered 1, 2, 3, …, whatever the calls of other subjects between them.
pub calls_numbered :
    (t : UsageTracker) (id : String) (events : List (String × ℕ)) (first : ℕ) (later : List ℕ)
    → times_of id events ≡ first ∷ later
    → IsIdle t id first
    → All (λ now. now < first + t.window) later
    → counts_among t id events ≡ count_from 1 (first ∷ later)
calls_numbered t id events first later e idle h =
    counts_among_eq t t id events (record { window = refl; at = refl })
    ∙ rw e (counts_first t id first later idle h)
