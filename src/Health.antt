-- ===== src/Health.antt =====
-- internal/health/health.go: the liveness and the readiness endpoint. A check is asked in the order
-- of the list; what a goroutine and a deadline make of one is `Ran`.
pub mod Laws
use helmdeep.Base.{ℕ, String, not, ◌&&◌, ◌==◌, Option, none, some, List, [], ◌∷◌, if◌then◌else◌}

-- `done` carries the error of the check, if any; a check that does not come back in time, or that
-- starts after the deadline, is `late` with the error of the context where that is seen first.
pub data Ran : Type 0 where
  done : Option String → Ran
  late : String → Ran

-- `run` is the check in its goroutine, beside the two seconds that all the checks of a request share.
pub record Check (W : Type 0) : Type 0 where
  pub name : String
  pub run : W → Ran × W

pub record Response : Type 0 where
  pub status : String
  pub failed : List String

-- `allow` is the header Allow; `body` is none where nothing is written.
pub record HealthReply : Type 0 where
  pub code : ℕ
  pub allow : String
  pub body : Option Response

abbrev pub write_json : ℕ → Response → HealthReply
write_json code v = record { code = code; allow = ""; body = some v }

abbrev pub method_guard : {W : Type 0} → (W → HealthReply × W) → String → W → HealthReply × W
method_guard next method w =
    if not (method == "GET") && not (method == "HEAD")
    then (record { code = 405; allow = "GET, HEAD"; body = none }, w)
    else next w

-- The select of runCheck: an error, or none.
abbrev pub run_error : Ran → Option String
run_error (done e) = e
run_error (late e) = some e

abbrev pub run_check : {W : Type 0} → Check W → W → Option String × W
run_check c w = let (ran, w') = c.run w in (run_error ran, w')

unfoldable pub livez : {W : Type 0} → String → W → HealthReply × W
livez = method_guard (λ w. (write_json 200 (record { status = "ok"; failed = [] }), w))

-- The loop of Healthz: the names of the checks that fail.
unfoldable pub failing : {W : Type 0} → List (Check W) → W → List String × W
failing [] w = ([], w)
failing (c ∷ cs) w =
    let (e, w') = run_check c w in
    let (names, w'') = failing cs w' in (elim e [ none ↦ names | some x ↦ c.name ∷ names ], w'')

abbrev pub reported : List String → HealthReply
reported [] = write_json 200 (record { status = "ok"; failed = [] })
reported (name ∷ names) = write_json 503 (record { status = "unhealthy"; failed = name ∷ names })

unfoldable pub healthz : {W : Type 0} → List (Check W) → String → W → HealthReply × W
unfolding failing
healthz checks = method_guard (λ w. let (names, w') = failing checks w in (reported names, w'))
