-- ===== src/Health/Laws.antt =====
-- When a probe succeeds.
use helmdeep.Base.{
  String, ◌≡◌, ◌⊎◌, ◌↔◌, none, List, [], ◌∷◌, refl, inl, inr, ◌==◌, not, ◌&&◌, true, false, eq_iff,
  arith, Option-cases,
}
use helmdeep.Health.{Check, run_check, failing, reported, healthz}

abbrev pub IsProbe : String → Type 0
IsProbe method = (method ≡ "GET") ⊎ (method ≡ "HEAD")

IsProbe-cases :
    (method : String)
    → (IsProbe method × ((not (method == "GET") && not (method == "HEAD")) ≡ false))
      ⊎ ((¬ IsProbe method) × ((not (method == "GET") && not (method == "HEAD")) ≡ true))
IsProbe-cases method = ground (arith, eq_iff method "GET", eq_iff method "HEAD")

reported-200 : (names : List String) → ((reported names).code ≡ 200) ↔ (names ≡ [])
reported-200 [] = (λ h. refl, λ h. refl)
reported-200 (name ∷ names) = (λ h. absurd (omega arith), λ h. absurd cc)

reported-503 : (names : List String) → ((reported names).code ≡ 503) ↔ (¬ (names ≡ []))
reported-503 [] = (λ h. absurd (omega arith), λ h. absurd (h refl))
reported-503 (name ∷ names) = (λ h. λ e. cc, λ h. refl)

module _ {W : Type 0} where
  -- Each check, asked after those before it, gives no error.
  abbrev pub AllPass : List (Check W) → W → Type 0
  AllPass [] w = Unit
  AllPass (c ∷ cs) w = ((run_check c w).0 ≡ none) × AllPass cs (run_check c w).1

  failing-none : (cs : List (Check W)) (w : W) → ((failing cs w).0 ≡ []) ↔ AllPass cs w
  unfolding failing
  failing-none [] w = ground arith
  failing-none (c ∷ cs) w = elim (Option-cases (run_check c w).0) [
    | inl passes ↦
        let (to, from) = failing-none cs (run_check c w).1 in
        (λ h. (passes, to (rw (passes, failing) at h)), λ (p, h). rw (passes, failing) (from h))
    | inr (e, fails) ↦ (λ h. absurd (let k = rw (fails, failing) at h in cc), λ (p, h). absurd cc)
  ]

  -- A probe with GET or HEAD is answered 200 where every check passes, each asked in its turn, and
  -- 503 where some check does not; with any other method it is answered
  -- 405, naming the two, and asks no check.
  pub healthz-code :
      (cs : List (Check W)) (method : String) (w : W)
      → (((healthz cs method w).0.code ≡ 200) ↔ (IsProbe method × AllPass cs w))
        × (((healthz cs method w).0.code ≡ 503) ↔ (IsProbe method × ¬ AllPass cs w))
        × ((¬ IsProbe method)
            → healthz cs method w ≡ (record { code = 405; allow = "GET, HEAD"; body = none }, w))
  unfolding healthz
  healthz-code cs method w = elim (IsProbe-cases method) [
    | inl (probe, passes) ↦
        let (to, from) = failing-none cs w in
        let (ok_to, ok_from) = reported-200 (failing cs w).0 in
        let (bad_to, bad_from) = reported-503 (failing cs w).0 in
        rw (passes, healthz)
          (
            (λ h. (probe, to (ok_to h)), λ (p, h). ok_from (from h)),
            (
              λ h. (probe, λ all. bad_to h (from all)),
              λ (p, h). bad_from (λ none_fail. h (to none_fail)),
            ),
            λ other. absurd (other probe),
          )
    | inr (other, refused) ↦
        rw (refused, healthz)
          (
            (λ h. absurd (omega arith), λ (p, h). absurd (other p)),
            (λ h. absurd (omega arith), λ (p, h). absurd (other p)),
            λ h. refl,
          )
  ]
