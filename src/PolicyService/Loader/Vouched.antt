-- ===== src/PolicyService/Loader/Vouched.antt =====
-- The verifying loader over the OPA decider: what a load changes, and what the active policy is after
-- any loads and reloads.
use helmdeep.Base.{
  String, Option, none, some, List, [], ◌∷◌, ◌++◌, ◌==◌, ok, ◌≡◌, ◌≢◌, ◌⊎◌, refl, sym, ap, inl, inr,
  Bool-cases, Option-cases, Result-cases,
}
use helmdeep.Policy.Opa
use helmdeep.Policy.Opa.{Engine, OpaDecider, new_opa_decider}
use helmdeep.PolicyService.Bundle.{Bytes, Manifest, Crypto, verify, digest}
use helmdeep.PolicyService.Bundle.Laws.{IsAuthentic, Matches, verify_iff}
use helmdeep.PolicyService.Loader.{
  Files, LoadError, VerifyingLoader, new_verifying_loader, verify_bundle, load, reload,
}

-- A load of a path, or a reload: with the state of the file system when the bundle is verified, and
-- the one when it is compiled.
pub data Step (W : Type 0) : Type 0 where
  load_at : String → (w w' : W) → Step W
  reload_at : (w w' : W) → Step W

abbrev pub verified_at : {W : Type 0} → Step W → W
verified_at (load_at path w w') = w
verified_at (reload_at w w') = w

abbrev pub compiled_at : {W : Type 0} → Step W → W
compiled_at (load_at path w w') = w'
compiled_at (reload_at w w') = w'

module _ {W Query : Type 0} (crypto : Crypto) (files : Files W) (engine : Engine W Query) where
  abbrev pub Loader : Type 0
  Loader = VerifyingLoader (OpaDecider Query)

  abbrev pub step : Step W → Loader → Option LoadError × Loader
  step (load_at path w w') l = load crypto files (Opa.load engine) path w w' l
  step (reload_at w w') l = reload crypto files (Opa.load engine) w w' l

  abbrev pub run : List (Step W) → Loader → Loader
  run [] l = l
  run (s ∷ steps) l = run steps (step s l).1

  -- The active policy is what the loader's path compiled to at the time `w'`, and the bundle there
  -- matched, at the time `w`, an authentic manifest that has the version and the digest of the active
  -- reference.
  pub record IsCurrent (w w' : W) (l : Loader) : Type 0 where
    pub query : Query
    pub m : Manifest
    pub prepared : l.inner.prepared ≡ some query
    pub compiles : engine.prepare l.path w' ≡ ok query
    pub read : files.read_manifest l.manifest_path w ≡ ok m
    pub authentic : IsAuthentic crypto m l.pub_key
    pub matching : Matches crypto m (files.open_bundle l.path w)
    pub versioned : l.active.version ≡ m.version
    pub digested : digest crypto m ≡ ok l.active.digest

  -- Each of the steps fails, and changes nothing.
  abbrev pub AllFail : List (Step W) → Loader → Type 0
  AllFail [] l = Unit
  AllFail (s ∷ steps) l = ((step s l).0 ≢ none) × ((step s l).1 ≡ l) × AllFail steps l

  -- Some step was the last to succeed, and what it verified and compiled is what is active.
  pub record IsVouched (steps : List (Step W)) (l : Loader) : Type 0 where
    pub before : List (Step W)
    pub last : Step W
    pub after : List (Step W)
    pub split : steps ≡ before ++ (last ∷ after)
    pub succeeded : (step last (run before l)).0 ≡ none
    pub kept : (step last (run before l)).1 ≡ run steps l
    pub idle : AllFail after (run steps l)
    pub current : IsCurrent (verified_at last) (compiled_at last) (run steps l)

  -- A load that fails, in reading, verifying or compiling, changes nothing; after one that succeeds
  -- the active policy is what the path compiled to, and the bundle there matched an authentic manifest
  -- when it was verified.
  pub load_lem :
      (path : String) (w w' : W) (l : Loader)
      → (((load crypto files (Opa.load engine) path w w' l).0 ≢ none)
          × ((load crypto files (Opa.load engine) path w w' l).1 ≡ l))
        ⊎ (((load crypto files (Opa.load engine) path w w' l).0 ≡ none)
            × IsCurrent w w' (load crypto files (Opa.load engine) path w w' l).1
            × ((load crypto files (Opa.load engine) path w w' l).1.path ≡ path))
  unfolding load verify_bundle Opa.load
  load_lem path w w' l = elim (Result-cases (files.read_manifest l.manifest_path w)) [
    | inr (e, unread) ↦
        inl (rw (unread, load, verify_bundle) (λ k. cc), rw (unread, load, verify_bundle))
    | inl (m, read) ↦ elim (Option-cases (verify crypto (files.open_bundle path w) m l.pub_key)) [
      | inr (e, bad) ↦
          inl (rw (read, bad, load, verify_bundle) (λ k. cc), rw (read, bad, load, verify_bundle))
      | inl good ↦ elim (Result-cases (digest crypto m)) [
        | inr (e, none_) ↦ inl (
          rw (read, good, none_, load, verify_bundle) (λ k. cc),
          rw (read, good, none_, load, verify_bundle),
        )
        | inl (sum, summed) ↦ elim (Result-cases (engine.prepare path w')) [
          | inr (e, rejected) ↦ inl (
            rw (read, good, summed, rejected, load, verify_bundle, Opa.load) (λ k. cc),
            rw (read, good, summed, rejected, load, verify_bundle, Opa.load),
          )
          | inl (query, fits) ↦
              let (authentic, matching) =
                (verify_iff crypto (files.open_bundle path w) m l.pub_key).0 good in
              inr (
                rw (read, good, summed, fits, load, verify_bundle, Opa.load)
                  (
                    refl,
                    record {
                      query = query;
                      m = m;
                      prepared = refl;
                      compiles = fits;
                      read = read;
                      authentic = authentic;
                      matching = matching;
                      versioned = refl;
                      digested = summed;
                    },
                    refl,
                  ))
        ]
      ]
    ]
  ]

  -- What the next two say of a step.
  abbrev Outcome : Step W → Loader → Type 0
  Outcome s l =
      (((step s l).0 ≢ none) × ((step s l).1 ≡ l))
      ⊎ (((step s l).0 ≡ none) × IsCurrent (verified_at s) (compiled_at s) (step s l).1)

  load-Outcome : (path : String) (w w' : W) (l : Loader) → Outcome (load_at path w w') l
  load-Outcome path w w' l = elim (load_lem path w w' l) [
    | inl failed ↦ inl failed
    | inr (done, current, at) ↦ inr (done, current)
  ]

  step-Outcome : (s : Step W) (l : Loader) → Outcome s l
  unfolding reload
  step-Outcome (load_at path w w') l = load-Outcome path w w' l
  step-Outcome (reload_at w w') l = elim (Bool-cases (l.path == "")) [
    | inl empty ↦ inl (rw (empty, reload) (λ k. cc), rw (empty, reload))
    | inr path ↦ rw (path, reload) (load-Outcome l.path w w' l)
  ]

  extended :
      (s : Step W) (steps : List (Step W)) (l : Loader)
      → IsVouched steps (step s l).1
      → IsVouched (s ∷ steps) l
  extended s steps l v = record {
    before = s ∷ v.before;
    last = v.last;
    after = v.after;
    split = ap (λ ss. s ∷ ss) v.split;
    succeeded = v.succeeded;
    kept = v.kept;
    idle = v.idle;
    current = v.current;
  }

  run_outcome :
      (steps : List (Step W)) (l : Loader)
      → (AllFail steps l × (run steps l ≡ l)) ⊎ IsVouched steps l
  run_outcome [] l = inl (tt, refl)
  run_outcome (s ∷ steps) l = elim (step-Outcome s l) [
    | inl (failed, same) ↦ elim (run_outcome steps l) [
      | inl (all_fail, idle) ↦ inl ((failed, same, all_fail), rw same idle)
      | inr v ↦ inr (extended s steps l (rw same v))
    ]
    | inr (done, current) ↦ elim (run_outcome steps (step s l).1) [
      | inr v ↦ inr (extended s steps l v)
      | inl (all_fail, idle) ↦ inr (record {
        before = [];
        last = s;
        after = steps;
        split = refl;
        succeeded = done;
        kept = sym idle;
        idle = rw idle all_fail;
        current = rw idle current;
      })
    ]
  ]

  -- After any loads and reloads, whatever the file system held when each verified and when each
  -- compiled: either none succeeded and the loader is as it was made, with no policy active and no
  -- bundle named; or the active policy is what the last one that succeeded compiled from its path,
  -- where the bundle, when that one verified it, matched an authentic manifest, and the active
  -- reference has the version and the digest of that manifest.
  pub vouched :
      (manifest_path : String) (pub_key : Bytes) (steps : List (Step W))
      → (AllFail steps (new_verifying_loader new_opa_decider manifest_path pub_key)
          × (run steps (new_verifying_loader new_opa_decider manifest_path pub_key)
              ≡ new_verifying_loader new_opa_decider manifest_path pub_key))
        ⊎ IsVouched steps (new_verifying_loader new_opa_decider manifest_path pub_key)
  vouched manifest_path pub_key steps =
      run_outcome steps (new_verifying_loader new_opa_decider manifest_path pub_key)
