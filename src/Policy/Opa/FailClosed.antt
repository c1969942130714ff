-- ===== src/Policy/Opa/FailClosed.antt =====
-- When the decider allows, and which policy is active.
use helmdeep.Base.{
  String, none, some, List, [], ◌∷◌, ◌≡◌, ◌≢◌, refl, sym, ◌==◌, eq_iff, ◌⊎◌, inl, inr, ok, arith,
  if◌then◌else◌, true, Result-cases, Option-cases, Bool-cases, ap, ◌∙◌,
}
use helmdeep.Json.{Json}
use helmdeep.Types.{
  DecisionRequest, DecisionResponse, outcome_allow, outcome_deny, outcome_allow_with_obligations,
}
use helmdeep.Gateway.Calls.{is_allowed}
use helmdeep.Policy.Opa.{
  RegoDecision, Engine, OpaDecider, load, reload, respond, read_results, evaluate, decide,
}

-- A denial is not allowed.
refuse : (r : DecisionResponse) → r.outcome ≡ outcome_deny → is_allowed r.outcome ≡ true → ⊥
refuse r e h = let k : is_allowed outcome_deny ≡ true = rw e at h in cc

module _ {Disk Query : Type 0} (engine : Engine Disk Query) where
  -- The policy was evaluated without an error, and the first expression of its first result reads
  -- as the decision `rd`.
  pub record Answered (d : OpaDecider Query) (req : DecisionRequest) (rd : RegoDecision)
      : Type 0 where
    pub query : Query
    pub input : Json
    pub value : Json
    pub values : List Json
    pub results : List (List Json)
    pub raw : String
    pub loaded : d.prepared ≡ some query
    pub built : engine.input_of req ≡ ok input
    pub evaluated : engine.eval query input ≡ ok ((value ∷ values) ∷ results)
    pub marshalled : engine.marshal value ≡ ok raw
    pub parsed : engine.parse raw ≡ ok rd

  outcome-respond :
      (rd : RegoDecision)
      → (respond engine rd).outcome ≡ (
          if rd.outcome == outcome_allow
          then outcome_allow
          else if rd.outcome == outcome_allow_with_obligations
          then outcome_allow_with_obligations
          else outcome_deny)
  unfolding respond
  outcome-respond rd = elim (Bool-cases (rd.outcome == outcome_allow)) [
    | inl a ↦ rw a
    | inr a ↦ elim (Bool-cases (rd.outcome == outcome_allow_with_obligations)) [
      | inl b ↦ rw (a, b)
      | inr b ↦ elim (Bool-cases (rd.outcome == outcome_deny)) [
        | inl c ↦ rw (a, b, c)
        | inr c ↦ rw (a, b, c)
      ]
    ]
  ]

  respond_allows :
      (rd : RegoDecision)
      → is_allowed (respond engine rd).outcome ≡ true
      → (is_allowed rd.outcome ≡ true) × ((respond engine rd).outcome ≡ rd.outcome)
  respond_allows rd h = elim (Bool-cases (rd.outcome == outcome_allow)) [
    | inl a ↦ (rw a, outcome-respond rd ∙ rw a (sym ((eq_iff _ _).0 a)))
    | inr a ↦ elim (Bool-cases (rd.outcome == outcome_allow_with_obligations)) [
      | inl b ↦ (rw (a, b), outcome-respond rd ∙ rw (a, b) (sym ((eq_iff _ _).0 b)))
      | inr b ↦ absurd (refuse (respond engine rd) (outcome-respond rd ∙ rw (a, b)) h)
    ]
  ]

  read_allows :
      (results : List (List Json))
      → is_allowed (read_results engine results).outcome ≡ true
      → (rd : RegoDecision) × (value : Json) × (values : List Json) × (rest : List (List Json))
        × (raw : String) × (results ≡ (value ∷ values) ∷ rest)
        × (engine.marshal value ≡ ok raw)
        × (engine.parse raw ≡ ok rd)
        × (read_results engine results ≡ respond engine rd)
  unfolding read_results
  read_allows [] h = absurd (refuse (read_results engine []) refl h)
  read_allows ([] ∷ results) h = absurd (refuse (read_results engine ([] ∷ results)) refl h)
  read_allows ((value ∷ values) ∷ results) h = elim (Result-cases (engine.marshal value)) [
    | inr (e, failed) ↦
        absurd
          (refuse (read_results engine ((value ∷ values) ∷ results)) (rw (failed, read_results)) h)
    | inl (raw, marshalled) ↦ elim (Result-cases (engine.parse raw)) [
      | inr (e, failed) ↦ absurd (
          refuse (read_results engine ((value ∷ values) ∷ results))
            (rw (marshalled, failed, read_results)) h)
      | inl (rd, parsed) ↦ (
        rd,
        value,
        values,
        results,
        raw,
        refl,
        marshalled,
        parsed,
        rw (marshalled, parsed, read_results),
      )
    ]
  ]

  -- Decide allows only what the active policy allowed: a policy is loaded, it evaluated to a decision
  -- that could be read, and that decision's outcome is one of the two that allow, passed on as it is.
  -- Every other case is a denial.
  pub decide_allows :
      (d : OpaDecider Query) (req : DecisionRequest)
      → is_allowed (decide engine d req).outcome ≡ true
      → (rd : RegoDecision) × Answered d req rd
        × (is_allowed rd.outcome ≡ true)
        × (decide engine d req ≡ respond engine rd)
        × ((decide engine d req).outcome ≡ rd.outcome)
  unfolding decide evaluate
  decide_allows d req h = elim (Option-cases d.prepared) [
    | inl unloaded ↦ absurd (refuse (decide engine d req) (rw (unloaded, decide)) h)
    | inr (query, loaded) ↦ elim (Result-cases (engine.input_of req)) [
      | inr (e, unbuilt) ↦
          absurd (refuse (decide engine d req) (rw (loaded, unbuilt, decide, evaluate)) h)
      | inl (input, built) ↦ elim (Result-cases (engine.eval query input)) [
        | inr (e, failed) ↦
            absurd (refuse (decide engine d req) (rw (loaded, built, failed, decide, evaluate)) h)
        | inl (results, evaluated) ↦
            let same : decide engine d req ≡ read_results engine results =
              rw (loaded, built, evaluated, decide, evaluate) in
            let (rd, value, values, rest, raw, shape, marshalled, parsed, read) =
              read_allows results (rw same at h) in
            let (al, kept) = respond_allows rd (rw (same, read) at h) in
            (
              rd,
              record {
                query = query;
                input = input;
                value = value;
                values = values;
                results = rest;
                raw = raw;
                loaded = loaded;
                built = built;
                evaluated = evaluated ∙ ap ok shape;
                marshalled = marshalled;
                parsed = parsed;
              },
              al,
              same ∙ read,
              ap (λ r. r.outcome) (same ∙ read) ∙ kept,
            )
      ]
    ]
  ]

  -- A reload that fails, in compiling or for want of a first load, leaves the active policy and the
  -- path as they were; one that succeeds activates what the disk then holds at the path of the last
  -- load.
  pub reload_lem :
      (disk : Disk) (d : OpaDecider Query)
      → (((reload engine disk d).0 ≢ none) × ((reload engine disk d).1 ≡ d))
        ⊎ ((query : Query) × (d.path ≢ "")
            × (engine.prepare d.path disk ≡ ok query)
            × (reload engine disk d ≡ (none, record { prepared = some query; path = d.path })))
  unfolding reload
  reload_lem disk d = elim (Bool-cases (d.path == "")) [
    | inl empty ↦ inl (rw (empty, reload) (λ e. cc), rw (empty, reload))
    | inr path ↦ elim (Result-cases (engine.prepare d.path disk)) [
      | inr (e, failed) ↦
          inl (rw (path, failed, reload, load) (λ e. cc), rw (path, failed, reload, load))
      | inl (query, compiled) ↦ inr (
        query,
        ground (arith, eq_iff d.path "", path),
        compiled,
        rw (path, compiled, reload, load),
      )
    ]
  ]
