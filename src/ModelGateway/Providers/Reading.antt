-- ===== src/ModelGateway/Providers/Reading.antt =====
-- When an answer of a model service is read as a response.
use helmdeep.Base.{
  ℕ, String, Option, none, some, ◌≡◌, ◌↔◌, refl, ap, ◌∙◌, inl, inr, Result, ok, err, Option-cases,
  arith,
}
use helmdeep.ModelGateway.{Response}
use helmdeep.ModelGateway.Providers.{
  ServiceRequest, ServiceAnswer, ServiceWire, refused, parsed, read, answered,
}

module _ {W : Type 0} (wire : ServiceWire)
    (post : ServiceRequest → W → Result String ServiceAnswer × W) where
  refused-none :
      (what : String) (status : ℕ) (body : String) (e : Option String)
      → (refused wire post what status body e ≡ none) ↔ ((status ≡ 200) × (e ≡ none))
  refused-none what status body (some x) = (λ h. absurd cc, λ (s, h). absurd cc)
  refused-none what status body none = ground arith

  parsed_iff :
      {A : Type 0} (what : String) (error_of : A → Option String)
      (finish : A → Result String Response) (status : ℕ) (text : String) (d : Result String A)
      (resp : Response)
      → (parsed wire post what error_of finish status text d ≡ ok resp)
        ↔ ((a : A) × (d ≡ ok a) × (status ≡ 200) × (error_of a ≡ none) × (finish a ≡ ok resp))
  parsed_iff what error_of finish status text (err e) resp =
      (λ h. absurd cc, λ (a, d, t, n, done). absurd cc)
  parsed_iff {A} what error_of finish status text (ok a) resp =
      let (to, from) = refused-none what status text (error_of a) in
      elim (Option-cases (refused wire post what status text (error_of a))) [
        | inl passed ↦ (
          λ h. let (s, n) = to passed in (a, refl, s, n, rw (passed, parsed) at h),
          λ (b, d, s, n, done).
              let same : a ≡ b = cc in rw (passed, parsed) (ap finish same ∙ done),
        )
        | inr (e, failed) ↦ (
          λ h. let k = rw (failed, parsed) at h in absurd cc,
          λ (b, d, s, n, done).
              let same : a ≡ b = cc in let k = from (s, ap error_of same ∙ n) in absurd cc,
        )
      ]

  read_iff :
      {A : Type 0} (what : String) (unmarshal : String → Result String A)
      (error_of : A → Option String) (finish : A → Result String Response) (status : ℕ)
      (body : Result String String) (resp : Response)
      → (read wire post what unmarshal error_of finish status body ≡ ok resp) ↔ (
          (a : A) × (text : String) × (body ≡ ok text)
          × (unmarshal text ≡ ok a)
          × (status ≡ 200)
          × (error_of a ≡ none)
          × (finish a ≡ ok resp))
  read_iff what unmarshal error_of finish status (err e) resp =
      (λ h. absurd cc, λ (a, text, b, d, t, n, done). absurd cc)
  read_iff what unmarshal error_of finish status (ok found) resp =
      let (to, from) = parsed_iff what error_of finish status found (unmarshal found) resp in
      (
        λ h. let (a, d, s, n, done) = to h in (a, found, refl, d, s, n, done),
        λ (a, text, b, d, s, n, done).
            let same : found ≡ text = cc in from (a, ap unmarshal same ∙ d, s, n, done),
      )

  -- The service answered with the status 200 and a body that is no error, and this is what it says.
  abbrev pub Says :
      {A : Type 0}
      → (String → Result String A)
      → (A → Option String)
      → Result String ServiceAnswer
      → A
      → Type 0
  Says unmarshal error_of r a =
      (text : String) × (r ≡ ok (record { status = 200; body = ok text }))
      × (unmarshal text ≡ ok a)
      × (error_of a ≡ none)

  whole :
      (r : ServiceAnswer) (text : String)
      → r.status ≡ 200
      → r.body ≡ ok text
      → ◌≡◌ {A = ServiceAnswer} r (record { status = 200; body = ok text })
  whole r text s b = cc

  pub answered_iff :
      {A : Type 0} (what : String) (unmarshal : String → Result String A)
      (error_of : A → Option String) (finish : A → Result String Response)
      (r : Result String ServiceAnswer) (resp : Response)
      → (answered wire post what unmarshal error_of finish r ≡ ok resp)
        ↔ ((a : A) × Says unmarshal error_of r a × (finish a ≡ ok resp))
  unfolding answered
  answered_iff what unmarshal error_of finish (err e) resp =
      (λ h. absurd cc, λ (a, (text, b, d, n), done). absurd cc)
  answered_iff what unmarshal error_of finish (ok r) resp =
      let (to, from) = read_iff what unmarshal error_of finish r.status r.body resp in
      (
        λ h.
            let (a, text, b, d, s, n, done) = to h in
            (a, (text, ap ok (whole r text s b), d, n), done),
        λ (a, (text, b, d, n), done).
            let same : ◌≡◌ {A = ServiceAnswer} r (record { status = 200; body = ok text }) = cc in
            from (
              a,
              text,
              ap (λ (x : ServiceAnswer). x.body) same,
              d,
              ap (λ (x : ServiceAnswer). x.status) same,
              n,
              done,
            ),
      )
