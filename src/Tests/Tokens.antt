-- ===== src/Tests/Tokens.antt =====
-- A library of tokens that signs the session token and the call token of one agent.
use helmdeep.Base.{
  String, Bool, true, false, ◌&&◌, List, [], ◌∷◌, ◌≡◌, ◌⊎◌, refl, sym, ap, inl, inr, ◌==◌,
  if◌then◌else◌, Result, ok, err, Dict, Any, here, there, Bool-cases, eq_iff, arith,
}
use helmdeep.Identity.Tokens.{Token, Claim, text, texts, untyped, Jwt}
use helmdeep.DevIssuer.{Issuer, session_token, call_token}
use helmdeep.DevIssuer.Signed.{as_read, IsPair}

abbrev pub Keyring : Type 0
Keyring = Unit

abbrev pub issuer : Issuer Keyring Keyring
issuer = record { private = tt; public = tt; audience = "gateways" }

abbrev same_texts : List String → List String → Bool
same_texts [] [] = true
same_texts (a ∷ as') (b ∷ bs) = a == b && same_texts as' bs
same_texts _ _ = false

same_texts_sound : (xs ys : List String) → same_texts xs ys ≡ true → xs ≡ ys
same_texts_sound [] [] h = refl
same_texts_sound (x ∷ xs) (y ∷ ys) h = ground (arith, eq_iff x y, same_texts_sound xs ys)
same_texts_sound [] (y ∷ ys) h = cc
same_texts_sound (x ∷ xs) [] h = cc

abbrev same_claim : Claim → Claim → Bool
same_claim (text s) (text t) = s == t
same_claim (texts ss) (texts ts) = same_texts ss ts
same_claim (untyped ss) (untyped ts) = same_texts ss ts
same_claim _ _ = false

same_claim_sound : (a b : Claim) → same_claim a b ≡ true → a ≡ b
same_claim_sound (text s) (text t) h = ap text ((eq_iff s t).0 h)
same_claim_sound (texts ss) (texts ts) h = ap texts (same_texts_sound ss ts h)
same_claim_sound (untyped ss) (untyped ts) h = ap untyped (same_texts_sound ss ts h)
same_claim_sound (text s) (texts ts) h = cc
same_claim_sound (text s) (untyped ts) h = cc
same_claim_sound (texts ss) (text t) h = cc
same_claim_sound (texts ss) (untyped ts) h = cc
same_claim_sound (untyped ss) (text t) h = cc
same_claim_sound (untyped ss) (texts ts) h = cc

abbrev same_claims : Dict Claim → Dict Claim → Bool
same_claims [] [] = true
same_claims ((k, v) ∷ xs) ((l, w) ∷ ys) = k == l && (same_claim v w && same_claims xs ys)
same_claims _ _ = false

same_claims_sound : (xs ys : Dict Claim) → same_claims xs ys ≡ true → xs ≡ ys
same_claims_sound [] [] h = refl
same_claims_sound ((k, v) ∷ xs) ((l, w) ∷ ys) h =
    ground (arith, eq_iff k l, same_claim_sound v w, same_claims_sound xs ys)
same_claims_sound [] (y ∷ ys) h = cc
same_claims_sound (x ∷ xs) [] h = cc

abbrev fits : Token → Token → Bool
fits known t =
    t.subject == known.subject
    && (same_texts t.audience known.audience && same_claims t.claims known.claims)

fits_sound :
    (known t : Token)
    → fits known t ≡ true
    → (t.subject ≡ known.subject) × (t.audience ≡ known.audience) × (t.claims ≡ known.claims)
fits_sound known t h = ground (
  arith,
  eq_iff t.subject known.subject,
  same_texts_sound t.audience known.audience,
  same_claims_sound t.claims known.claims,
)

abbrev session : Token
session = session_token issuer "07" "planner" ("alice" ∷ []) ("kb.read" ∷ []) "1.2" 0 0

abbrev for_call : Token
for_call = call_token "agent_instance:07" "planner" "kb" "kb.search" 0 0

abbrev known_as_read : Token → List String → Token
known_as_read known typed = record known { claims = as_read typed known.claims }

abbrev parse_known : String → List String → String → Result String Token
parse_known aud typed signed =
    if aud == "gateways" && signed == "sit"
    then ok (known_as_read session typed)
    else if aud == "kb" && signed == "call"
    then ok (known_as_read for_call typed)
    else err "invalid"

abbrev pub jwt : Jwt Keyring Keyring
jwt = record {
  sign = λ key t.
      if fits session t then ok "sit" else if fits for_call t then ok "call" else err "unknown";
  parse = λ keys aud typed now signed. parse_known aud typed signed;
}

-- What was signed is one of the two, under its own text.
sign_cases :
    (t : Token) (signed : String)
    → jwt.sign tt t ≡ ok signed
    → ((fits session t ≡ true) × (signed ≡ "sit")) ⊎ ((fits for_call t ≡ true) × (signed ≡ "call"))
sign_cases t signed h = elim (Bool-cases (fits session t)) [
  | inl sit ↦
      let k : ◌≡◌ {A = Result String String} (ok "sit") (ok signed) = rw sit at h in inl (sit, cc)
  | inr other ↦ elim (Bool-cases (fits for_call t)) [
    | inl call ↦
        let k : ◌≡◌ {A = Result String String} (ok "call") (ok signed) = rw (other, call) at h in
        inr (call, cc)
    | inr neither ↦ let k = rw (other, neither) at h in absurd cc
  ]
]

single : {x aud : String} {xs : List String} → xs ≡ x ∷ [] → Any (λ a. a ≡ aud) xs → x ≡ aud
single e h = only (rw e at h)
  where
    only : {x aud : String} → Any (λ a. a ≡ aud) (x ∷ []) → x ≡ aud
    only (here e) = e
    only (there h) = elim h [ ]

parse_sit :
    (aud : String) (typed : List String) (t : Token)
    → parse_known aud typed "sit" ≡ ok t
    → "gateways" ≡ aud
parse_sit aud typed t h = ground (arith, eq_iff aud "gateways", eq_iff aud "kb")

parse_call :
    (aud : String) (typed : List String) (t : Token)
    → parse_known aud typed "call" ≡ ok t
    → "kb" ≡ aud
parse_call aud typed t h = ground (arith, eq_iff aud "gateways", eq_iff aud "kb")

pub jwt-IsPair : IsPair jwt tt tt
jwt-IsPair = record {
  reads = λ t signed aud typed now h named early late lists. elim (sign_cases t signed h) [
    | inl (sit, e) ↦
        let (sub, auds, claims) = fits_sound session t sit in
        let whom = single auds named in
        (known_as_read session typed, rw (e, ← whom) refl, sym sub, ap (as_read typed) (sym claims))
    | inr (call, e) ↦
        let (sub, auds, claims) = fits_sound for_call t call in
        let whom = single auds named in
        (
          known_as_read for_call typed,
          rw (e, ← whom) refl,
          sym sub,
          ap (as_read typed) (sym claims),
        )
  ];
  checks_audience = λ t t' signed aud typed now h parsed. elim (sign_cases t signed h) [
    | inl (sit, e) ↦
        let (sub, auds, claims) = fits_sound session t sit in
        rw auds (here (parse_sit aud typed t' (rw e at parsed)))
    | inr (call, e) ↦
        let (sub, auds, claims) = fits_sound for_call t call in
        rw auds (here (parse_call aud typed t' (rw e at parsed)))
  ];
  not_empty = λ t signed h. elim (sign_cases t signed h) [
    | inl (sit, e) ↦ λ blank. cc
    | inr (call, e) ↦ λ blank. cc
  ];
}
