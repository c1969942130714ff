-- ===== src/DevIssuer/Signed.antt =====
-- What the issuer signs, and what a holder of its public keys reads.
use helmdeep.Base.{
  ℕ, ◌+◌, ◌≤◌, String, pos, Bool, true, false, none, some, List, [], ◌∷◌, ◌≡◌, ◌≢◌, refl, ap, inl,
  inr, ◌==◌, Result, ok, err, Result-cases, Bool-cases, Dict, lookup, if◌then◌else◌, Any, here,
  there, all,
}
use helmdeep.Base.Text.{◌+++◌, ne_of_test, test_of_ne}
use helmdeep.Types.{subject_kind_agent}
use helmdeep.Identity.Tokens.{
  Token, Claim, text, texts, untyped, Jwt, JwtResolver, or_empty, get_text, subject_of,
  parsed_subject, typed_claims, resolve,
}
use helmdeep.DevIssuer.{
  Keys, Issuer, ExchangeResult, wrapped, session_token, call_token, issue_for, issue_sit,
  exchange_parsed, exchange,
}

-- A second, in nanoseconds: the claims hold times in whole seconds.
abbrev pub second : ℕ
second = 1000000000

-- The claim is not a single text.
abbrev pub is_list : Dict Claim → String → Bool
is_list claims name = elim (lookup name claims) [
  | none ↦ true
  | some (texts ss) ↦ true
  | some (untyped ss) ↦ true
  | some (text s) ↦ false
]

abbrev pub names : List String → String → Bool
names [] name = false
names (t ∷ ts) name = if t == name then true else names ts name

-- How the claims of a token are read: a list comes back as a `[]string` where its claim is named, and
-- as a `[]any` elsewhere.
abbrev pub as_read : List String → Dict Claim → Dict Claim
as_read typed [] = []
as_read typed ((name, texts ss) ∷ claims) =
    (name, if names typed name then texts ss else untyped ss) ∷ as_read typed claims
as_read typed ((name, text s) ∷ claims) = (name, text s) ∷ as_read typed claims
as_read typed ((name, untyped ss) ∷ claims) =
    (name, if names typed name then texts ss else untyped ss) ∷ as_read typed claims

-- What jwx documents of a pair: a token that the private half signed is accepted, with its claims as
-- they are read under the typed claims that are named, by a holder of the public half, for an audience that it names and while it is valid, and it is
-- accepted for no other audience. A signed token is not empty.
pub record IsPair {Key KeySet : Type 0} (jwt : Jwt Key KeySet) (private : Key) (public : KeySet)
    : Type 0 where
  pub reads :
      (t : Token) (signed aud : String) (typed : List String) (now : ℕ)
      → jwt.sign private t ≡ ok signed
      → Any (λ a. a ≡ aud) t.audience
      → t.issued_at ≤ now
      → now + second ≤ t.expiration
      → all (is_list t.claims) typed ≡ true
      → (t' : Token) × (jwt.parse public aud typed now signed ≡ ok t')
        × (t'.subject ≡ t.subject)
        × (t'.claims ≡ as_read typed t.claims)
  pub checks_audience :
      (t t' : Token) (signed aud : String) (typed : List String) (now : ℕ)
      → jwt.sign private t ≡ ok signed
      → jwt.parse public aud typed now signed ≡ ok t'
      → Any (λ a. a ≡ aud) t.audience
  pub not_empty : (t : Token) (signed : String) → jwt.sign private t ≡ ok signed → signed ≢ ""

wrapped-ok :
    {A : Type 0} (what : String) (r : Result String A) (a : A) → wrapped what r ≡ ok a → r ≡ ok a
wrapped-ok what (ok b) a h = h
wrapped-ok what (err e) a h = cc

only : {name other : String} → Any (λ a. a ≡ other) (name ∷ []) → name ≡ other
only (here e) = e
only (there none_left) = elim none_left [ ]

pub exchange-refused :
    {Key KeySet W : Type 0} (jwt : Jwt Key KeySet) (keys : Keys Key KeySet W)
    (i : Issuer Key KeySet) (token upstream tool : String) (ttl : ℕ) (w : W) (e : String)
    → jwt.parse i.public i.audience [] (keys.now w).0 token ≡ err e
    → (exchange jwt keys i token upstream tool ttl w).0 ≡ err ("subject_token invalid: " +++ e)
unfolding exchange exchange_parsed
exchange-refused jwt keys i token upstream tool ttl w e h = rw (h, exchange, exchange_parsed) refl

token_of_ok :
    (signed : String) (at : ℕ) (r : ExchangeResult)
    → ◌≡◌ {A = Result String ExchangeResult}
        (ok (record { token = signed; expires_at = at }))
        (ok r)
    → signed ≡ r.token
token_of_ok signed at r h =
    let e : ◌≡◌ {A = ExchangeResult} (record { token = signed; expires_at = at }) r = cc in
    ap (λ x. x.token) e

module _ {Key KeySet W : Type 0} (jwt : Jwt Key KeySet) (keys : Keys Key KeySet W) where
  -- When IssueSIT, called in `w`, reads the clock.
  abbrev pub issue_time : W → ℕ
  issue_time w = (keys.now (keys.random_hex 8 w).1).0

  -- A token that IssueSIT gives was signed with these claims.
  pub issue_sit-signed :
      (i : Issuer Key KeySet) (agent : String) (chain scope : List String) (version : String)
      (ttl : ℕ) (w : W) (signed : String)
      → (issue_sit jwt keys i agent chain scope version ttl w).0 ≡ ok signed
      → (agent ≢ "")
        × (instance_id : String) × (jwt.sign i.private
              (session_token i instance_id agent chain scope version ttl (issue_time w))
            ≡ ok signed)
  unfolding issue_sit issue_for
  issue_sit-signed i agent chain scope version ttl w signed h = elim (Bool-cases (agent == "")) [
    | inl blank ↦ let k = rw (blank, issue_sit) at h in absurd cc
    | inr named ↦
        let k = rw (named, issue_sit) at h in
        elim (Result-cases (keys.random_hex 8 w).0) [
          | inr (e, failed) ↦ let l = rw (failed, issue_for) at k in absurd cc
          | inl (instance_id, drawn) ↦
              let l = rw (drawn, issue_for) at k in
              (ne_of_test agent named, instance_id, wrapped-ok "sign SIT" _ _ l)
        ]
  ]

  pub exchange-signed :
      (i : Issuer Key KeySet) (token upstream tool : String) (ttl : ℕ) (w : W) (r : ExchangeResult)
      → (exchange jwt keys i token upstream tool ttl w).0 ≡ ok r
      → (t : Token) × (agent : String) × (at : ℕ) × (jwt.parse i.public i.audience []
            (keys.now w).0
            token
          ≡ ok t)
        × (agent ≡ or_empty (get_text "agent" t))
        × (at ≡ (keys.now (keys.now w).1).0)
        × (jwt.sign i.private (call_token t.subject agent upstream tool ttl at) ≡ ok r.token)
  unfolding exchange exchange_parsed
  exchange-signed i token upstream tool ttl w r h =
      elim (Result-cases (jwt.parse i.public i.audience [] (keys.now w).0 token)) [
        | inr (e, failed) ↦ let k = rw (failed, exchange, exchange_parsed) at h in absurd cc
        | inl (t, parsed) ↦
            let k = rw (parsed, exchange, exchange_parsed) at h in
            let agent = or_empty (get_text "agent" t) in
            elim (Bool-cases (agent == "")) [
              | inl blank ↦ let l = rw (blank, exchange_parsed) at k in absurd cc
              | inr named ↦
                  let l = rw (named, exchange_parsed) at k in
                  let at = (keys.now (keys.now w).1).0 in
                  elim (Result-cases
                    (jwt.sign i.private (call_token t.subject agent upstream tool ttl at))) [
                      | inr (e, unsigned) ↦ let m = rw unsigned at l in absurd cc
                      | inl (signed, given) ↦
                          let m : ◌≡◌ {A = Result String ExchangeResult}
                              (ok (record { token = signed; expires_at = at + ttl })) (ok r) =
                            rw given at l in
                          let same : signed ≡ r.token = token_of_ok signed (at + ttl) r m in
                          (t, agent, at, parsed, refl, refl, rw (← same) given)
                    ]
            ]
      ]

module _ {Key KeySet V : Type 0} (jwt : Jwt Key KeySet) (clock : V → ℕ × V) where
  pub resolve-parsed :
      (r : JwtResolver KeySet) (credential : String) (v : V)
      → credential ≢ ""
      → (resolve jwt clock r credential v).0
        ≡ parsed_subject (jwt.parse r.key_set r.audience typed_claims (clock v).0 credential)
  unfolding resolve
  resolve-parsed r credential v h = rw (test_of_ne credential h, resolve) refl

pub subject_of-session :
    (t : Token) (agent : String) (chain scope : List String) (version : String)
    → agent ≢ ""
    → t.claims
      ≡ ("agent", text agent)
        ∷ ("delegation_chain", texts chain)
        ∷ ("scope", texts scope)
        ∷ ("agent_version", text version)
        ∷ []
    → subject_of t
      ≡ ok (record {
        id = agent;
        kind = subject_kind_agent;
        agent_version = version;
        delegation_chain = chain;
        scopes = scope;
        trust_level = pos 0;
      })
unfolding subject_of
subject_of-session t agent chain scope version named h =
    rw (h, subject_of, test_of_ne agent named) refl

module _ {Key KeySet : Type 0} (jwt : Jwt Key KeySet) (i : Issuer Key KeySet)
    (pair : IsPair jwt i.private i.public) where
  foreign-refused :
      (t : Token) (signed : String) (typed : List String) (now : ℕ)
      → jwt.sign i.private t ≡ ok signed
      → ¬ Any (λ a. a ≡ i.audience) t.audience
      → (e : String) × (jwt.parse i.public i.audience typed now signed ≡ err e)
  foreign-refused t signed typed now h foreign =
      elim (Result-cases (jwt.parse i.public i.audience typed now signed)) [
        | inl (t', parsed) ↦
            absurd (foreign (pair.checks_audience t t' signed i.audience typed now h parsed))
        | inr refused ↦ refused
      ]

  -- The one audience of a token for a call is its upstream.
  pub call_token-refused :
      (subject agent upstream tool signed : String) (ttl at : ℕ) (typed : List String) (now : ℕ)
      → jwt.sign i.private (call_token subject agent upstream tool ttl at) ≡ ok signed
      → upstream ≢ i.audience
      → (e : String) × (jwt.parse i.public i.audience typed now signed ≡ err e)
  call_token-refused subject agent upstream tool signed ttl at typed now h ne =
      foreign-refused (call_token subject agent upstream tool ttl at) signed typed now h
        (λ named. ne (only named))
