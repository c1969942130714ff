-- ===== src/DevIssuer/Tokens.antt =====
-- What becomes of a token: issued and resolved, exchanged, and presented where it does not belong.
use helmdeep.Base.{
  ℕ, ◌+◌, ◌≤◌, String, pos, some, List, [], ◌≡◌, ◌≢◌, refl, sym, ap, ◌∙◌, ok, err, here,
}
use helmdeep.Base.Text.{◌+++◌}
use helmdeep.Types.{subject_kind_agent}
use helmdeep.Identity.Tokens.{
  Token, Jwt, or_empty, get_text, text_at, parsed_subject, typed_claims, resolve,
}
use helmdeep.DevIssuer.{Keys, Issuer, ExchangeResult, session_token, issue_sit, exchange}
use helmdeep.DevIssuer.Signed.{
  second, as_read, IsPair, issue_time, issue_sit-signed, exchange-signed, resolve-parsed,
  subject_of-session, call_token-refused, exchange-refused,
}

module _ {Key KeySet W V : Type 0} (jwt : Jwt Key KeySet) (keys : Keys Key KeySet W)
    (i : Issuer Key KeySet) (pair : IsPair jwt i.private i.public) where
  -- A token that the issuer gives is resolved, by a holder of its public keys and its audience, from
  -- the time of issue to a second before it expires, to the agent, the delegation chain, the scopes
  -- and the version that it was issued for, and to no trust level.
  pub issue_sit-resolve :
      (agent : String) (chain scope : List String) (version : String) (ttl : ℕ) (w : W)
      (credential : String) (clock : V → ℕ × V) (v : V)
      → (issue_sit jwt keys i agent chain scope version ttl w).0 ≡ ok credential
      → issue_time jwt keys w ≤ (clock v).0
      → (clock v).0 + second ≤ issue_time jwt keys w + ttl
      → (resolve jwt clock (record { key_set = i.public; audience = i.audience }) credential v).0
        ≡ ok (record {
          id = agent;
          kind = subject_kind_agent;
          agent_version = version;
          delegation_chain = chain;
          scopes = scope;
          trust_level = pos 0;
        })
  issue_sit-resolve agent chain scope version ttl w credential clock v issued early late =
      let (named, instance_id, signed) =
        issue_sit-signed jwt keys i agent chain scope version ttl w credential issued in
      let (t, parsed, sub, claims) =
        pair.reads _ credential i.audience typed_claims (clock v).0 signed (here refl) early late
          refl in
      resolve-parsed jwt clock (record { key_set = i.public; audience = i.audience }) credential v
        (pair.not_empty _ credential signed)
      ∙ (ap parsed_subject parsed ∙ subject_of-session t agent chain scope version named claims)

  -- A token that was exchanged for a call of an upstream is worth nothing at the gateway and at the
  -- issuer, unless the upstream bears the name of their audience: no resolver with the issuer's
  -- public keys and its audience takes it for a subject, and it cannot be exchanged again.
  pub exchange-confined :
      (subject_token upstream tool : String) (ttl : ℕ) (w : W) (r : ExchangeResult)
      → (exchange jwt keys i subject_token upstream tool ttl w).0 ≡ ok r
      → upstream ≢ i.audience
      → ((clock : V → ℕ × V) (v : V)
          → (e : String) × ((resolve jwt clock
                (record { key_set = i.public; audience = i.audience })
                r.token
                v).0
              ≡ err e))
        × ((other_upstream other_tool : String) (other_ttl : ℕ) (w' : W)
            → (e : String) × ((exchange jwt keys i r.token other_upstream other_tool other_ttl w').0
                ≡ err e))
  exchange-confined subject_token upstream tool ttl w r h ne =
      let (t, agent, at, parsed, named, when, signed) =
        exchange-signed jwt keys i subject_token upstream tool ttl w r h in
      (
        λ clock v.
            let (e, refused) =
              call_token-refused jwt i pair t.subject agent upstream tool r.token ttl at
                typed_claims (clock v).0 signed ne in
            (
              "credential invalid: " +++ e,
              resolve-parsed jwt clock (record { key_set = i.public; audience = i.audience })
                    r.token v (pair.not_empty _ r.token signed)
                  ∙ ap parsed_subject refused,
            ),
        λ other_upstream other_tool other_ttl w'.
            let (e, refused) =
              call_token-refused jwt i pair t.subject agent upstream tool r.token ttl at []
                (keys.now w').0 signed ne in
            (
              "subject_token invalid: " +++ e,
              exchange-refused jwt keys i r.token other_upstream other_tool other_ttl w' e refused,
            ),
      )

module _ {Key KeySet W : Type 0} (jwt : Jwt Key KeySet) (keys : Keys Key KeySet W)
    (i : Issuer Key KeySet) (pair : IsPair jwt i.private i.public) where
  -- A token for a call names, to an upstream that holds the issuer's public keys, the agent that the
  -- session token was issued to, the upstream and the tool, from the time of the exchange to a
  -- second before it expires; the session token is exchanged while it is valid itself.
  pub issue_sit-exchange :
      (agent : String) (chain scope : List String) (version : String) (ttl : ℕ) (w : W)
      (credential : String) (upstream tool : String) (call_ttl : ℕ) (w' : W) (r : ExchangeResult)
      (now : ℕ)
      → (issue_sit jwt keys i agent chain scope version ttl w).0 ≡ ok credential
      → issue_time jwt keys w ≤ (keys.now w').0
      → (keys.now w').0 + second ≤ issue_time jwt keys w + ttl
      → (exchange jwt keys i credential upstream tool call_ttl w').0 ≡ ok r
      → (keys.now (keys.now w').1).0 ≤ now
      → now + second ≤ (keys.now (keys.now w').1).0 + call_ttl
      → (t : Token) × (jwt.parse i.public upstream [] now r.token ≡ ok t)
        × (get_text "agent" t ≡ some agent)
        × (get_text "upstream" t ≡ some upstream)
        × (get_text "tool" t ≡ some tool)
  issue_sit-exchange agent chain scope version ttl w credential upstream tool call_ttl w' r now
        issued early late exchanged early' late' =
      let (named, instance_id, signed) =
        issue_sit-signed jwt keys i agent chain scope version ttl w credential issued in
      let (s, read, sub, held) =
        pair.reads _ credential i.audience [] (keys.now w').0 signed (here refl) early late refl in
      let (t, agent', at, parsed, whose, when, minted) =
        exchange-signed jwt keys i credential upstream tool call_ttl w' r exchanged in
      let (u, got, sub', claims) =
        pair.reads _ r.token upstream [] now minted (here refl) (rw when early') (rw when late')
          refl in
      let same : s ≡ t = cc in
      let agrees : t.claims
          ≡ as_read []
              (session_token i instance_id agent chain scope version ttl
                (issue_time jwt keys w)).claims =
        ap (λ x. x.claims) (sym same) ∙ held in
      let whom : agent' ≡ agent = whose ∙ ap (λ c. or_empty (text_at "agent" c)) agrees in
      (
        u,
        got,
        ap (text_at "agent") claims ∙ ap some whom,
        ap (text_at "upstream") claims,
        ap (text_at "tool") claims,
      )
