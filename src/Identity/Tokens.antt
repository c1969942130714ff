-- ===== src/Identity/Tokens.antt =====
-- pkg/identity/jwt.go: who presents a Session Identity Token. The keys, the signatures and the
-- checks of the standard claims are those of lestrrat-go/jwx, a parameter here.
use helmdeep.Base.{
  ℕ, String, pos, Option, none, some, List, [], ◌∷◌, ◌==◌, if◌then◌else◌, Result, ok, err, Dict,
  lookup,
}
use helmdeep.Base.Text.{◌+++◌}
use helmdeep.Types.{Subject, subject_kind_agent}

-- The value of a claim that is not a standard one: a Go `string`, a `[]string`, or the `[]any` that a
-- list is parsed into where its claim is not named as a typed one.
pub data Claim : Type 0 where
  text : String → Claim
  texts : List String → Claim
  untyped : List String → Claim

pub record Token : Type 0 where
  pub subject : String
  pub audience : List String
  pub issued_at : ℕ
  pub expiration : ℕ
  pub claims : Dict Claim

-- `jwt.Sign` with a private key, and `jwt.Parse` with a key set, an audience, the names of the
-- claims that are read as `[]string`, and the time.
pub record Jwt (Key KeySet : Type 0) : Type 0 where
  pub sign : Key → Token → Result String String
  pub parse : KeySet → String → List String → ℕ → String → Result String Token

pub record JwtResolver (KeySet : Type 0) : Type 0 where
  pub key_set : KeySet
  pub audience : String

-- `Token.Get` into a `string` and into a `[]string`: an error where the claim is absent or is of
-- the other type.
abbrev pub text_at : String → Dict Claim → Option String
text_at name claims = elim (lookup name claims) [
  | some (text s) ↦ some s
  | some (texts ss) ↦ none
  | some (untyped ss) ↦ none
  | none ↦ none
]

abbrev pub get_text : String → Token → Option String
get_text name token = text_at name token.claims

abbrev pub get_texts : String → Token → Option (List String)
get_texts name token = elim (lookup name token.claims) [
  | some (texts ss) ↦ some ss
  | some (text s) ↦ none
  | some (untyped ss) ↦ none
  | none ↦ none
]

-- A variable of Go that is set where the claim can be read, and keeps its zero value elsewhere.
abbrev pub or_empty : Option String → String
or_empty none = ""
or_empty (some s) = s

abbrev pub or_nil : Option (List String) → List String
or_nil none = []
or_nil (some ss) = ss

-- The subject of a token that was parsed.
unfoldable pub subject_of : Token → Result String Subject
subject_of token =
    let agent = or_empty (get_text "agent" token) in
    if agent == ""
    then err "credential missing required 'agent' claim"
    else ok (record {
      id = agent;
      kind = subject_kind_agent;
      agent_version = or_empty (get_text "agent_version" token);
      delegation_chain = or_nil (get_texts "delegation_chain" token);
      scopes = or_nil (get_texts "scope" token);
      trust_level = pos 0;
    })

abbrev pub parsed_subject : Result String Token → Result String Subject
parsed_subject (err e) = err ("credential invalid: " +++ e)
parsed_subject (ok token) = subject_of token

abbrev pub typed_claims : List String
typed_claims = "delegation_chain" ∷ "scope" ∷ []

module _ {Key KeySet : Type 0} (jwt : Jwt Key KeySet) {W : Type 0} (clock : W → ℕ × W) where
  abbrev pub new_jwt_resolver : KeySet → String → JwtResolver KeySet
  new_jwt_resolver key_set audience = record { key_set = key_set; audience = audience }

  unfoldable pub resolve : JwtResolver KeySet → String → W → Result String Subject × W
  unfolding subject_of
  resolve r credential w =
      if credential == ""
      then (err "no credential presented", w)
      else let (now, w') = clock w in
        (parsed_subject (jwt.parse r.key_set r.audience typed_claims now credential), w')
