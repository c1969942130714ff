-- ===== src/Tests/Bundles.antt =====
-- Runs on policy bundles, their loader and the decider.
use helmdeep.Base.{
  ℕ, zero, suc, String, List, [], ◌∷◌, true, false, Bool, none, some, Result, ok, err, ◌≡◌, ◌≢◌,
  ◌⊎◌, refl, pos, if◌then◌else◌,
}
use helmdeep.Json.{null}
use helmdeep.Types.{DecisionRequest, outcome_allow}
use helmdeep.Gateway.Calls.{is_allowed}
use helmdeep.Policy.Opa.{RegoDecision, Engine, OpaDecider, new_opa_decider, decide, respond, reload}
use helmdeep.Policy.Opa
use helmdeep.Policy.Opa.FailClosed.{Answered, decide_allows, reload_lem}
use helmdeep.PolicyService.Bundle.{
  Bytes, Manifest, Entries, entry, last, file, Crypto, walk, verify, sign,
}
use helmdeep.PolicyService.Bundle.Signing.{IsKeyPair, verify-sign}
use helmdeep.PolicyService.Loader.{Files, VerifyingLoader, new_verifying_loader, load}
use helmdeep.PolicyService.Loader.Vouched.{
  Step, load_at, reload_at, run, AllFail, IsVouched, IsCurrent, load_lem, vouched,
}

abbrev zeros : ℕ → Bytes
zeros zero = []
zeros (suc n) = 0 ∷ zeros n

abbrev pub_key : Bytes
pub_key = zeros 32

abbrev key : Bytes
key = zeros 64

abbrev crypto : Crypto
crypto = record {
  sha256_hex = λ b. "00";
  marshal_payload = λ p. ok (1 ∷ []);
  base64_encode = λ b. "AA==";
  base64_decode = λ s. ok (0 ∷ []);
  ed25519_verify = λ k payload signature. true;
  ed25519_sign = λ k payload. 0 ∷ [];
  public_of = λ k. some pub_key;
}

key-IsKeyPair : IsKeyPair crypto key pub_key
key-IsKeyPair = record {
  public = refl;
  sized = refl;
  confirms = λ payload. refl;
  decodes = λ payload. refl;
  nonempty = λ payload e. cc;
}

abbrev rules : Bytes
rules = 112 ∷ 10 ∷ []

abbrev bundle : Result String Entries
bundle = ok (entry ".bundle.json" (file (ok [])) (entry "decision.rego" (file (ok rules)) last))

abbrev manifest : Manifest
manifest = record {
  version = "v1";
  created_at = 7;
  files = record { path = "decision.rego"; sha256 = "00" } ∷ [];
  key_id = "sha256:00";
  signature = "AA==";
}

manifest-sign : sign crypto bundle "v1" key 7 ≡ ok manifest
unfolding sign walk
manifest-sign = refl

verify-sign_example : verify crypto bundle manifest pub_key ≡ none
verify-sign_example =
    verify-sign crypto bundle "v1" key pub_key 7 manifest key-IsKeyPair (refl, tt) manifest-sign

abbrev allowing : RegoDecision
allowing = record { outcome = outcome_allow; policy_id = "p"; reason = ""; obligations = [] }

abbrev engine : Engine Bool String
engine = record {
  prepare = λ path disk. if disk then ok path else err "no such directory";
  input_of = λ req. ok null;
  eval = λ query input. ok ((null ∷ []) ∷ []);
  marshal = λ value. ok "{}";
  parse = λ raw. ok allowing;
  quote = λ s. s;
}

abbrev loaded : OpaDecider String
loaded = record { prepared = some "policies"; path = "policies" }

abbrev asked : DecisionRequest
asked = record {
  subject = record {
    id = "agent:planner";
    kind = "agent";
    agent_version = "";
    delegation_chain = [];
    scopes = [];
    trust_level = pos 1;
  };
  action = record {
    type = "tool_call";
    tool = "kb.search";
    resource = "";
    arguments = [];
    risk = "low";
    data_classes = [];
    required_scopes = [];
  };
  context = record {
    session_id = "";
    request_id = "1";
    time = 7;
    usage = record { calls_in_window = 1; window_seconds = 60 };
  };
}

asked-allowed : is_allowed (decide engine loaded asked).outcome ≡ true
unfolding decide
asked-allowed = refl

decide_allows_example :
    (rd : RegoDecision) × Answered engine loaded asked rd
    × (is_allowed rd.outcome ≡ true)
    × (decide engine loaded asked ≡ respond engine rd)
    × ((decide engine loaded asked).outcome ≡ rd.outcome)
decide_allows_example = decide_allows engine loaded asked asked-allowed

reload_lem_example :
    (((reload engine true loaded).0 ≢ none) × ((reload engine true loaded).1 ≡ loaded))
    ⊎ ((query : String) × (loaded.path ≢ "")
        × (engine.prepare loaded.path true ≡ ok query)
        × (reload engine true loaded
            ≡ (none, record { prepared = some query; path = loaded.path })))
reload_lem_example = reload_lem engine true loaded

-- The file system holds the bundle, or no manifest.
abbrev files : Files Bool
files = record {
  read_manifest = λ path w. if w then ok manifest else err "no such file";
  open_bundle = λ path w. bundle;
}

abbrev fresh : VerifyingLoader (OpaDecider String)
fresh = new_verifying_loader new_opa_decider ".bundle.json" pub_key

load_lem_example :
    (((load crypto files (Opa.load engine) "policies" true true fresh).0 ≢ none)
      × ((load crypto files (Opa.load engine) "policies" true true fresh).1 ≡ fresh))
    ⊎ (((load crypto files (Opa.load engine) "policies" true true fresh).0 ≡ none)
        × IsCurrent crypto files engine true true
            (load crypto files (Opa.load engine) "policies" true true fresh).1
        × ((load crypto files (Opa.load engine) "policies" true true fresh).1.path ≡ "policies"))
load_lem_example = load_lem crypto files engine "policies" true true fresh

abbrev steps : List (Step Bool)
steps = load_at "policies" true true ∷ reload_at true false ∷ []

vouched_example :
    (AllFail crypto files engine steps fresh × (run crypto files engine steps fresh ≡ fresh))
    ⊎ IsVouched crypto files engine steps fresh
vouched_example = vouched crypto files engine ".bundle.json" pub_key steps
