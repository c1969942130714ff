-- ===== src/Tests/Models.antt =====
-- Runs on the gateway for models: a provider that fails and its fallback.
use helmdeep.Base.{ℕ, String, [], ◌∷◌, true, none, ok, err, ◌≡◌, ◌≢◌, ◌↔◌, refl, pos, All, Dict}
use helmdeep.Types.{Subject, outcome_allow}
use helmdeep.Policy.{Decider}
use helmdeep.Audit.{Store}
use helmdeep.ModelCatalog
use helmdeep.ModelGateway.{
  Request, Response, Provider, Route, ModelGateway, panicked, new_model_gateway,
}
use helmdeep.ModelGateway.Complete.{complete}
use helmdeep.ModelGateway.Complete.Trace.{traced, IsGoverned}
use helmdeep.ModelGateway.Complete.Trace.Governed.{complete-IsGoverned}
use helmdeep.ModelGateway.Routes.{IsRouted, new_model_gateway-accepts_iff}
use helmdeep.ModelGateway.Routes.Total.{complete-new_model_gateway}

abbrev agent : Subject
agent = record {
  id = "agent:planner";
  kind = "agent";
  agent_version = "";
  delegation_chain = [];
  scopes = [];
  trust_level = pos 1;
}

abbrev reply : Response
reply = record {
  provider = "backup";
  model = "b-1";
  content = "hello";
  usage = record { prompt_tokens = pos 1; completion_tokens = pos 2 };
  fallback_from = "";
}

abbrev providers : Dict (Provider ℕ)
providers =
    ("main", record { name = "main"; complete = λ model req w. (err "overloaded", w) })
    ∷ ("backup", record { name = "backup"; complete = λ model req w. (ok reply, w) })
    ∷ []

abbrev routes : Dict Route
routes =
    (
      "summary",
      record {
        provider = "main";
        model = "m-1";
        fallback_provider = "backup";
        fallback_model = "b-1";
      },
    )
    ∷ []

abbrev pdp : Decider ℕ
pdp deadline req w =
    (ok (record { outcome = outcome_allow; obligations = []; policy_id = "p"; reason = "" }), w)

abbrev audit_log : Store ℕ
audit_log = record { append = λ rec w. (none, w); verify = λ w. (none, w) }

abbrev approved_entry : String → String → ModelCatalog.Entry
approved_entry provider model = record {
  provider = provider;
  model = model;
  approved = true;
  allowed_data_classes = [];
  residency = "";
}

abbrev catalog : ModelCatalog.Registry
catalog = record {
  by_key =
      (record { provider = "main"; model = "m-1" }, approved_entry "main" "m-1")
      ∷ (record { provider = "backup"; model = "b-1" }, approved_entry "backup" "b-1")
      ∷ [];
}

abbrev gateway : ModelGateway ℕ
gateway = record {
  providers = providers;
  routes = routes;
  pdp = pdp;
  audit_log = audit_log;
  catalog = catalog;
  now = λ w. (w, w);
  quote = λ s. s;
}

gateway-new :
    new_model_gateway providers routes pdp audit_log catalog (λ w. (w, w)) (λ s. s) ≡ ok gateway
unfolding new_model_gateway
gateway-new = refl

abbrev request : Request
request = record {
  purpose = "summary";
  messages = record { role = "user"; content = "hi" } ∷ [];
  max_tokens = pos 100;
  temperature = "0";
}

complete-IsGoverned_example :
    IsGoverned gateway agent request (complete (traced gateway) agent request (7, [])).1.1
complete-IsGoverned_example = complete-IsGoverned gateway agent request 7

new_model_gateway-accepts_iff_example :
    ((g : ModelGateway ℕ) × (new_model_gateway providers routes pdp audit_log catalog
          (λ w. (w, w))
          (λ s. s)
        ≡ ok g))
    ↔ All (IsRouted providers) routes
new_model_gateway-accepts_iff_example =
    new_model_gateway-accepts_iff providers routes pdp audit_log catalog (λ w. (w, w)) (λ s. s)

complete-new_model_gateway_example : (complete gateway agent request 7).0 ≢ err panicked
complete-new_model_gateway_example =
    complete-new_model_gateway providers routes pdp audit_log catalog (λ w. (w, w)) (λ s. s) gateway
      agent request 7 gateway-new
