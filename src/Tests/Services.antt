-- ===== src/Tests/Services.antt =====
-- A run of the two model providers against services that answer.
use helmdeep.Base.{ℕ, String, pos, none, [], ◌∷◌, Result, ok, ◌≡◌, ◌↔◌, refl}
use helmdeep.ModelGateway.{Request, Response}
use helmdeep.ModelGateway.Providers.{
  ServiceRequest, ServiceAnswer, ServiceWire, AnthropicProvider, AzureOpenAiProvider,
  anthropic_request, anthropic_complete, text_of, azure_complete,
}
use helmdeep.ModelGateway.Providers.Answers.{AnthropicSays, AzureSays, conversation, complete_iff}

abbrev request : Request
request = record {
  purpose = "summary";
  messages =
      record { role = "system"; content = "be brief" }
      ∷ record { role = "user"; content = "hi" }
      ∷ [];
  max_tokens = pos 0;
  temperature = "0";
}

abbrev wire : ServiceWire
wire = record {
  marshal_anthropic = λ r. ok r.system;
  unmarshal_anthropic = λ b. ok (record {
    model = "m-1";
    content = record { type = "text"; text = b } ∷ [];
    input_tokens = pos 3;
    output_tokens = pos 4;
    error = none;
  });
  marshal_azure = λ r. ok "{}";
  unmarshal_azure = λ b. ok (record {
    model = "g-1";
    choices = b ∷ [];
    prompt_tokens = pos 3;
    completion_tokens = pos 4;
    error = none;
  });
  number = λ n. "200";
}

abbrev post : ServiceRequest → ℕ → Result String ServiceAnswer × ℕ
post r w = (ok (record { status = 200; body = ok r.body }), w)

abbrev anthropic : AnthropicProvider
anthropic = record { api_key = "k"; workspace_id = ""; base_url = "" }

abbrev azure : AzureOpenAiProvider
azure = record { endpoint = "https://r"; api_key = "k"; api_version = "v" }

abbrev response : Response
response = record {
  provider = "anthropic";
  model = "m-1";
  content = "be brief";
  usage = record { prompt_tokens = pos 3; completion_tokens = pos 4 };
  fallback_from = "";
}

completed : (anthropic_complete wire post anthropic "m" request 7).0 ≡ ok response
unfolding anthropic_complete text_of
completed = refl

complete_iff_example :
    (((anthropic_complete wire post anthropic "m" request 7).0 ≡ ok response)
      ↔ AnthropicSays wire post anthropic "m" request 7 response)
    × (((azure_complete wire post azure "m" request 7).0 ≡ ok response)
        ↔ AzureSays wire post azure "m" request 7 response)
    × ((anthropic_request "m" request).messages ≡ conversation request.messages)
complete_iff_example = complete_iff wire post anthropic azure "m" request 7 response
