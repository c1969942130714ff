-- ===== src/ModelGateway/Providers/Answers.antt =====
-- Which answers of a model service a provider reports as a response, and what it sends of the
-- messages.
use helmdeep.Base.{
  ℤ, String, List, [], ◌∷◌, ◌≡◌, ◌↔◌, refl, sym, ap, ◌∙◌, inl, inr, ◌==◌, if◌then◌else◌, Result, ok,
  Result-cases, arith, Bool-cases,
}
use Prim.Native.String.append
use text.Mathlib.TextLemmas.{append-nil, append_assoc}
use helmdeep.Base.Text.{◌+++◌}
use helmdeep.ModelGateway.{Message, Request, Response, TokenUsage}
use helmdeep.ModelGateway.Providers.{
  ServiceRequest, ServiceAnswer, Part, text_of, AnthropicResponse, AzureChatResponse, ServiceWire,
  AnthropicProvider, AzureOpenAiProvider, gather, with_system, anthropic_request,
  anthropic_response, anthropic_complete, anthropic_call, azure_request, azure_call, azure_chosen,
  azure_complete,
}
use helmdeep.ModelGateway.Providers.Reading.{Says, answered_iff}

-- The messages of a role other than "system", in their order.
abbrev pub conversation : List Message → List Message
conversation [] = []
conversation (m ∷ ms) = if m.role == "system" then conversation ms else m ∷ conversation ms

pub gather-conversation :
    (system : String) (ms : List Message) → (gather system ms).1 ≡ conversation ms
unfolding gather
gather-conversation system [] = refl
gather-conversation system (m ∷ ms) =
    ground
      (arith, gather-conversation system ms, gather-conversation (with_system system m.content) ms)

-- The texts of the parts of the type "text", in their order, and texts one after the other.
abbrev pub texts : List Part → List String
texts [] = []
texts (p ∷ ps) = if p.type == "text" then p.text ∷ texts ps else texts ps

abbrev pub concatenated : List String → String
concatenated [] = ""
concatenated (t ∷ ts) = t +++ concatenated ts

text_of-concatenated :
    (text : String) (ps : List Part) → text_of text ps ≡ text +++ concatenated (texts ps)
unfolding text_of
text_of-concatenated text [] = sym (append-nil text)
text_of-concatenated text (p ∷ ps) = elim (Bool-cases (p.type == "text")) [
  | inl is_text ↦ rw is_text (
      text_of-concatenated (text +++ p.text) ps
      ∙ append_assoc text p.text (concatenated (texts ps)))
  | inr other ↦ rw other (text_of-concatenated text ps)
]

module _ {W : Type 0} (wire : ServiceWire)
    (post : ServiceRequest → W → Result String ServiceAnswer × W) where
  -- The response is the answer: the provider's name, the model that the service names, the content,
  -- and its counts, and no fallback.
  abbrev pub IsResponse :
      (provider model content : String) → (prompt_tokens completion_tokens : ℤ) → Response → Type 0
  IsResponse provider model content prompt_tokens completion_tokens resp =
      (resp.provider ≡ provider)
      × (resp.model ≡ model)
      × (resp.content ≡ content)
      × (resp.usage.prompt_tokens ≡ prompt_tokens)
      × (resp.usage.completion_tokens ≡ completion_tokens)
      × (resp.fallback_from ≡ "")

  response_iff :
      (made resp : Response)
      → made.fallback_from ≡ ""
      → (◌≡◌ {A = Result String Response} (ok made) (ok resp))
        ↔ IsResponse made.provider made.model made.content made.usage.prompt_tokens
            made.usage.completion_tokens resp
  response_iff made resp h = (
    λ e.
        let same : resp ≡ made = cc in
        (
          ap (λ (x : Response). x.provider) same,
          ap (λ (x : Response). x.model) same,
          ap (λ (x : Response). x.content) same,
          ap (λ (x : Response). x.usage.prompt_tokens) same,
          ap (λ (x : Response). x.usage.completion_tokens) same,
          ap (λ (x : Response). x.fallback_from) same ∙ h,
        ),
    λ (p, m, c, t, u, f).
        let used : ◌≡◌ {A = TokenUsage} made.usage resp.usage = cc in
        let same : ◌≡◌ {A = Response} made resp = cc in ap ok same,
  )

  anthropic_response_iff :
      (a : AnthropicResponse) (resp : Response)
      → (◌≡◌ {A = Result String Response} (ok (anthropic_response wire post a)) (ok resp))
        ↔ IsResponse "anthropic" a.model
            (concatenated (texts a.content))
            a.input_tokens
            a.output_tokens
            resp
  anthropic_response_iff a resp =
      let joined : text_of "" a.content ≡ concatenated (texts a.content) =
        text_of-concatenated "" a.content ∙ append.nil (concatenated (texts a.content)) in
      rw joined (
        response_iff
          (record (anthropic_response wire post a) { content = concatenated (texts a.content) })
          resp refl)

  azure_chosen_iff :
      (a : AzureChatResponse) (choices : List String) (resp : Response)
      → (azure_chosen wire post a choices ≡ ok resp) ↔ (
          (content : String) × (more : List String) × (choices ≡ content ∷ more)
          × IsResponse "azure-openai" a.model content a.prompt_tokens a.completion_tokens resp)
  azure_chosen_iff a [] resp = (λ h. absurd cc, λ (content, more, e, r). absurd cc)
  azure_chosen_iff a (first ∷ rest) resp =
      let made : Response = record {
        provider = "azure-openai";
        model = a.model;
        content = first;
        usage = record { prompt_tokens = a.prompt_tokens; completion_tokens = a.completion_tokens };
        fallback_from = "";
      } in
      let (to, from) = response_iff made resp refl in
      (
        λ h. (first, rest, refl, to h),
        λ (content, more, e, r). let same : first ≡ content = cc in from (rw same r),
      )

  -- The request was written and answered, and the response is the answer: the provider's name, the
  -- model that the service names, the text parts joined in their order, and its counts.
  abbrev pub AnthropicSays : AnthropicProvider → String → Request → W → Response → Type 0
  AnthropicSays p model req w resp =
      (sent : String) × (a : AnthropicResponse) × (wire.marshal_anthropic
          (anthropic_request model req)
        ≡ ok sent)
      × Says wire post wire.unmarshal_anthropic (λ x. x.error)
          (post (anthropic_call wire post p sent) w).0 a
      × IsResponse "anthropic" a.model (concatenated (texts a.content)) a.input_tokens
          a.output_tokens resp

  -- The same of the first choice, which there must be.
  abbrev pub AzureSays : AzureOpenAiProvider → String → Request → W → Response → Type 0
  AzureSays p deployment req w resp =
      (sent : String) × (a : AzureChatResponse) × (wire.marshal_azure (azure_request wire post req)
        ≡ ok sent)
      × Says wire post wire.unmarshal_azure (λ x. x.error)
          (post (azure_call wire post p deployment sent) w).0 a
      × (content : String) × (more : List String) × (a.choices ≡ content ∷ more)
      × IsResponse "azure-openai" a.model content a.prompt_tokens a.completion_tokens resp

  anthropic_complete_iff :
      (p : AnthropicProvider) (model : String) (req : Request) (w : W) (resp : Response)
      → ((anthropic_complete wire post p model req w).0 ≡ ok resp)
        ↔ AnthropicSays p model req w resp
  unfolding anthropic_complete
  anthropic_complete_iff p model req w resp =
      elim (Result-cases (wire.marshal_anthropic (anthropic_request model req))) [
        | inr (e, failed) ↦ (
          λ h. let k = rw (failed, anthropic_complete) at h in absurd cc,
          λ (sent, a, m, said, r). absurd cc,
        )
        | inl (body, marshalled) ↦
            let (to, from) =
              answered_iff wire post "anthropic" wire.unmarshal_anthropic (λ x. x.error)
                (λ x. ok (anthropic_response wire post x))
                (post (anthropic_call wire post p body) w).0 resp in
            (
              λ h.
                  let (a, said, r) = to (rw (marshalled, anthropic_complete) at h) in
                  (body, a, marshalled, said, (anthropic_response_iff a resp).0 r),
              λ (sent, a, m, said, r).
                  let same : body ≡ sent = cc in
                  rw (marshalled, anthropic_complete)
                    (from (a, rw same said, (anthropic_response_iff a resp).1 r)),
            )
      ]

  azure_complete_iff :
      (p : AzureOpenAiProvider) (deployment : String) (req : Request) (w : W) (resp : Response)
      → ((azure_complete wire post p deployment req w).0 ≡ ok resp)
        ↔ AzureSays p deployment req w resp
  unfolding azure_complete
  azure_complete_iff p deployment req w resp =
      elim (Result-cases (wire.marshal_azure (azure_request wire post req))) [
        | inr (e, failed) ↦ (
          λ h. let k = rw (failed, azure_complete) at h in absurd cc,
          λ (sent, a, m, said, content, more, e, whole). absurd cc,
        )
        | inl (body, marshalled) ↦
            let (to, from) =
              answered_iff wire post "azure-openai" wire.unmarshal_azure (λ x. x.error)
                (λ x. azure_chosen wire post x x.choices)
                (post (azure_call wire post p deployment body) w).0 resp in
            (
              λ h.
                  let (a, said, r) = to (rw (marshalled, azure_complete) at h) in
                  let (content, more, e, whole) = (azure_chosen_iff a a.choices resp).0 r in
                  (body, a, marshalled, said, content, more, e, whole),
              λ (sent, a, m, said, content, more, e, whole).
                  let same : body ≡ sent = cc in
                  rw (marshalled, azure_complete)
                    (from (
                      a,
                      rw same said,
                      (azure_chosen_iff a a.choices resp).1 (content, more, e, whole),
                    )),
            )
      ]

  -- A provider gives a response exactly when its request can be written, the service answers 200, and
  -- the body decodes and carries no error; the response is then what the body says, under the model
  -- that the service names. To Anthropic the messages of a role other than "system" go in their
  -- order. Azure must give a choice, and the first one counts.
  pub complete_iff :
      (p : AnthropicProvider) (q : AzureOpenAiProvider) (model : String) (req : Request) (w : W)
      (resp : Response)
      → (((anthropic_complete wire post p model req w).0 ≡ ok resp)
          ↔ AnthropicSays p model req w resp)
        × (((azure_complete wire post q model req w).0 ≡ ok resp) ↔ AzureSays q model req w resp)
        × ((anthropic_request model req).messages ≡ conversation req.messages)
  unfolding anthropic_request
  complete_iff p q model req w resp = (
    anthropic_complete_iff p model req w resp,
    azure_complete_iff q model req w resp,
    gather-conversation "" req.messages,
  )
