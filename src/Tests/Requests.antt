-- ===== src/Tests/Requests.antt =====
-- Runs on the tool gateway: one agent, one upstream and a policy that allows all.
use helmdeep.Base.{
  is_some, ◌⊎◌, ◌≢◌, ℕ, ◌+◌, ltb, String, List, [], ◌∷◌, true, false, none, some, ok, ◌≡◌, refl,
  sym, ◌∙◌, pos, All, Any, ◌==◌, if◌then◌else◌, arith,
}
use helmdeep.Base.Text.{split}
use helmdeep.Json.{Json, str, obj, field, end, Codec}
use helmdeep.Types.{Tool, Subject, Provenance, DecisionResponse, outcome_allow, ToolResult}
use helmdeep.Mcp.{CallContext, Upstream}
use helmdeep.Mcp.StaticRegistry.{StaticRegistry, refresh, resolve as resolve_tool}
use helmdeep.Mcp.StaticRegistry.Index.{has_tool, refresh_lem}
use helmdeep.Gateway.Usage.{new_usage_tracker}
use helmdeep.Gateway.Usage.Window.{calls_numbered, counts_among, count_from}
use helmdeep.Gateway.Provenance.{
  new_provenance_cache, record_value, record_top_level_strings, resolve, provenance_cache_ttl,
  untrusted_provenance,
}
use helmdeep.Gateway.Provenance.Laws.{resolve-record, record_top-IsBounded, IsBounded, is_full}
use helmdeep.Gateway.Provenance.Origin.{Seen, replay, Vouches, resolve-trusted}
use helmdeep.Gateway.Obligations.{
  redact_in_json, child, set_at_path, redacted_placeholder, apply_obligations,
}
use helmdeep.Gateway.Obligations.Laws.{IsReplaced, get_at_path}
use helmdeep.Gateway.Obligations.Redaction.{
  redact_hides, redact_unresolved, apply_obligations_hides,
}
use helmdeep.Gateway.Calls.{Gateway, State}
use helmdeep.Gateway.CallTool.{call_tool, list_tools}
use helmdeep.Gateway.CallTool.Trace.{Event}
use helmdeep.Gateway.CallTool.Listing.{SameCounters, IsDeclared, list_tools_lem}

abbrev agent : Subject
agent = record {
  id = "agent:planner";
  kind = "agent";
  agent_version = "";
  delegation_chain = [];
  scopes = [];
  trust_level = pos 1;
}

abbrev found : ToolResult
found = record { content = "[]"; structured_content = ""; is_error = false }

abbrev search : Tool
search = record { name = "kb.search"; description = ""; input_schema = ""; upstream = "kb" }

abbrev kb : Upstream ℕ
kb = record {
  name = "kb";
  list_tools = λ w. (ok (search ∷ []), w);
  call_tool = λ call w. (ok found, w);
}

abbrev codec : Codec
codec = record {
  marshal = λ v. ok "after";
  unmarshal = λ b.
      if b == "after"
      then ok (obj (field "ssn" (str redacted_placeholder) end))
      else ok (obj (field "ssn" (str "123") end));
}

abbrev allow_all : DecisionResponse
allow_all = record { outcome = outcome_allow; obligations = []; policy_id = "p"; reason = "" }

-- The state of the world is its clock.
abbrev pub gateway : Gateway ℕ
gateway = record {
  identity = λ credential w. (ok agent, w);
  pdp = λ deadline req w. (ok allow_all, w);
  audit_log = record { append = λ rec w. (none, w); verify = λ w. (none, w) };
  registry = record {
    upstreams = kb ∷ [];
    resolve = λ name. if name == "kb.search" then some kb else none;
    tools = search ∷ [];
  };
  upstream_provenance = [];
  decision_timeout = pos 0;
  broker = some (λ credential upstream tool w. (ok "token", w));
  tool_reg = record {
    by_id =
        (
          "kb.search",
          record {
            tool_id = "kb.search";
            upstream = "kb";
            risk = "low";
            data_classes = [];
            scopes = [];
          },
        )
        ∷ [];
  };
  agent_reg = record {
    by_id =
        (
          "agent:planner",
          record {
            agent_id = "agent:planner";
            version = "";
            owner = "ops";
            risk = "low";
            data_classes = [];
          },
        )
        ∷ [];
  };
  now = λ w. (w, w);
  codec = codec;
  quote = λ s. s;
}

abbrev pub context : CallContext
context = record {
  credential = "secret";
  client_info = none;
  protocol_version = "";
  request_id = "1";
}

abbrev pub start : State (ℕ × List Event)
start = record { usage = new_usage_tracker; prov = new_provenance_cache; world = (7, []) }

abbrev idle : State ℕ
idle = record { usage = new_usage_tracker; prov = new_provenance_cache; world = 7 }

list_tools_lem_example :
    SameCounters (list_tools gateway context "" idle).1 idle
    × All (IsDeclared gateway) (list_tools gateway context "" idle).0.tools
list_tools_lem_example = list_tools_lem gateway context "" idle

abbrev mixed : List (String × ℕ)
mixed = ("a", 5) ∷ ("b", 6) ∷ ("a", 9) ∷ []

calls_numbered_example : counts_among new_usage_tracker "a" mixed ≡ count_from 1 (5 ∷ 9 ∷ [])
calls_numbered_example =
    calls_numbered new_usage_tracker "a" mixed 5 (9 ∷ []) refl tt (omega arith, tt)

abbrev internal : Provenance
internal = record { source = "kb"; trusted = true }

abbrev answer : Json
answer = obj (field "id" (str "doc-1") end)

abbrev seen : List Seen
seen = record { subject = "a"; decoded = answer; provenance = internal; time = 10 } ∷ []

seen_trusted : (resolve (replay seen) "a" "doc-1" 20).trusted ≡ true
unfolding resolve replay record_top_level_strings
seen_trusted = refl

resolve-trusted_example : Any (Vouches "a" "doc-1" 20 (resolve (replay seen) "a" "doc-1" 20)) seen
resolve-trusted_example = resolve-trusted seen "a" "doc-1" 20 seen_trusted

resolve-record_example :
    resolve (record_value new_provenance_cache "a" "doc-1" internal 10) "a" "doc-1" 20 ≡ (
      if "a" == "a"
      then (if "doc-1" == "doc-1"
          then (if ltb 20 (10 + provenance_cache_ttl) then internal else untrusted_provenance)
          else if is_full new_provenance_cache "a"
          then untrusted_provenance
          else resolve new_provenance_cache "a" "doc-1" 20)
      else resolve new_provenance_cache "a" "doc-1" 20)
resolve-record_example =
    resolve-record new_provenance_cache "a" "doc-1" internal 10 "a" "doc-1" 20 (λ e. cc)

new-IsBounded : IsBounded new_provenance_cache
new-IsBounded = record { at = λ s m h. absurd cc }

record_top-IsBounded_example :
    IsBounded (record_top_level_strings new_provenance_cache "a" answer internal 10)
    × ((record_top_level_strings new_provenance_cache "a" answer internal 10).max_size
        ≡ new_provenance_cache.max_size)
record_top-IsBounded_example =
    record_top-IsBounded new_provenance_cache "a" answer internal 10 (omega arith) new-IsBounded

abbrev secret : Json
secret = obj (field "ssn" (str "123") end)

secret_found : get_at_path secret ("ssn" ∷ []) ≡ some (str "123")
unfolding get_at_path child
secret_found = refl

hidden :
    set_at_path secret ("ssn" ∷ []) (str redacted_placeholder)
    ≡ some (obj (field "ssn" (str redacted_placeholder) end))
unfolding set_at_path
hidden = refl

redact_hides_example :
    (v' : Json) × (codec.unmarshal (redact_in_json codec "before" ("ssn" ∷ [])) ≡ ok v')
    × IsReplaced secret v' ("ssn" ∷ []) (str redacted_placeholder)
redact_hides_example =
    redact_hides codec "before" secret (str "123") "ssn" [] (λ e. cc) refl secret_found
      (λ v' set. (
        "after",
        refl,
        let same : some v' ≡ some (obj (field "ssn" (str redacted_placeholder) end)) =
              sym set ∙ hidden in
            cc,
      ))

absent : (v : Json) → codec.unmarshal "before" ≡ ok v → get_at_path v ("name" ∷ []) ≡ none
unfolding get_at_path child
absent v e = let same : secret ≡ v = cc in rw (← same) refl

redact_unresolved_example : redact_in_json codec "before" ("name" ∷ []) ≡ "before"
redact_unresolved_example = redact_unresolved codec "before" ("name" ∷ []) absent

abbrev sensitive : ToolResult
sensitive = record { content = ""; structured_content = "before"; is_error = false }

-- One obligation that is no redaction stands before the redaction, and one after it.
apply_obligations_hides_example :
    (out : ToolResult) × (v' : Json) × (apply_obligations codec sensitive (
        record { type = "require_approval"; target = "" }
        ∷ record { type = "redact"; target = "structuredContent.ssn" }
        ∷ record { type = "require_approval"; target = "" }
        ∷ [])
      ≡ out)
    × (codec.unmarshal out.structured_content ≡ ok v')
    × IsReplaced secret v' ("ssn" ∷ []) (str redacted_placeholder)
    × (out.content ≡ "")
    × (out.is_error ≡ false)
unfolding apply_obligations split
apply_obligations_hides_example =
    apply_obligations_hides codec sensitive (record { type = "require_approval"; target = "" } ∷ [])
      (record { type = "require_approval"; target = "" } ∷ []) "structuredContent.ssn" "ssn" []
      secret (str "123") refl (λ e. cc, tt) (λ e. cc) refl secret_found
      (λ v' set. (
        "after",
        refl,
        let same : some v' ≡ some (obj (field "ssn" (str redacted_placeholder) end)) =
              sym set ∙ hidden in
            cc,
      ))

abbrev static : StaticRegistry ℕ
static = record { upstreams = kb ∷ []; by_tool = []; tools = [] }

refresh_lem_example :
    (((refresh static 7).0 ≢ none) × ((refresh static 7).1 ≡ static))
    ⊎ (((refresh static 7).0 ≡ none)
        × ((name : String)
            → is_some (resolve_tool (refresh static 7).1 name)
              ≡ has_tool name (refresh static 7).1.tools))
refresh_lem_example = refresh_lem static 7
