-- ===== src/Tests/Traffic.antt =====
-- Runs of the gateway over the file of records, and of the file as a ledger.
use helmdeep.Base.{
  String, ℕ, List, [], ◌∷◌, none, some, false, ok, ◌≡◌, refl, true, if◌then◌else◌, ◌==◌, ◌⊎◌,
}
use helmdeep.Mcp.Server.{HttpRequest, Wire, Server, protocol_version_current}
use helmdeep.Mcp.Server.Checks.{screen}
use helmdeep.Mcp.Server.Dispatch.{dispatch, call_context, serve_http}
use helmdeep.Mcp.Server.Admission.{IsAdmitted}
use helmdeep.Mcp.Server.Refusal.{IsClientError, serve_http_lem}
use helmdeep.Mcp.Server.Agreement.{logged, AddsOne, serve_http-AddsOne}
use helmdeep.AgentRegistry
use helmdeep.ToolRegistry
use helmdeep.Audit.FileStore
use helmdeep.Audit.FileStore.{FileStore, WriteOutcome, written, verify, lines_of}
use helmdeep.Audit.FileStore.Chain.{IsIntact, IsChained-nil, append_all}
use helmdeep.Audit.FileStore.Ledger.{read_all, ledger_of, append_all-refines}
use helmdeep.Gateway.Usage.{new_usage_tracker}
use helmdeep.Gateway.Provenance.{new_provenance_cache}
use helmdeep.Gateway.Calls.{
  Gateway, State, agent_deny_reason, append, decide, taint_arguments, record_result_provenance,
}
use helmdeep.Gateway.CallTool.{call_tool, list_tools, is_visible}
use helmdeep.Gateway.CallTool.Trace.{traced, log_of, IsGoverned}
use helmdeep.Gateway.CallTool.Trace.Complete.{IsAccounted, call_tool-IsAccounted}
use helmdeep.Gateway.Ledger.{on_file}
use helmdeep.Gateway.Endpoint.{
  as_handler, endpoint, serve_all, serve_all-verify, traced_endpoint, serve_all-IsGoverned,
}
use helmdeep.Tests.Requests.{gateway, context, start}
use helmdeep.Tests.Ledger.{subject, draft, codec, codec-IsFaithful, outcomes}

call_tool-IsAccounted_example :
    IsAccounted "kb.search"
      (log_of start)
      (call_tool (traced gateway) context "kb.search" [] start).0
      (log_of (call_tool (traced gateway) context "kb.search" [] start).1)
call_tool-IsAccounted_example = call_tool-IsAccounted gateway context "kb.search" [] start

append_all-refines_example :
    read_all codec (
      lines_of
        (append_all codec
          (draft ∷ draft ∷ [])
          (record { last_hash = ""; content = []; outcomes = outcomes })).content)
    ≡ ok (
        ledger_of codec
          (draft ∷ draft ∷ [])
          (record { last_hash = ""; content = []; outcomes = outcomes })
          [])
append_all-refines_example =
    append_all-refines codec (draft ∷ draft ∷ []) outcomes codec-IsFaithful (tt, (tt, tt))

-- The gateway's record of an allowed call at time 7 is the one that the codec knows.
abbrev audited : Gateway ℕ
audited = record gateway { identity = λ credential w. (ok subject, w) }

abbrev empty_file : State (FileStore × ℕ)
empty_file = record {
  usage = new_usage_tracker;
  prov = new_provenance_cache;
  world = (record { last_hash = ""; content = []; outcomes = written ∷ [] }, 7);
}

empty_file-IsIntact : IsIntact codec empty_file.world.0
empty_file-IsIntact = record { complete = tt; chained = IsChained-nil codec }

abbrev wire : Wire
wire = record {
  decode_request = λ b. ok (record { id = "1"; method = "tools/call"; params = b });
  decode_meta = λ b. ok (
      some (record {
        protocol_version = protocol_version_current;
        client_info = none;
        client_capabilities = "{}";
      }));
  decode_cursor = λ b. "";
  decode_call = λ b. ok (record { name = "kb.search"; arguments = "" });
  decode_arguments = λ b. ok [];
  base64_decode = λ b. ok b;
  marshals = λ b. true;
}

abbrev pub server : Server ℕ
server = record {
  allowed_origins = "https://console" ∷ [];
  handler = record {
    list_tools = λ cc cursor w. (ok (record { tools = []; next_cursor = "" }), w);
    call_tool = λ cc name args w.
        (ok (record { content = ""; structured_content = ""; is_error = false }), w);
  };
  version = "dev";
  wire = wire;
  new_request_id = λ w. ("r", w);
}

abbrev post : HttpRequest
post = record {
  method = "POST";
  header = λ h.
      if h == "Mcp-Method"
      then "tools/call"
      else if h == "Mcp-Name"
      then "kb.search"
      else if h == "MCP-Protocol-Version"
      then protocol_version_current
      else if h == "Authorization"
      then "Bearer secret"
      else "";
  body = "{}";
}

post_answered : (serve_http server post 7).0.status ≡ 200
unfolding serve_http screen
post_answered = refl

serve_http_lem_example :
    ((req : _) × (meta : _) × IsAdmitted server.wire server.allowed_origins post req meta
      × (serve_http server post 7
          ≡ dispatch server req
              (call_context server post meta (server.new_request_id 7).0)
              (server.new_request_id 7).1))
    ⊎ (((req : _) (meta : _) → ¬ IsAdmitted server.wire server.allowed_origins post req meta)
        × ((serve_http server post 7).1 ≡ 7)
        × IsClientError (serve_http server post 7).0)
serve_http_lem_example = serve_http_lem server post 7

serve_http-AddsOne_example : AddsOne server post [] (serve_http (logged server) post (7, [])).1.1
serve_http-AddsOne_example = serve_http-AddsOne server post 7 []

-- Two calls of a tool and one request that is refused reach the listener.
abbrev traffic : List HttpRequest
traffic = post ∷ record post { method = "GET" } ∷ post ∷ []

abbrev draw : ℕ → String × ℕ
draw w = ("r", w)

-- The first call writes its record.
traffic_written :
    (serve_all
      (endpoint codec (λ e. "") [] "dev" wire draw audited)
      traffic
      empty_file).world.0.content
    ≡ 49 ∷ 10 ∷ []
unfolding serve_all serve_http screen as_handler on_file call_tool agent_deny_reason
    AgentRegistry.find ToolRegistry.find append FileStore.append decide list_tools is_visible
    taint_arguments record_result_provenance
traffic_written = refl

serve_all-verify_example :
    verify codec
      (serve_all (endpoint codec (λ e. "") [] "dev" wire draw audited) traffic empty_file).world.0
    ≡ none
serve_all-verify_example =
    serve_all-verify codec (λ e. "") [] "dev" wire draw audited traffic empty_file codec-IsFaithful
      empty_file-IsIntact (tt, tt)

serve_all-IsGoverned_example :
    IsGoverned (log_of (serve_all (traced_endpoint [] "dev" wire draw audited) traffic start))
serve_all-IsGoverned_example = serve_all-IsGoverned [] "dev" wire draw audited traffic start tt
