-- ===== src/Gateway/Ledger.antt =====
-- The gateway with pkg/audit/file_store.go as its audit log: the world outside is the file and the
-- rest.
use helmdeep.Base.{String, Option, none, some, ◌≡◌, map, All}
use mathlib.Core.Option
use helmdeep.Types.{ActionRecord}
use helmdeep.Mcp.{Upstream}
use helmdeep.Identity.{CredentialBroker}
use helmdeep.Audit.FileStore
use helmdeep.Audit.FileStore.{FileStore, RecordCodec, VerifyError, WriteOutcome, verify}
use helmdeep.Audit.FileStore.Chain.{IsFaithful, IsClean, IsIntact, append-IsIntact}
use helmdeep.Gateway.Calls.{Gateway}
use helmdeep.Gateway.CallTool.Keeps.{Keeps, BrokerKeeps, UpstreamKeeps}

-- The file store as the `audit.Store` of a gateway, beside the rest of the world.
module _ {W : Type 0} (codec : RecordCodec) (describe : VerifyError → String) where
  abbrev pub beside : {A : Type 0} → (W → A × W) → FileStore × W → A × (FileStore × W)
  beside ask (s, w) = let (a, w') = ask w in (a, (s, w'))

  abbrev pub upstream_beside : Upstream W → Upstream (FileStore × W)
  upstream_beside u = record {
    name = u.name;
    list_tools = beside u.list_tools;
    call_tool = λ call. beside (u.call_tool call);
  }

  abbrev pub broker_beside : CredentialBroker W → CredentialBroker (FileStore × W)
  broker_beside broker credential up tool = beside (broker credential up tool)

  abbrev pub append_to : ActionRecord → FileStore × W → Option String × (FileStore × W)
  append_to rec (s, w) = let (e, s') = FileStore.append codec rec s in (e, (s', w))

  unfoldable pub on_file : Gateway W → Gateway (FileStore × W)
  on_file g = record {
    identity = λ credential. beside (g.identity credential);
    pdp = λ deadline req. beside (g.pdp deadline req);
    audit_log = record {
      append = append_to;
      verify = λ world. (Option.map describe (verify codec world.0), world);
    };
    registry = record {
      upstreams = map upstream_beside g.registry.upstreams;
      resolve = λ name. Option.map upstream_beside (g.registry.resolve name);
      tools = g.registry.tools;
    };
    upstream_provenance = g.upstream_provenance;
    decision_timeout = g.decision_timeout;
    broker = Option.map broker_beside g.broker;
    tool_reg = g.tool_reg;
    agent_reg = g.agent_reg;
    now = beside g.now;
    codec = g.codec;
    quote = g.quote;
  }

  -- The file is intact, and no write is yet to come that damages it.
  abbrev pub IsSound : FileStore × W → Type 0
  IsSound (s, w) = IsIntact codec s × All IsClean s.outcomes

  on_file-broker :
      (broker : Option (CredentialBroker W)) → BrokerKeeps IsSound (Option.map broker_beside broker)
  on_file-broker none = tt
  on_file-broker (some broker) = λ credential up tool w h. h

  on_file-upstream :
      (found : Option (Upstream W)) (u : Upstream (FileStore × W))
      → Option.map upstream_beside found ≡ some u
      → UpstreamKeeps IsSound u
  on_file-upstream none u e = cc
  on_file-upstream (some v) u e =
      let same : upstream_beside v ≡ u = cc in rw (← same) (λ call w h. h)

  pub on_file-Keeps : (g : Gateway W) → IsFaithful codec → Keeps IsSound (on_file g)
  unfolding on_file
  on_file-Keeps g f = record {
    shared = record { clock = λ w h. h; identity = λ credential w h. h; pdp = λ d req w h. h };
    audit = λ rec w h. append-IsIntact codec rec w.0 f h.1 h.0;
    broker = on_file-broker g.broker;
    upstreams = λ name u e. on_file-upstream (g.registry.resolve name) u e;
  }
