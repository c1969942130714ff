-- ===== src/Lib.antt =====
-- HelmDeep is a gateway between AI agents and the tools and models they use. Each call is
-- identified, checked against declared agents and tools, decided by a policy, recorded in a
-- tamper-evident ledger and only then passed on.
--
-- The parts, and the files that model them:
--   Types            pkg/types: subjects, actions, decisions, records, tool calls and results.
--   Json             the values that encoding/json decodes, and its two operations as parameters.
--   ToolRegistry, AgentRegistry, ModelCatalog
--                    pkg/toolregistry, pkg/agentregistry, pkg/modelcatalog: `new`, `find` (Lookup).
--   Mcp, Identity, Audit, Policy
--                    the interfaces of pkg/mcp, pkg/identity, pkg/audit and pkg/policy: records of
--                    functions over a state `W` of the world, which each call reads and changes.
--                    Mcp/StaticRegistry is pkg/mcp/registry.go.
--   Mcp/Server       pkg/mcp/server.go, meta.go, jsonrpc.go: Mcp/Server/Checks is serveHTTP up to the
--                    dispatch (`screen`), Mcp/Server/Dispatch the rest (`serve_http`).
--   Mcp/Client, Mcp/Egress
--                    pkg/mcp/client.go and egress.go. Mcp/Client/Wire and Mcp/Client/Delivery put
--                    the client before the server.
--   Identity         Identity/Tokens is pkg/identity/jwt.go, Identity/Broker pkg/identity/broker.go.
--   DevIssuer        internal/devissuer: `new`, `issue_sit`, `exchange`, and DevIssuer/Server its
--                    handlers. DevIssuer/OverHttp puts the broker before the issuer's server.
--   Health           internal/health: `livez`, `healthz`.
--   Command          cmd/helmdeep-gateway: Command/Config (config.go) and Command/Serve (the choice of
--                    the identity source in main.go).
--   Gateway          internal/gateway. Gateway/Usage (usage.go), Gateway/Provenance (provenance.go),
--                    Gateway/Obligations (obligations.go), Gateway/Calls (the denials, labels and
--                    records of gateway.go), Gateway/StaticTokens (identity.go), Gateway/CallTool
--                    (CallTool and ListTools), Gateway/Ledger (the gateway over the file store),
--                    Gateway/Endpoint (the protocol server before it). CallTool is
--                    cut where it waits for an answer of the world: `identified`, `screened`, `route`,
--                    `consult`, `enforce`, `recorded`, `act_through`, `exchanged`, `forward`, `answered`
--                    follow each other in the order of the code.
--   ModelGateway     pkg/modelgw/modelgw.go: New, and in ModelGateway/Complete the handler Complete,
--                    cut in the same way. ModelGateway/Providers is anthropic.go and
--                    azureopenai.go.
--   Audit/FileStore  pkg/audit/file_store.go: the file is its bytes, and a list of outcomes says what
--                    becomes of each write (written, not opened, cut short, not synced).
--   Policy/Opa       pkg/policy/opa.go over an engine that compiles and evaluates.
--   PolicyService    pkg/policyservice: Bundle (Sign, Verify, the inventory of a tree of files) and
--                    Loader (the verifying loader and the stamping store).
--   Base             what the parts share: tests on numbers, results, maps as association lists,
--                    texts, and lemmas on them.
--   Tests            concrete runs.
--
-- How the parts interact: a request of an agent passes the checks of the protocol server, which asks
-- its handler, the gateway. The gateway and the model gateway call a resolver, a decider, a store, a
-- broker, upstreams and providers through the interfaces. Their theorems put a log into the world
-- (`traced`) that notes each such call, or a predicate that each call keeps (Gateway/CallTool/Keeps),
-- and so hold whatever those parts answer. The parts are also put together as the code does: the
-- server, the gateway and the file store (Gateway/Endpoint); the client and the server
-- (Mcp/Client/Delivery); the broker and the issuer (DevIssuer/OverHttp); the verifying loader and the
-- OPA decider. A mutex of the source makes an operation one step.
--
-- Numbers: times are nanoseconds in ℕ, and counters do not wrap. All loops are structural
-- recursion; none needs fuel.
--
-- Parameters: encoding/json, YAML, durations, SHA-256, Ed25519, base64, OPA, the JWT library and its
-- keys, HTTP forms, the file system at a load, crypto/rand, the verbs %q and %d of fmt, and the remote
-- ends (upstream servers and model services), and what net/http makes of a header value. A law that a
-- theorem needs of them stands among its hypotheses. Of the JWT library that includes how it reads a
-- list: as `[]string` only where its claim is named, and as `[]any` elsewhere.
--
-- Not modelled: the sockets, timeouts and the mounting of handlers of the HTTP server, the flags and
-- signals of the commands, the commands on policy bundles, the mock upstream, and key files.
pub mod Base
pub mod Json
pub mod Types
pub mod ToolRegistry
pub mod AgentRegistry
pub mod ModelCatalog
pub mod Mcp
pub mod Identity
pub mod Policy
pub mod Audit
pub mod Gateway
pub mod DevIssuer
pub mod Health
pub mod Command
pub mod ModelGateway
pub mod PolicyService
pub mod Tests
