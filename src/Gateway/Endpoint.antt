-- ===== src/Gateway/Endpoint.antt =====
-- The gateway behind the protocol server, as cmd/helmdeep-gateway puts them together.
use helmdeep.Base.{Dict, String, none, List, [], ◌∷◌, ◌≡◌, Result, ok, err, All}
use helmdeep.Types.{ToolResult}
use helmdeep.Mcp.{CallContext}
use helmdeep.Json.{Json}
use helmdeep.Mcp.Server.{HttpRequest, Wire, Handler, HandlerError, protocol, Server}
use helmdeep.Mcp.Server.Dispatch.{serve_http}
use helmdeep.Mcp.Server.Keeps.{ServerKeeps, serve_http-Keeps}
use helmdeep.Audit.FileStore.{FileStore, RecordCodec, VerifyError, verify}
use helmdeep.Audit.FileStore.Chain.{IsFaithful, IsClean, IsIntact, verify_of_IsIntact}
use helmdeep.Gateway.Calls.{Gateway, State, Reply, result, protocol_error}
use helmdeep.Gateway.CallTool.{call_tool, list_tools}
use helmdeep.Gateway.CallTool.Trace.{Event, traced, log_of, IsGoverned}
use helmdeep.Gateway.CallTool.Trace.Governed.{call_tool-IsGoverned}
use helmdeep.Gateway.CallTool.Keeps.{ListKeeps, call_tool-Keeps, list_tools-Keeps}
use helmdeep.Gateway.Ledger.{on_file, IsSound, on_file-Keeps}

-- The gateway as the handler of the server.
abbrev pub answer_of : Reply → Result HandlerError ToolResult
answer_of (result r) = ok r
answer_of (protocol_error e) = err (protocol e)

unfoldable pub as_handler : {W : Type 0} → Gateway W → Handler (State W)
as_handler g = record {
  list_tools = λ ctx cursor st. let (res, st') = list_tools g ctx cursor st in (ok res, st');
  call_tool =
      λ ctx name args st. let (reply, st') = call_tool g ctx name args st in (answer_of reply, st');
}

module _ {W : Type 0} (allowed_origins : List String) (version : String) (wire : Wire) where
  -- `draw` reads crypto/rand for the number of a request.
  abbrev pub before : (W → String × W) → Gateway W → Server (State W)
  before draw g = record {
    allowed_origins = allowed_origins;
    handler = as_handler g;
    version = version;
    wire = wire;
    new_request_id = λ st. let (id, w) = draw st.world in (id, record st { world = w });
  }

unfoldable pub serve_all : {W : Type 0} → Server W → List HttpRequest → W → W
serve_all s [] w = w
serve_all s (r ∷ rs) w = serve_all s rs (serve_http s r w).1

serve_all-Keeps :
    {W : Type 0} (P : W → Type 0) (s : Server W) (k : ServerKeeps P s) (rs : List HttpRequest)
    (w : W)
    → P w
    → P (serve_all s rs w)
unfolding serve_all
serve_all-Keeps P s k [] w h = h
serve_all-Keeps P s k (r ∷ rs) w h =
    serve_all-Keeps P s k rs (serve_http s r w).1 (serve_http-Keeps P s k r w h)

before-Keeps :
    {W : Type 0} (P : W → Type 0) (allowed_origins : List String) (version : String) (wire : Wire)
    (draw : W → String × W) (g : Gateway W)
    → ((w : W) → P w → P (draw w).1)
    → ListKeeps P g
    → ((ctx : CallContext) (name : String) (args : Dict Json) (st : State W)
        → P st.world
        → P (call_tool g ctx name args st).1.world)
    → ServerKeeps (λ st. P st.world) (before allowed_origins version wire draw g)
unfolding as_handler
before-Keeps P allowed_origins version wire draw g d k c = record {
  ids = λ st h. d st.world h;
  lists = λ ctx cursor st h. list_tools-Keeps P g k ctx cursor st h;
  calls = c;
}

module _ {W : Type 0} (codec : RecordCodec) (describe : VerifyError → String)
    (allowed_origins : List String) (version : String) (wire : Wire) (draw : W → String × W) where
  abbrev pub draw_beside : FileStore × W → String × (FileStore × W)
  draw_beside (file, w) = let (id, w') = draw w in (id, (file, w'))

  -- The listener before the gateway before the file.
  abbrev pub endpoint : Gateway W → Server (State (FileStore × W))
  endpoint g = before allowed_origins version wire draw_beside (on_file codec describe g)

  -- Whatever requests reach the listener, well-formed or not and in whatever order, and whatever the
  -- resolver, the decider, the broker and the upstreams answer, a gateway that appends to an intact
  -- file leaves a file in which Verify finds no fault, as long as each write either succeeds or does
  -- not open the file.
  pub serve_all-verify :
      (g : Gateway W) (rs : List HttpRequest) (st : State (FileStore × W))
      → IsFaithful codec
      → IsIntact codec st.world.0
      → All IsClean st.world.0.outcomes
      → verify codec (serve_all (endpoint g) rs st).world.0 ≡ none
  serve_all-verify g rs st f intact clean =
      let kept =
        serve_all-Keeps (λ x. IsSound codec describe x.world) (endpoint g)
          (before-Keeps (IsSound codec describe) allowed_origins version wire draw_beside
            (on_file codec describe g) (λ w h. h) (on_file-Keeps codec describe g f).shared
            (call_tool-Keeps (IsSound codec describe) (on_file codec describe g)
              (on_file-Keeps codec describe g f)))
          rs st (intact, clean) in
      verify_of_IsIntact codec (serve_all (endpoint g) rs st).world.0 kept.0

traced-ListKeeps : {W : Type 0} (g : Gateway W) → ListKeeps (λ w. IsGoverned w.1) (traced g)
unfolding traced
traced-ListKeeps g = record {
  clock = λ w h. h;
  identity = λ credential w h. h;
  pdp = λ d req w h. h;
}

module _ {W : Type 0} (allowed_origins : List String) (version : String) (wire : Wire)
    (draw : W → String × W) where
  abbrev pub draw_unnoted : W × List Event → String × (W × List Event)
  draw_unnoted (w, log) = let (id, w') = draw w in (id, (w', log))

  -- The listener before the gateway whose world keeps a log.
  abbrev pub traced_endpoint : Gateway W → Server (State (W × List Event))
  traced_endpoint g = before allowed_origins version wire draw_unnoted (traced g)

  -- No sequence of requests to the listener, well-formed or not, makes the gateway call an upstream
  -- but right after it has resolved a credential to a subject, has got a decision that allows that
  -- very subject this tool with these arguments, and has appended, without an error, the record of
  -- that decision, and with no credential but the one that was minted after the record for this
  -- upstream and tool, from the credential that was resolved.
  pub serve_all-IsGoverned :
      (g : Gateway W) (rs : List HttpRequest) (st : State (W × List Event))
      → IsGoverned (log_of st)
      → IsGoverned (log_of (serve_all (traced_endpoint g) rs st))
  serve_all-IsGoverned g rs st h =
      serve_all-Keeps (λ x. IsGoverned (log_of x)) (traced_endpoint g)
        (before-Keeps (λ w. IsGoverned w.1) allowed_origins version wire draw_unnoted (traced g)
          (λ w k. k) (traced-ListKeeps g) (call_tool-IsGoverned g))
        rs st h
