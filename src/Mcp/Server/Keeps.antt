-- ===== src/Mcp/Server/Keeps.antt =====
-- What a handler keeps of the world, the server before it keeps.
use helmdeep.Base.{String, Result, ok, err, Dict, ◌==◌, if_elim}
use helmdeep.Json.{Json}
use helmdeep.Types.{ToolResult}
use helmdeep.Mcp.{CallContext, ListToolsResult}
use helmdeep.Mcp.Server.{
  HttpRequest, RpcRequest, RequestMeta, ToolCallParams, HttpResponse, HandlerError, Server,
}
use helmdeep.Mcp.Server.Checks.{screen}
use helmdeep.Mcp.Server.Dispatch.{
  arguments_of, list_answered, call_answered, call_with_arguments, call_with_params,
  handle_list_tools, handle_call_tool, dispatch, served, serve_http,
}

module _ {W : Type 0} (P : W → Type 0) where
  pub record ServerKeeps (s : Server W) : Type 0 where
    pub ids : (w : W) → P w → P (s.new_request_id w).1
    pub lists :
        (ctx : CallContext) (cursor : String) (w : W)
        → P w
        → P (s.handler.list_tools ctx cursor w).1
    pub calls :
        (ctx : CallContext) (name : String) (args : Dict Json) (w : W)
        → P w
        → P (s.handler.call_tool ctx name args w).1

  module _ (s : Server W) (k : ServerKeeps s) where
    list_answered-Keeps :
        (id : String) (r : Result HandlerError ListToolsResult) (w : W)
        → P w
        → P (list_answered s id (r, w)).1
    list_answered-Keeps id (ok res) w h = h
    list_answered-Keeps id (err e) w h = h

    call_answered-Keeps :
        (id : String) (r : Result HandlerError ToolResult) (w : W)
        → P w
        → P (call_answered s id (r, w)).1
    call_answered-Keeps id (ok res) w h = h
    call_answered-Keeps id (err e) w h = h

    call_with_arguments-Keeps :
        (req : RpcRequest) (ctx : CallContext) (name : String) (args : Result String (Dict Json))
        (w : W)
        → P w
        → P (call_with_arguments s req ctx name args w).1
    call_with_arguments-Keeps req ctx name (err e) w h = h
    call_with_arguments-Keeps req ctx name (ok args) w h =
        call_answered-Keeps req.id _ _ (k.calls ctx name args w h)

    call_with_params-Keeps :
        (req : RpcRequest) (ctx : CallContext) (p : Result String ToolCallParams) (w : W)
        → P w
        → P (call_with_params s req ctx p w).1
    call_with_params-Keeps req ctx (err e) w h = h
    call_with_params-Keeps req ctx (ok p) w h =
        call_with_arguments-Keeps req ctx p.name (arguments_of s.wire p.arguments) w h

    dispatch-Keeps :
        (req : RpcRequest) (ctx : CallContext) (w : W) → P w → P (dispatch s req ctx w).1
    unfolding dispatch handle_list_tools handle_call_tool
    dispatch-Keeps req ctx w h =
        if_elim (λ (x : HttpResponse × W). P x.1) (req.method == "server/discover") _ _ h
          (if_elim (λ (x : HttpResponse × W). P x.1) (req.method == "tools/list") _ _
            (list_answered-Keeps req.id _ _ (k.lists ctx _ w h))
            (if_elim (λ (x : HttpResponse × W). P x.1) (req.method == "tools/call") _ _
              (call_with_params-Keeps req ctx (s.wire.decode_call req.params) w h) h))

    served-Keeps :
        (r : HttpRequest) (c : Result HttpResponse (RpcRequest × RequestMeta)) (w : W)
        → P w
        → P (served s r c w).1
    served-Keeps r (err response) w h = h
    served-Keeps r (ok (req, meta)) w h = dispatch-Keeps req _ _ (k.ids w h)

    pub serve_http-Keeps : (r : HttpRequest) (w : W) → P w → P (serve_http s r w).1
    unfolding serve_http
    serve_http-Keeps r w h = served-Keeps r (screen s.wire s.allowed_origins r) w h
