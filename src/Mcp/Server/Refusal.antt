-- ===== src/Mcp/Server/Refusal.antt =====
-- Every refusal of serveHTTP's checks is an error of the client, and reaches no handler.
use helmdeep.Base.{
  ◌≤◌, ◌<◌, String, Bool, true, false, List, Result, ok, err, ◌>>=◌, fail_if, ◌≡◌, ◌≢◌, ◌⊎◌, inl,
  inr, refl, arith,
}
use helmdeep.Mcp.Server.{
  HttpRequest, RpcRequest, RpcError, RequestMeta, HttpResponse, Wire, Server, write_error,
}
use helmdeep.Mcp.Server.Checks.{
  check_origin, check_method, validate_standard_headers, parse_meta, bad_request, parsed,
  check_version, screen,
}
use helmdeep.Mcp.Server.Dispatch.{dispatch, call_context, served, serve_http}
use helmdeep.Mcp.Server.Admission.{IsAdmitted, screen_iff}

abbrev pub IsClientError : HttpResponse → Type 0
IsClientError response = (400 ≤ response.status) × (response.status < 500)

-- A check that fails, if it does, with an error of the client.
RefusesWell {ℓ} : {A : Type ℓ} → Result HttpResponse A → Type 0
RefusesWell (ok a) = Unit
RefusesWell (err response) = IsClientError response

RefusesWell-bind {ℓ κ} :
    {A : Type ℓ} {B : Type κ} (c : Result HttpResponse A) (f : A → Result HttpResponse B)
    → RefusesWell c
    → ((a : A) → RefusesWell (f a))
    → RefusesWell (c >>= f)
unfolding RefusesWell
RefusesWell-bind (ok a) f h k = k a
RefusesWell-bind (err e) f h k = h

RefusesWell-ok {ℓ} : {A : Type ℓ} (a : A) → RefusesWell (ok a)
unfolding RefusesWell
RefusesWell-ok a = tt

RefusesWell-fail_if :
    (b : Bool) (response : HttpResponse) → IsClientError response → RefusesWell (fail_if b response)
unfolding RefusesWell
RefusesWell-fail_if true response h = h
RefusesWell-fail_if false response h = tt

RefusesWell-write_error :
    (b : Bool) (id : String) (e : RpcError) → RefusesWell (fail_if b (write_error 400 id e))
unfolding RefusesWell
RefusesWell-write_error true id e = omega arith
RefusesWell-write_error false id e = tt

module _ (wire : Wire) where
  RefusesWell-bad_request {ℓ} :
      {A : Type ℓ} (id : String) (c : Result RpcError A) → RefusesWell (bad_request wire id c)
  unfolding RefusesWell
  RefusesWell-bad_request id (ok a) = tt
  RefusesWell-bad_request id (err e) = omega arith

  RefusesWell-parsed : (c : Result String RpcRequest) → RefusesWell (parsed wire c)
  unfolding RefusesWell
  RefusesWell-parsed (ok req) = tt
  RefusesWell-parsed (err e) = omega arith

  RefusesWell-check_version :
      (r : HttpRequest) (req : RpcRequest) (meta : RequestMeta)
      → RefusesWell (check_version wire r req meta)
  unfolding check_version
  RefusesWell-check_version r req meta = search (RefusesWell-bind, RefusesWell-write_error)

  RefusesWell-screen :
      (allowed : List String) (r : HttpRequest) → RefusesWell (screen wire allowed r)
  unfolding screen check_origin check_method
  RefusesWell-screen allowed r =
      RefusesWell-bind (check_origin allowed r) _ (RefusesWell-fail_if _ _ (omega arith)) (λ _.
        RefusesWell-bind (check_method r) _ (RefusesWell-fail_if _ _ (omega arith)) (λ _.
          RefusesWell-bind (parsed wire (wire.decode_request r.body)) _
            (RefusesWell-parsed (wire.decode_request r.body))
            (λ req. RefusesWell-bind _ _ (RefusesWell-fail_if _ _ (omega arith)) (λ _.
              RefusesWell-bind _ _
                (RefusesWell-bad_request req.id (validate_standard_headers wire r req))
                (λ _.
                  RefusesWell-bind _ _ (RefusesWell-bad_request req.id (parse_meta wire req.params))
                    (λ meta.
                      RefusesWell-bind (check_version wire r req meta) _
                        (RefusesWell-check_version r req meta)
                        (λ _. RefusesWell-ok (req, meta))))))))

module _ {W : Type 0} (s : Server W) where
  served_lem :
      (r : HttpRequest) (c : Result HttpResponse (RpcRequest × RequestMeta)) (w : W)
      → RefusesWell c
      → ((req : RpcRequest) × (meta : RequestMeta) × (c ≡ ok (req, meta))
          × (served s r c w
              ≡ dispatch s req
                  (call_context s r meta (s.new_request_id w).0)
                  (s.new_request_id w).1))
        ⊎ (((req : RpcRequest) (meta : RequestMeta) → c ≢ ok (req, meta))
            × ((served s r c w).1 ≡ w)
            × IsClientError (served s r c w).0)
  unfolding RefusesWell
  served_lem r (ok (req, meta)) w h = inl (req, meta, refl, refl)
  served_lem r (err response) w h = inr (λ req meta e. cc, refl, h)

  -- A request that meets every demand of the transport is dispatched, with the bearer token, the
  -- client and the version it came with and a fresh request id. Any other is answered with a status
  -- of 400 to 499 and nothing outside the server is asked or changed.
  pub serve_http_lem :
      (r : HttpRequest) (w : W)
      → ((req : RpcRequest) × (meta : RequestMeta) × IsAdmitted s.wire s.allowed_origins r req meta
          × (serve_http s r w
              ≡ dispatch s req
                  (call_context s r meta (s.new_request_id w).0)
                  (s.new_request_id w).1))
        ⊎ (((req : RpcRequest) (meta : RequestMeta)
              → ¬ IsAdmitted s.wire s.allowed_origins r req meta)
            × ((serve_http s r w).1 ≡ w)
            × IsClientError (serve_http s r w).0)
  unfolding serve_http
  serve_http_lem r w =
      elim (served_lem r (screen s.wire s.allowed_origins r) w
        (RefusesWell-screen s.wire s.allowed_origins r)) [
          | inl (req, meta, passed, same) ↦
              inl (req, meta, (screen_iff s.wire s.allowed_origins r req meta).0 passed, same)
          | inr (failed, kept, status) ↦ inr (
            λ req meta a. failed req meta ((screen_iff s.wire s.allowed_origins r req meta).1 a),
            kept,
            status,
          )
        ]
