-- ===== src/Mcp/Server/Admission.antt =====
-- Which requests pass the checks of serveHTTP, and what becomes of the others.
use helmdeep.Base.{
  String, true, false, ◌==◌, eq_iff, Option, none, some, List, [], ◌∷◌, Result, ok, err, ◌≡◌, ◌≢◌,
  ◌↔◌, ◌⊎◌, inl, inr, refl, sym, ap, ◌∙◌, Any, here, there, arith, Result-cases, Bool-cases,
}
use helmdeep.Mcp.Server.{
  HttpRequest, RpcRequest, RequestMeta, ToolCallParams, Wire, protocol_version_current,
}
use helmdeep.Mcp.Server.Checks.{
  contains, check_origin, check_method, decode_header_value, compare_name, check_name,
  check_name_header, validate_standard_headers, meta_of, require_meta, parse_meta, check_version,
  screen,
}

-- A request from no browser, or to a server that allows any origin, or from an origin on its list.
abbrev pub IsSameSite : List String → HttpRequest → Type 0
IsSameSite allowed r =
    (r.header "Origin" ≡ "") ⊎ (allowed ≡ []) ⊎ Any (λ o. o ≡ r.header "Origin") allowed

contains_iff : (xs : List String) (v : String) → (contains xs v ≡ true) ↔ Any (λ x. x ≡ v) xs
contains_iff [] v = (λ h. cc, λ h. elim h [ ])
contains_iff (x ∷ xs) v = (
  λ h. elim (Bool-cases (x == v)) [
    | inl same ↦ here ((eq_iff x v).0 same)
    | inr other ↦ there ((contains_iff xs v).0 (rw other at h))
  ],
  λ h. elim h [
    | here e ↦ rw ((eq_iff x v).1 e) refl
    | there m ↦ ground (arith, (contains_iff xs v).1 m)
  ],
)

check_origin_iff :
    (allowed : List String) (r : HttpRequest)
    → (check_origin allowed r ≡ ok tt) ↔ IsSameSite allowed r
unfolding check_origin
check_origin_iff [] r = (λ h. inr (inl refl), λ h. ground arith)
check_origin_iff (o ∷ os) r =
    let listed = contains_iff (o ∷ os) (r.header "Origin") in
    (
      λ h. elim (Bool-cases (r.header "Origin" == "")) [
        | inl none_sent ↦ inl ((eq_iff (r.header "Origin") "").0 none_sent)
        | inr sent ↦ elim (Bool-cases (contains (o ∷ os) (r.header "Origin"))) [
          | inl known ↦ inr (inr (listed.0 known))
          | inr unknown ↦ let k = rw (sent, unknown, check_origin) at h in absurd cc
        ]
      ],
      λ h. elim h [
        | inl none_sent ↦ ground (arith, eq_iff (r.header "Origin") "")
        | inr (inl e) ↦ absurd cc
        | inr (inr known) ↦ rw (listed.1 known, check_origin) (ground arith)
      ],
    )

check_method_iff : (r : HttpRequest) → (check_method r ≡ ok tt) ↔ (r.method ≡ "POST")
unfolding check_method
check_method_iff r = ground (arith, eq_iff r.method "POST")

module _ (wire : Wire) where
  -- The header names the tool that the parameters name, as far as these can be read.
  abbrev pub IsNamed : HttpRequest → RpcRequest → Type 0
  IsNamed r req =
      (r.header "Mcp-Name" ≢ "")
      × (name : String) × (decode_header_value wire (r.header "Mcp-Name") ≡ ok name)
      × ((p : ToolCallParams) → wire.decode_call req.params ≡ ok p → name ≡ p.name)

  compare_name_iff :
      (name : String) (c : Result String ToolCallParams)
      → (compare_name wire name c ≡ ok tt) ↔ ((p : ToolCallParams) → c ≡ ok p → name ≡ p.name)
  compare_name_iff name (err e) = (λ h p k. absurd cc, λ h. refl)
  compare_name_iff name (ok p) = (
    λ h q k. ground (arith, eq_iff name p.name),
    λ h. ground (arith, eq_iff name p.name, h p refl),
  )

  check_name_iff :
      (req : RpcRequest) (h : Result String String)
      → (check_name wire req h ≡ ok tt) ↔ (
          (name : String) × (h ≡ ok name)
          × ((p : ToolCallParams) → wire.decode_call req.params ≡ ok p → name ≡ p.name))
  check_name_iff req (err e) = (λ h. absurd cc, λ (name, k, _). absurd cc)
  check_name_iff req (ok name) = (
    λ h. (name, refl, (compare_name_iff name (wire.decode_call req.params)).0 h),
    λ (name', same, agree).
        (compare_name_iff name (wire.decode_call req.params)).1
          (λ p read. let e : name ≡ name' = cc in e ∙ agree p read),
  )

  check_name_header_iff :
      (r : HttpRequest) (req : RpcRequest)
      → (check_name_header wire r req ≡ ok tt) ↔ (req.method ≡ "tools/call" → IsNamed r req)
  unfolding check_name_header
  check_name_header_iff r req = elim (Bool-cases (req.method == "tools/call")) [
    | inr other ↦ (
      λ h call. absurd (ground (arith, eq_iff req.method "tools/call")),
      λ h. rw (other, check_name_header) refl,
    )
    | inl call ↦ elim (Bool-cases (r.header "Mcp-Name" == "")) [
      | inl unnamed ↦ (
        λ h. let k = rw (call, unnamed, check_name_header) at h in absurd cc,
        λ h. absurd ((h ((eq_iff _ _).0 call)).0 ((eq_iff _ _).0 unnamed)),
      )
      | inr named ↦
          let iff = check_name_iff req (decode_header_value wire (r.header "Mcp-Name")) in
          (
            λ h _.
                let (name, decoded, agree) = iff.0 (rw (call, named, check_name_header) at h) in
                (ground (arith, eq_iff (r.header "Mcp-Name") ""), name, decoded, agree),
            λ h.
                let (_, name, decoded, agree) = h ((eq_iff _ _).0 call) in
                rw (call, named, check_name_header) (iff.1 (name, decoded, agree)),
          )
    ]
  ]

  -- What the parameters say of the protocol.
  abbrev pub HasMeta : RpcRequest → RequestMeta → Type 0
  HasMeta req meta =
      ((req.params ≢ "") × (wire.decode_meta req.params ≡ ok (some meta)))
      × (meta.client_capabilities ≢ "")

  -- Every demand of the transport on a request.
  pub record IsAdmitted (allowed : List String) (r : HttpRequest) (req : RpcRequest)
      (meta : RequestMeta) : Type 0 where
    pub same_site : IsSameSite allowed r
    pub posted : r.method ≡ "POST"
    pub decoded : wire.decode_request r.body ≡ ok req
    pub identified : req.id ≢ ""
    pub method_sent : r.header "Mcp-Method" ≢ ""
    pub method_agrees : r.header "Mcp-Method" ≡ req.method
    pub name_agrees : req.method ≡ "tools/call" → IsNamed r req
    pub described : HasMeta req meta
    pub version_agrees : r.header "MCP-Protocol-Version" ≡ meta.protocol_version
    pub version_current : meta.protocol_version ≡ protocol_version_current

  require_meta_sound :
      (c : Result String (Option RequestMeta)) (meta : RequestMeta)
      → require_meta wire c ≡ ok meta
      → (c ≡ ok (some meta)) × (meta.protocol_version ≢ "") × (meta.client_capabilities ≢ "")
  require_meta_sound (err e) meta h = absurd cc
  require_meta_sound (ok none) meta h = absurd cc
  require_meta_sound (ok (some m)) meta h =
      ground (arith, eq_iff m.protocol_version "", eq_iff m.client_capabilities "")

  require_meta_complete :
      (meta : RequestMeta)
      → meta.protocol_version ≢ ""
      → meta.client_capabilities ≢ ""
      → require_meta wire (ok (some meta)) ≡ ok meta
  require_meta_complete meta h k =
      ground (arith, eq_iff meta.protocol_version "", eq_iff meta.client_capabilities "")

  meta_of_sound :
      (params : String) (meta : RequestMeta)
      → meta_of wire params ≡ ok (some meta)
      → (params ≢ "") × (wire.decode_meta params ≡ ok (some meta))
  meta_of_sound params meta h = ground (arith, eq_iff params "")

  validate_complete :
      (r : HttpRequest) (req : RpcRequest)
      → r.header "Mcp-Method" ≢ ""
      → r.header "Mcp-Method" ≡ req.method
      → check_name_header wire r req ≡ ok tt
      → validate_standard_headers wire r req ≡ ok tt
  unfolding validate_standard_headers
  validate_complete r req h k c =
      ground (arith, eq_iff (r.header "Mcp-Method") "", eq_iff (r.header "Mcp-Method") req.method)

  validate_sound :
      (r : HttpRequest) (req : RpcRequest)
      → validate_standard_headers wire r req ≡ ok tt
      → (r.header "Mcp-Method" ≢ "")
        × (r.header "Mcp-Method" ≡ req.method)
        × (check_name_header wire r req ≡ ok tt)
  unfolding validate_standard_headers
  validate_sound r req h =
      ground (arith, eq_iff (r.header "Mcp-Method") "", eq_iff (r.header "Mcp-Method") req.method)

  check_version_sound :
      (r : HttpRequest) (req : RpcRequest) (meta : RequestMeta)
      → check_version wire r req meta ≡ ok tt
      → (r.header "MCP-Protocol-Version" ≡ meta.protocol_version)
        × (meta.protocol_version ≡ protocol_version_current)
  unfolding check_version
  check_version_sound r req meta h = ground (
    arith,
    eq_iff (r.header "MCP-Protocol-Version") "",
    eq_iff (r.header "MCP-Protocol-Version") meta.protocol_version,
    eq_iff meta.protocol_version protocol_version_current,
  )

  check_version_complete :
      (r : HttpRequest) (req : RpcRequest) (meta : RequestMeta)
      → r.header "MCP-Protocol-Version" ≡ meta.protocol_version
      → meta.protocol_version ≡ protocol_version_current
      → check_version wire r req meta ≡ ok tt
  unfolding check_version
  check_version_complete r req meta h k = rw (h, k, check_version) refl

  admitted :
      (allowed : List String) (r : HttpRequest) (req : RpcRequest) (meta : RequestMeta)
      → check_origin allowed r ≡ ok tt
      → check_method r ≡ ok tt
      → wire.decode_request r.body ≡ ok req
      → (req.id == "") ≡ false
      → validate_standard_headers wire r req ≡ ok tt
      → parse_meta wire req.params ≡ ok meta
      → check_version wire r req meta ≡ ok tt
      → IsAdmitted allowed r req meta
  unfolding parse_meta
  admitted allowed r req meta near verb body named heads info version =
      let (method_sent, method_agrees, name) = validate_sound r req heads in
      let (read, _, capable) = require_meta_sound (meta_of wire req.params) meta info in
      let (version_agrees, version_current) = check_version_sound r req meta version in
      record {
        same_site = (check_origin_iff allowed r).0 near;
        posted = (check_method_iff r).0 verb;
        decoded = body;
        identified = ground (arith, eq_iff req.id "");
        method_sent = method_sent;
        method_agrees = method_agrees;
        name_agrees = (check_name_header_iff r req).0 name;
        described = (meta_of_sound req.params meta read, capable);
        version_agrees = version_agrees;
        version_current = version_current;
      }

  screen_sound :
      (allowed : List String) (r : HttpRequest) (req : RpcRequest) (meta : RequestMeta)
      → screen wire allowed r ≡ ok (req, meta)
      → IsAdmitted allowed r req meta
  unfolding screen
  screen_sound allowed r req meta h = elim (Result-cases (check_origin allowed r)) [
    | inr (e, far) ↦ let k = rw (far, screen) at h in absurd cc
    | inl (_, near) ↦ elim (Result-cases (check_method r)) [
      | inr (e, verb) ↦ let k = rw (near, verb, screen) at h in absurd cc
      | inl (_, verb) ↦ elim (Result-cases (wire.decode_request r.body)) [
        | inr (e, body) ↦ let k = rw (near, verb, body, screen) at h in absurd cc
        | inl (req', body) ↦ elim (Bool-cases (req'.id == "")) [
          | inl anon ↦ let k = rw (near, verb, body, anon, screen) at h in absurd cc
          | inr named ↦ elim (Result-cases (validate_standard_headers wire r req')) [
            | inr (e, heads) ↦ let k = rw (near, verb, body, named, heads, screen) at h in absurd cc
            | inl (_, heads) ↦ elim (Result-cases (parse_meta wire req'.params)) [
              | inr (e, info) ↦
                  let k = rw (near, verb, body, named, heads, info, screen) at h in absurd cc
              | inl (meta', info) ↦ elim (Result-cases (check_version wire r req' meta')) [
                | inr (e, version) ↦
                    let k = rw (near, verb, body, named, heads, info, version, screen) at h in
                    absurd cc
                | inl (_, version) ↦
                    let k = rw (near, verb, body, named, heads, info, version, screen) at h in
                    let same : req' ≡ req = cc in
                    let same' : meta' ≡ meta = cc in
                    rw (← same, ← same')
                      (admitted allowed r req' meta' near verb body named heads info version)
              ]
            ]
          ]
        ]
      ]
    ]
  ]

  screen_complete :
      (allowed : List String) (r : HttpRequest) (req : RpcRequest) (meta : RequestMeta)
      → IsAdmitted allowed r req meta
      → screen wire allowed r ≡ ok (req, meta)
  unfolding screen parse_meta
  screen_complete allowed r req meta a =
      let near = (check_origin_iff allowed r).1 a.same_site in
      let verb = (check_method_iff r).1 a.posted in
      let named : (req.id == "") ≡ false = ground (arith, eq_iff req.id "", a.identified) in
      let heads =
        validate_complete r req a.method_sent a.method_agrees
          ((check_name_header_iff r req).1 a.name_agrees) in
      let ((given, read), capable) = a.described in
      let with : meta_of wire req.params ≡ ok (some meta) = ground (arith, eq_iff req.params "") in
      let stated : meta.protocol_version ≢ "" = λ e. let k = sym a.version_current ∙ e in cc in
      let info : parse_meta wire req.params ≡ ok meta =
        ap (require_meta wire) with ∙ require_meta_complete meta stated capable in
      let version = check_version_complete r req meta a.version_agrees a.version_current in
      rw (near, verb, a.decoded, named, heads, info, version, screen) refl

  pub screen_iff :
      (allowed : List String) (r : HttpRequest) (req : RpcRequest) (meta : RequestMeta)
      → (screen wire allowed r ≡ ok (req, meta)) ↔ IsAdmitted allowed r req meta
  screen_iff allowed r req meta =
      (screen_sound allowed r req meta, screen_complete allowed r req meta)
