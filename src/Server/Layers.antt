-- ===== src/Server/Layers.antt =====
-- What reaches the routes, and what an answer carries that did not come from them.
use headnet.Base.{
  ◌≡◌, refl, ◌∙◌, ◌⊎◌, inl, inr, Bool, true, false, some, [], ◌∷◌, if◌then◌else◌, Bool-cases,
}
use headnet.Base.Int.{ℤ}
use headnet.Text.{Text, codes, eq, eq_refl, eq→≡}
use headnet.Protocol.{print_int}
use headnet.Api.{http_status, internal}
use headnet.RateLimit.{Floats, Limiter, Decision, allow}
use headnet.Server.{Response, error_body, says}
use headnet.Server.Middleware.{
  Headers, set_header, get_header, WireRequest, Answer, answered, panicked, abort_handler,
  other_panic, WireHandler, hardened, request_id_header, with_request_id, recover, recoverer,
  security_headers, max_body_bytes, NetPackages, client_ip, limited, too_many_requests, rate_limit,
  build_handler, chain,
}

get_header-set_header :
    (name value : Text) (h : Headers) → get_header name (set_header name value h) ≡ some value
unfolding get_header set_header
get_header-set_header name value [] = rw (eq_refl name) refl
get_header-set_header name value ((key, old) ∷ rest) = elim (Bool-cases (eq key name)) [
  | inl same ↦ rw (same, same) refl
  | inr other ↦ rw (other, other, get_header-set_header name value rest) refl
]

get_header-set_header_other :
    (name other value : Text) (h : Headers)
    → eq name other ≡ false
    → get_header other (set_header name value h) ≡ get_header other h
unfolding get_header set_header
get_header-set_header_other name other value [] apart = rw apart refl
get_header-set_header_other name other value ((key, old) ∷ rest) apart =
    elim (Bool-cases (eq key name)) [
      | inl same ↦
          let is_other : eq key other ≡ false = rw (eq→≡ key name same) apart in
          rw (same, is_other) refl
      | inr different ↦ rw (different, get_header-set_header_other name other value rest apart) refl
    ]

-- A header that is set leaves the identifier of the request as it is.
kept_id :
    (name value : Text) {id : Text} (h : Headers)
    → eq name request_id_header ≡ false
    → get_header request_id_header h ≡ some id
    → get_header request_id_header (set_header name value h) ≡ some id
kept_id name value h apart there =
    get_header-set_header_other name request_id_header value h apart ∙ there

retry_after_apart : eq (codes "Retry-After") request_id_header ≡ false
unfolding eq
retry_after_apart = refl

hardened-request_id :
    (hsts : Bool) (id : Text) (h : Headers)
    → get_header request_id_header (hardened hsts (set_header request_id_header id h)) ≡ some id
unfolding eq
hardened-request_id hsts id h = with_hsts hsts
  where
    six :
        get_header request_id_header (hardened false (set_header request_id_header id h)) ≡ some id
    six = kept_id _ _ _ refl (
        kept_id _ _ _ refl (
          kept_id _ _ _ refl (
            kept_id _ _ _ refl (
              kept_id _ _ _ refl
                (kept_id _ _ _ refl (get_header-set_header request_id_header id h))))))

    with_hsts :
        (b : Bool)
        → get_header request_id_header (hardened b (set_header request_id_header id h)) ≡ some id
    with_hsts true = kept_id _ _ _ refl six
    with_hsts false = six

module _ {F T : Type 0} (fl : Floats F) (p : NetPackages) (hsts : Bool) (max_bytes : ℤ) (id : Text)
    (routes : WireHandler (Limiter F × T)) (r : WireRequest) (h : Headers) (l : Limiter F)
    (t : T) where
  -- What the limiter says of the request.
  abbrev pub said : Decision × Limiter F
  said = allow fl (client_ip p r) r.received_at l

  abbrev pub whole : Answer × (Limiter F × T)
  whole = build_handler fl p hsts true max_bytes id routes r h (l, t)

  -- The request as the routes get it.
  abbrev pub inner : WireRequest
  inner =
      if r.has_body
      then record r { request_id = id; body_limit = some max_bytes }
      else record r { request_id = id }

  -- The answer of a refusal carries the identifier and the time to wait.
  abbrev pub IsRefusal : Type 0
  IsRefusal =
      (headers : Headers) × (response : Response) × (whole
        ≡ (answered headers id response, (said.1, t)))
      × (response.status ≡ 429)
      × (get_header request_id_header headers ≡ some id)
      × (get_header (codes "Retry-After") headers
          ≡ some (print_int (p.whole_seconds said.0.retry_after)))

  -- What becomes of the outcome of the routes: an answer and a panic with http.ErrAbortHandler pass
  -- as they are, and any other panic makes an internal error with status 500, the headers that are
  -- set by then, and the identifier of the request that came in.
  abbrev pub IsDelivered : Answer × (Limiter F × T) → Type 0
  IsDelivered (answered hs stamp response, state) = whole ≡ (answered hs stamp response, state)
  IsDelivered (panicked hs abort_handler, state) = whole ≡ (panicked hs abort_handler, state)
  IsDelivered (panicked hs other_panic, state) =
      (response : Response) × (whole ≡ (answered hs r.request_id response, state))
      × (response.status ≡ 500)
      × (response.body ≡ error_body internal (says (codes "internal error")) [])

  -- The routes get the request, with the identifier in the headers that are set.
  abbrev pub IsServed : Type 0
  IsServed =
      (headers : Headers) × (get_header request_id_header headers ≡ some id)
      × IsDelivered (routes inner headers (said.1, t))

  delivered : (outcome : Answer × (Limiter F × T)) → whole ≡ recover r outcome → IsDelivered outcome
  unfolding http_status
  delivered (answered hs stamp response, state) e = e
  delivered (panicked hs abort_handler, state) e = e
  delivered (panicked hs other_panic, state) e = (_, e, refl, refl)

  abbrev seconds : Text
  seconds = print_int (p.whole_seconds said.0.retry_after)

  whole_is :
      whole
      ≡ recover r (
          limited fl p
            (max_body_bytes max_bytes routes)
            (record r { request_id = id })
            (hardened hsts (set_header request_id_header id h))
            t
            said)
  unfolding build_handler chain recoverer with_request_id security_headers rate_limit client_ip
  whole_is = refl

  bounded_body :
      (state : Limiter F × T) (hs : Headers)
      → max_body_bytes max_bytes routes (record r { request_id = id }) hs state
        ≡ routes inner hs state
  unfolding max_body_bytes
  bounded_body state hs = elim (Bool-cases r.has_body) [
    | inl body ↦ rw body refl
    | inr empty ↦ rw empty refl
  ]

  -- With the limiter on, a request that it refuses is answered 429, with the identifier and the time
  -- to wait in the headers, and the state of the routes stays as it is. Every other one reaches the
  -- routes, with the identifier in its context and in the headers set so far, and with its body
  -- limited. Their answer is passed on, and so is a panic with http.ErrAbortHandler; any other panic,
  -- which is one before the answer is begun, makes an internal error with status 500, stamped with
  -- the identifier of the request that came in.
  pub build_handler-IsServed :
      ((said.0.allowed ≡ false) × IsRefusal) ⊎ ((said.0.allowed ≡ true) × IsServed)
  unfolding http_status
  build_handler-IsServed = elim (Bool-cases said.0.allowed) [
    | inl passes ↦ inr (
      passes,
      (
        hardened hsts (set_header request_id_header id h),
        hardened-request_id hsts id h,
        delivered _ (whole_is ∙ rw (passes, bounded_body (said.1, t) _) refl),
      ),
    )
    | inr refused ↦ inl (
      refused,
      (
        set_header (codes "Retry-After") seconds
            (hardened hsts (set_header request_id_header id h)),
        too_many_requests seconds,
        whole_is ∙ rw refused refl,
        refl,
        kept_id _ _ _ retry_after_apart (hardened-request_id hsts id h),
        get_header-set_header (codes "Retry-After") seconds _,
      ),
    )
  ]
