-- ===== src/Auth/Isolation.antt =====
-- Requests without credentials under a path prefix that the authentication middleware guards.
use adequate_api_cpp.Base.{
  ℕ, ◌≡◌, refl, ◌∙◌, inl, inr, Bool, true, false, List, [], ◌∷◌, Option, none, some, Str, str,
  starts_with, Result, ok, throw, M, Bool-cases, Option-cases, All, ltb, length, is_empty,
}
use adequate_api_cpp.Base.Decimal.{ℤ}
use adequate_api_cpp.Http.Libraries.{JsonLib, HttpLib}
use adequate_api_cpp.Http.Request.{Request, Verb, options, verb_eq, is_std, what}
use adequate_api_cpp.Http.Renderer.{error}
use adequate_api_cpp.Router.{
  Env, Handler, Middleware, RouteEntry, Router, run_chain, run_after, scoped_for, find_verb,
  find_route, normalize_target, collect_middlewares_for, assign_params,
}
use adequate_api_cpp.Router.Chain.{IsDefaultAfter, run_after-default, status-render, status-error}
use adequate_api_cpp.Router.Dispatch.{
  render, unindented, check_body, unsupported, call_handler, auto_head, checked, head_of,
  auto_options, matched, dispatch, with_method, after_check, allow_of,
}
use adequate_api_cpp.Auth.Middleware.{handle, authentication, unauthorized_outcome}
use adequate_api_cpp.Auth.Refusal.{
  check_body-header, auto_options-false, Rejection, bad_request, not_found, method_not_allowed,
  payload_too_large, unsupported_media_type, TurnedAway, refused, rejected, listed, failed,
  IsUnauthorized, IsRefused, IsRefused-IsUnauthorized,
}

module _ (J : JsonLib) (H : HttpLib) {W : Type 0} (decode : Str → M W ℤ) (exists : ℤ → M W Bool)
    (message : Str) (w w' : W) where
  abbrev guard : List (Middleware J H W)
  guard = authentication decode exists ∷ []

  guard-IsDefaultAfter : All IsDefaultAfter guard
  unfolding authentication
  guard-IsDefaultAfter = (λ q res w. refl, tt)

  chain-refused :
      (fn : Handler J H W) (q : Request)
      → IsUnauthorized decode exists message w w' q
      → run_chain guard fn (q, w) ≡ (ok (unauthorized_outcome J H message), (q, w'))
  unfolding run_chain authentication handle
  chain-refused fn q h = rw h refl

  status-unauthorized : (q : Request) → H.status (render q (unauthorized_outcome J H message)) ≡ 401
  unfolding render
  status-unauthorized q = status-render J H q 401 _ true [] _

  call_handler-refused :
      (fn : Handler J H W) (q : Request)
      → IsUnauthorized decode exists message w w' q
      → (res : H.Response) × (call_handler guard fn (q, w) ≡ (ok res, (q, w')))
        × (H.status res ≡ 401)
  unfolding call_handler
  call_handler-refused fn q h = (
    render q (unauthorized_outcome J H message),
    rw
        (
          chain-refused fn q h,
          run_after-default guard (render q (unauthorized_outcome J H message)) q w'
              guard-IsDefaultAfter,
        )
        refl,
    status-unauthorized q,
  )

  auto_head-refused :
      (fn : Handler J H W) (q : Request)
      → IsUnauthorized decode exists message w w' q
      → (res : H.Response) × (auto_head guard fn (q, w) ≡ (ok res, (q, w'))) × (H.status res ≡ 401)
  unfolding auto_head
  auto_head-refused fn q h = (
    H.set (str "Content-Length") (str "0")
        (H.set_body [] (render q (unauthorized_outcome J H message))),
    rw (chain-refused fn q h) (run_after-default guard _ q w' guard-IsDefaultAfter),
    H.status-set _ _ _ ∙ H.status-set_body _ _ ∙ status-unauthorized q,
  )

  abbrev Turned : Request → Result H.Response × (Request × W) → Type 0
  Turned q out = TurnedAway H q.method w w' out

  Turned-refused :
      (q : Request) (out : Result H.Response × (Request × W))
      → (res : H.Response) × (out ≡ (ok res, (q, w'))) × (H.status res ≡ 401)
      → Turned q out
  Turned-refused q out (res, e, s) = rw e (refused res q s)

  Turned-rejected :
      {st : ℕ} (q : Request) (r : H.Response)
      → Rejection st
      → H.status r ≡ st
      → Turned q (run_after guard r (q, w))
  Turned-rejected q r x s =
      rw (run_after-default guard r q w guard-IsDefaultAfter) (rejected r q x s)

  after_check-Turned :
      (fn : Handler J H W) (q : Request) (r : Result Request)
      → IsUnauthorized decode exists message w w' q
      → ((q' : Request) → r ≡ ok q' → q'.authorization_header ≡ q.authorization_header)
      → Turned q (after_check guard fn r (q, w))
  unfolding render
  after_check-Turned fn q (ok q') h same =
      let (res, e, s) = call_handler-refused fn q' (rw (same q' refl) h) in rw e (refused res q' s)
  after_check-Turned fn q (throw e) h same = elim (Bool-cases (is_std e)) [
    | inr n ↦ rw n (failed e q n)
    | inl y ↦ elim (Bool-cases (is_empty (what e))) [
      | inl z ↦ rw (y, z) (Turned-refused q _ (call_handler-refused fn q h))
      | inr z ↦
          rw (y, z)
            (Turned-rejected q (error J H q 400 (what e) false [] unindented) bad_request
              (status-error J H q 400 _ false _ _))
    ]
  ]

  checked-Turned :
      (env : Env) (mm : List (Verb × Handler J H W)) (allowed : List Str) (fn : Handler J H W)
      (q : Request)
      → IsUnauthorized decode exists message w w' q
      → Turned q (checked env mm allowed guard fn (q, w))
  unfolding checked render
  checked-Turned env mm allowed fn q h = elim (Bool-cases (unsupported allowed q)) [
    | inl u ↦ rw u (
        Turned-rejected q
          (error J H q 415 (str "Unsupported media type") false (allow_of mm) unindented)
          unsupported_media_type (status-error J H q 415 _ false _ _))
    | inr u ↦ elim (Bool-cases (ltb env.file_upload_limit_size (length q.body))) [
      | inl l ↦
          rw (u, l)
            (Turned-rejected q
              (error J H q 413 (str "Payload is too large") false (allow_of mm) unindented)
              payload_too_large (status-error J H q 413 _ false _ _))
      | inr l ↦
          rw (u, l) (after_check-Turned fn q (check_body J H env q) h (check_body-header J H env q))
    ]
  ]

  listed-Turned :
      (q : Request) (r : H.Response)
      → verb_eq q.method options ≡ true
      → H.status r ≡ 200
      → Turned q (run_after guard r (q, w))
  listed-Turned q r o s = rw (run_after-default guard r q w guard-IsDefaultAfter) (listed r q o s)

  module _ {Meta : Type 0} (headers_json : List (Str × Str) → J.Json) (env : Env) where
    with_method-Turned :
        (entry : RouteEntry J H W Meta) (found : Option (Handler J H W)) (q : Request)
        → IsUnauthorized decode exists message w w' q
        → Turned q (with_method env entry guard found (q, w))
    unfolding render
    with_method-Turned entry none q h =
        Turned-rejected q
          (error J H q 405 (str "Method Not Allowed") false (allow_of entry.methods) unindented)
          method_not_allowed (status-error J H q 405 _ false _ _)
    with_method-Turned entry (some fn) q h = checked-Turned env entry.methods _ fn q h

    matched-Turned :
        (entry : RouteEntry J H W Meta) (q : Request)
        → IsUnauthorized decode exists message w w' q
        → Turned q (matched headers_json env entry guard (q, w))
    unfolding matched render
    matched-Turned entry q h = elim (Option-cases (head_of entry q.method)) [
      | inr (fn, x) ↦ rw (x, matched) (Turned-refused q _ (auto_head-refused fn q h))
      | inl x ↦ elim (Bool-cases (verb_eq q.method options)) [
        | inl o ↦ elim (Bool-cases (auto_options entry q.method)) [
          | inl a ↦ rw (x, matched, a) (listed-Turned q _ o (status-render J H q 200 _ true _ _))
          | inr a ↦
              rw (x, matched, a) (with_method-Turned entry (find_verb q.method entry.methods) q h)
        ]
        | inr o ↦
            rw (x, matched, auto_options-false entry q.method o)
              (with_method-Turned entry (find_verb q.method entry.methods) q h)
      ]
    ]

module _ (J : JsonLib) (H : HttpLib) {W Meta : Type 0} (decode : Str → M W ℤ)
    (exists : ℤ → M W Bool) where
  -- The authentication middleware as the only one, for the paths with a prefix.
  abbrev pub IsGuardedBy : Str → Router J H W Meta → Type 0
  IsGuardedBy prefix router =
      (router.global_middlewares ≡ [])
      × (router.scoped_middlewares ≡ (prefix, authentication decode exists) ∷ [])

  collect-guard :
      (prefix path : Str) (router : Router J H W Meta)
      → IsGuardedBy prefix router
      → starts_with prefix path ≡ true
      → collect_middlewares_for router path ≡ authentication decode exists ∷ []
  unfolding collect_middlewares_for scoped_for
  collect-guard prefix path router g s = rw (g.0, g.1, s) refl

  -- Under a prefix that only the authentication middleware guards, a request is turned away whatever
  -- the routes and their handlers are, if it has no header "Authorization", or one that does not
  -- start with "Bearer ", or a token that the JWT service refuses, or one of a user that does not
  -- exist: with a 401 response in the world that finding this out left; or, before that, with 400,
  -- 404, 405, 413 or 415, with the listing that answers OPTIONS, or with an exception outside the
  -- standard hierarchy, and then the world is unchanged.
  pub dispatch_isolates :
      (headers_json : List (Str × Str) → J.Json) (env : Env) (router : Router J H W Meta)
      (prefix : Str) (q : Request) (w w' : W)
      → IsGuardedBy prefix router
      → starts_with prefix (normalize_target q) ≡ true
      → IsRefused decode exists w q.authorization_header w'
      → TurnedAway H q.method w w' (dispatch headers_json router env (q, w))
  unfolding dispatch render
  dispatch_isolates headers_json env router prefix q w w' g s refusal =
      let (message, h) =
        IsRefused-IsUnauthorized decode exists w q.authorization_header w' refusal in
      elim (Option-cases (find_route (normalize_target q) router.table)) [
        | inl n ↦
            rw (n, dispatch, collect-guard prefix (normalize_target q) router g s)
              (Turned-rejected J H decode exists message w w' q
                (error J H q 404 (str "Not found") false [] unindented) not_found
                (status-error J H q 404 _ false _ _))
        | inr ((entry, caps), f) ↦
            rw (f, dispatch, collect-guard prefix (normalize_target q) router g s)
              (matched-Turned J H decode exists message w w' headers_json env entry
                (record q { path_params = assign_params entry.param_names caps [] }) h)
      ]
