-- ===== src/Router/Dispatch/Limits.antt =====
-- Requests that never reach a handler.
use adequate_api_cpp.Base.{
  ℕ, ◌<◌, ◌≡◌, true, false, ltb, List, [], none, some, Str, str, All, ok, throw, Exception,
  is_empty, length,
}
use adequate_api_cpp.Http.Libraries.{JsonLib, HttpLib}
use adequate_api_cpp.Http.Request.{Request, options, verb_eq, is_std, what}
use adequate_api_cpp.Http.Renderer.{error}
use adequate_api_cpp.Router.{
  Handler, RouteEntry, Router, Env, find_verb, find_route, normalize_target,
  collect_middlewares_for,
}
use adequate_api_cpp.Router.Dispatch.{
  render, dispatch, unindented, unsupported, check_body, allowed_or,
}
use adequate_api_cpp.Router.Chain.{IsDefaultAfter, run_after-default, status-error}

module _ {J : JsonLib} {H : HttpLib} {W Meta : Type 0} where
  -- Why a request whose path finds `entry` is answered with a status and no handler runs.
  pub data Rejected (env : Env) (entry : RouteEntry J H W Meta) (q : Request) : ℕ → Type 0 where
    no_method :
        verb_eq q.method options ≡ false
        → find_verb q.method entry.methods ≡ none
        → Rejected env entry q 405
    bad_type :
        (fn : Handler J H W)
        → find_verb q.method entry.methods ≡ some fn
        → unsupported (allowed_or (find_verb q.method entry.allowed_content_types)) q ≡ true
        → Rejected env entry q 415
    too_large :
        (fn : Handler J H W)
        → find_verb q.method entry.methods ≡ some fn
        → unsupported (allowed_or (find_verb q.method entry.allowed_content_types)) q ≡ false
        → env.file_upload_limit_size < length q.body
        → Rejected env entry q 413
    bad_body :
        (fn : Handler J H W) (e : Exception)
        → find_verb q.method entry.methods ≡ some fn
        → unsupported (allowed_or (find_verb q.method entry.allowed_content_types)) q ≡ false
        → ltb env.file_upload_limit_size (length q.body) ≡ false
        → check_body J H env q ≡ throw e
        → is_std e ≡ true
        → is_empty (what e) ≡ false
        → Rejected env entry q 400

  -- Under middlewares with the default `after`, a path that finds no entry gets a 404 response, and
  -- the request and the world are unchanged.
  dispatch_not_found :
      (headers_json : List (Str × Str) → J.Json) (router : Router J H W Meta) (env : Env)
      (q : Request) (w : W)
      → All IsDefaultAfter (collect_middlewares_for router (normalize_target q))
      → find_route (normalize_target q) router.table ≡ none
      → (res : H.Response) × (dispatch headers_json router env (q, w) ≡ (ok res, (q, w)))
        × (H.status res ≡ 404)
  unfolding dispatch render
  dispatch_not_found headers_json router env q w d n = (
    error J H q 404 (str "Not found") false [] unindented,
    rw (n, dispatch)
        (run_after-default (collect_middlewares_for router (normalize_target q)) _ q w d),
    status-error J H q 404 _ false _ unindented,
  )
