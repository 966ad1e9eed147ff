-- ===== src/Router/Dispatch.antt =====
-- Router::dispatch of core/routers/Router.cpp, and the error responses that it makes.
pub mod Limits
pub mod Failures
use adequate_api_cpp.Base.{
  ℕ, ◌≡◌, Bool, true, false, not, ◌&&◌, if◌then◌else◌, ltb, List, [], ◌∷◌, ◌++◌, Option, none, some,
  Str, str, contains_str, is_empty, any, length, M, ◌>>=◌, pure, raise, try_catch, Result, ok,
  throw, Exception, db_error, bind_result,
}
use adequate_api_cpp.Base.Decimal.{ℤ, negsuc}
use adequate_api_cpp.Http.Libraries.{JsonLib, HttpLib}
use adequate_api_cpp.Http.Request.{
  Verb, get, head, options, verb_eq, Request, content_type, what, is_std, ensure_json_valid,
  parse_multipart, Parser,
}
use adequate_api_cpp.Http.Renderer.{
  Outcome, response, json, render as render_json, error, JsonResult,
}
use adequate_api_cpp.Router.{
  Env, Handler, Middleware, RouteEntry, Router, find_verb, contains, build_allow_header,
  normalize_target, assign_params, collect_middlewares_for, run_chain, run_after, find_route,
}

abbrev pub unindented : ℤ
unindented = negsuc 0

module _ {V : Type 0} where
  abbrev pub allow_of : List (Verb × V) → List (Str × Str)
  allow_of mm = (str "Allow", build_allow_header mm) ∷ []

module _ {J : JsonLib} {H : HttpLib} where
  -- Router::render
  unfoldable pub render : Request → Outcome J H → H.Response
  render q (response r) = r
  render q (json v) = render_json J H q v.status v.body v.keep_alive [] v.dump_indent

module _ (J : JsonLib) (H : HttpLib) where
  abbrev pub make400 : Request → Str → Outcome J H
  make400 q message = response (error J H q 400 message false [] unindented)

  abbrev pub make404 : Request → Outcome J H
  make404 q = response (error J H q 404 (str "Not found") false [] unindented)

  abbrev pub make405 : {V : Type 0} → Request → List (Verb × V) → Outcome J H
  make405 q mm =
      response (error J H q 405 (str "Method Not Allowed") false (allow_of mm) unindented)

  abbrev pub make413 : {V : Type 0} → Request → List (Verb × V) → Outcome J H
  make413 q mm =
      response (error J H q 413 (str "Payload is too large") false (allow_of mm) unindented)

  abbrev pub make415 : {V : Type 0} → Request → List (Verb × V) → Outcome J H
  make415 q mm =
      response (error J H q 415 (str "Unsupported media type") false (allow_of mm) unindented)

  abbrev pub make500 : Request → Str → Outcome J H
  make500 q message = response (error J H q 500 message false [] unindented)

  -- json{{"allow", additionalHeaders}}: the map, keyed by the field's number, is left to the library.
  abbrev pub make_options_allow :
      {V : Type 0} → (List (Str × Str) → J.Json) → Request → List (Verb × V) → Outcome J H
  make_options_allow headers_json q mm = response (
      render_json J H q 200 (J.object ((str "allow", headers_json (allow_of mm)) ∷ [])) true
        (allow_of mm) unindented)

  -- The try block that validates the body by its content type.
  unfoldable pub check_body : Env → Request → Result Request
  check_body env q =
      if contains_str (str "application/json") (content_type q)
      then bind_result (ensure_json_valid J q) (λ _. ok q)
      else if contains_str (str "multipart/form-data") (content_type q)
      then parse_multipart env.poco env.multipart_adapter q
      else ok q

abbrev pub allowed_or : Option (List Str) → List Str
allowed_or none = []
allowed_or (some ts) = ts

-- The two content type tests: the answer is 415.
unfoldable pub unsupported : List Str → Request → Bool
unsupported allowed q =
    let has_body = not (is_empty q.body) in
    let ct = content_type q in
    if not (is_empty allowed) && (is_empty ct && has_body)
    then true
    else (not (is_empty allowed) && has_body) && not (any (λ t. contains_str t ct) allowed)

-- The message of the 500 response.
unfoldable pub error_message : Exception → Str
error_message (db_error code msg) = if is_empty msg then str "Database error" else msg
error_message e = if is_empty (what e) then str "Unexpected error" else what e

module _ {J : JsonLib} {H : HttpLib} {W : Type 0} where
  -- co_return co_await runAfter(request, render(request, outcome), middlewares)
  abbrev pub respond :
      List (Middleware J H W) → (Request → Outcome J H) → M (Request × W) H.Response
  respond ms outcome (q, w) = run_after ms (render q (outcome q)) (q, w)

  abbrev pub render_after : List (Middleware J H W) → Outcome J H → M (Request × W) H.Response
  render_after ms outcome = respond ms (λ _. outcome)

  -- The handlers of the last try block.
  abbrev pub on_error : List (Middleware J H W) → Exception → M (Request × W) H.Response
  on_error ms e = if is_std e then respond ms (λ q. make500 J H q (error_message e)) else raise e

  unfoldable pub call_handler : List (Middleware J H W) → Handler J H W → M (Request × W) H.Response
  call_handler ms fn = try_catch (run_chain ms fn >>= render_after ms) (on_error ms)

  -- Auto-HEAD: nothing is caught here.
  unfoldable pub auto_head : List (Middleware J H W) → Handler J H W → M (Request × W) H.Response
  auto_head ms fn = run_chain ms fn >>= λ outcome s.
      run_after ms (H.set (str "Content-Length") (str "0") (H.set_body [] (render s.0 outcome))) s

  abbrev pub after_check :
      List (Middleware J H W) → Handler J H W → Result Request → M (Request × W) H.Response
  after_check ms fn (ok q) (_, w) = call_handler ms fn (q, w)
  after_check ms fn (throw e) s =
      if is_std e
      then if is_empty (what e)
        then call_handler ms fn s
        else respond ms (λ q. make400 J H q (what e)) s
      else raise e s

  -- From the lookup of the method's content types on.
  unfoldable pub checked :
      Env
      → List (Verb × Handler J H W)
      → List Str
      → List (Middleware J H W)
      → Handler J H W
      → M (Request × W) H.Response
  checked env mm allowed ms fn (q, w) =
      if unsupported allowed q
      then respond ms (λ q. make415 J H q mm) (q, w)
      else if ltb env.file_upload_limit_size (length q.body)
      then respond ms (λ q. make413 J H q mm) (q, w)
      else after_check ms fn (check_body J H env q) (q, w)

  abbrev pub with_method :
      {Meta : Type 0}
      → Env
      → RouteEntry J H W Meta
      → List (Middleware J H W)
      → Option (Handler J H W)
      → M (Request × W) H.Response
  with_method env entry ms none s = respond ms (λ q. make405 J H q entry.methods) s
  with_method env entry ms (some fn) (q, w) =
      checked env entry.methods (allowed_or (find_verb q.method entry.allowed_content_types)) ms fn
        (q, w)

  -- The GET handler that answers a HEAD request.
  unfoldable pub head_of : {Meta : Type 0} → RouteEntry J H W Meta → Verb → Option (Handler J H W)
  head_of entry method =
      if verb_eq method head && not (contains head entry.methods)
      then find_verb get entry.methods
      else none

  unfoldable pub auto_options : {Meta : Type 0} → RouteEntry J H W Meta → Verb → Bool
  auto_options entry method = verb_eq method options && not (contains options entry.methods)

  unfoldable pub matched :
      {Meta : Type 0}
      → (List (Str × Str) → J.Json)
      → Env
      → RouteEntry J H W Meta
      → List (Middleware J H W)
      → M (Request × W) H.Response
  matched headers_json env entry ms (q, w) = elim (head_of entry q.method) [
    | some fn ↦ auto_head ms fn (q, w)
    | none ↦
        if auto_options entry q.method
        then respond ms (λ q. make_options_allow J H headers_json q entry.methods) (q, w)
        else with_method env entry ms (find_verb q.method entry.methods) (q, w)
  ]

  unfoldable pub dispatch :
      {Meta : Type 0}
      → (List (Str × Str) → J.Json)
      → Router J H W Meta
      → Env
      → M (Request × W) H.Response
  dispatch headers_json router env (q, w) =
      let path = normalize_target q in
      let ms = collect_middlewares_for router path in
      elim (find_route path router.table) [
        | none ↦ respond ms (λ q. make404 J H q) (q, w)
        | some (entry, caps) ↦
            matched headers_json env entry ms
              (record q { path_params = assign_params entry.param_names caps [] }, w)
      ]
