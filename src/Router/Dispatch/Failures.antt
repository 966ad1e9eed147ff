-- ===== src/Router/Dispatch/Failures.antt =====
-- What becomes of an exception that a handler throws.
use adequate_api_cpp.Base.{
  ◌≡◌, refl, ◌∙◌, true, false, if◌then◌else◌, List, [], ◌∷◌, none, some, Str, str, All, ok, throw,
  Exception, db_error, multipart_error, validation_error, file_validation_error,
  file_security_error, file_io_error, jwt_exception, std_error, foreign, is_empty,
}
use adequate_api_cpp.Http.Libraries.{JsonLib, HttpLib}
use adequate_api_cpp.Http.Request.{Request, Verb, get, head, is_std, what}
use adequate_api_cpp.Http.Renderer.{Outcome, error}
use adequate_api_cpp.Router.{Middleware, Handler, RouteEntry, Env, run_chain, find_verb}
use adequate_api_cpp.Router.Dispatch.{
  call_handler, auto_head, error_message, render, matched, on_error, unindented, head_of,
}
use adequate_api_cpp.Router.Chain.{IsDefaultAfter, run_after-default, status-error}

default-nonempty :
    (d msg : Str) → is_empty d ≡ false → is_empty (if is_empty msg then d else msg) ≡ false
default-nonempty d [] h = h
default-nonempty d (c ∷ msg) h = refl

pub error_message-nonempty : (e : Exception) → is_empty (error_message e) ≡ false
unfolding error_message what str
error_message-nonempty (db_error code msg) = default-nonempty (str "Database error") msg refl
error_message-nonempty (multipart_error msg) = default-nonempty (str "Unexpected error") msg refl
error_message-nonempty (validation_error msg) = default-nonempty (str "Unexpected error") msg refl
error_message-nonempty (file_validation_error msg) =
    default-nonempty (str "Unexpected error") msg refl
error_message-nonempty (file_security_error msg) =
    default-nonempty (str "Unexpected error") msg refl
error_message-nonempty (file_io_error msg) = default-nonempty (str "Unexpected error") msg refl
error_message-nonempty (jwt_exception code msg) = default-nonempty (str "Unexpected error") msg refl
error_message-nonempty (std_error msg) = default-nonempty (str "Unexpected error") msg refl
error_message-nonempty foreign = refl

module _ {J : JsonLib} {H : HttpLib} {W : Type 0} where
  fails_with :
      (ms : List (Middleware J H W)) (e : Exception) (q : Request) (w : W)
      → All IsDefaultAfter ms
      → is_std e ≡ true
      → on_error ms e (q, w) ≡ (ok (error J H q 500 (error_message e) false [] unindented), (q, w))
  unfolding render
  fails_with ms e q w d std = rw std (run_after-default ms _ q w d)

  -- Under middlewares with the default `after`, whatever exception of the standard hierarchy the
  -- chain throws, the client gets a 500 response whose message is not empty, and the state is the
  -- one in which the exception was thrown.
  call_handler_fails :
      (ms : List (Middleware J H W)) (fn : Handler J H W) (s : Request × W) (e : Exception)
      (q : Request) (w : W)
      → All IsDefaultAfter ms
      → run_chain ms fn s ≡ (throw e, (q, w))
      → is_std e ≡ true
      → (res : H.Response) × (call_handler ms fn s ≡ (ok res, (q, w)))
        × (H.status res ≡ 500)
        × (is_empty (error_message e) ≡ false)
        × (res ≡ error J H q 500 (error_message e) false [] unindented)
  unfolding call_handler
  call_handler_fails ms fn s e q w d h std = (
    error J H q 500 (error_message e) false [] unindented,
    rw h (fails_with ms e q w d std),
    status-error J H q 500 (error_message e) false [] unindented,
    error_message-nonempty e,
    refl,
  )

  head_of-get :
      {Meta : Type 0} (entry : RouteEntry J H W Meta) (method : Verb) (fn : Handler J H W)
      → method ≡ head
      → find_verb head entry.methods ≡ none
      → find_verb get entry.methods ≡ some fn
      → head_of entry method ≡ some fn
  unfolding head_of
  head_of-get entry method fn m nh g = rw (m, nh, g)

  -- A HEAD request of an entry with a GET handler and none for HEAD, whose chain around the GET
  -- handler throws, ends with that very exception in the state in which it was thrown: it is not
  -- turned into a response, whatever it is.
  auto_head_leaks :
      {Meta : Type 0} (headers_json : List (Str × Str) → J.Json) (env : Env)
      (entry : RouteEntry J H W Meta) (ms : List (Middleware J H W)) (fn : Handler J H W)
      (q : Request) (w : W) (e : Exception) (s : Request × W)
      → q.method ≡ head
      → find_verb head entry.methods ≡ none
      → find_verb get entry.methods ≡ some fn
      → run_chain ms fn (q, w) ≡ (throw e, s)
      → matched headers_json env entry ms (q, w) ≡ (throw e, s)
  unfolding matched auto_head
  auto_head_leaks headers_json env entry ms fn q w e s m nh g h =
      rw (head_of-get entry q.method fn m nh g, matched, h)

  -- Under middlewares with the default `after`, a HEAD request of an entry with a GET handler and
  -- none for HEAD, whose chain around the GET handler succeeds, gets a response with the status
  -- of the GET response and no body, in the state in which the chain ended.
  auto_head_answers :
      {Meta : Type 0} (headers_json : List (Str × Str) → J.Json) (env : Env)
      (entry : RouteEntry J H W Meta) (ms : List (Middleware J H W)) (fn : Handler J H W)
      (q : Request) (w : W) (outcome : Outcome J H) (q' : Request) (w' : W)
      → All IsDefaultAfter ms
      → q.method ≡ head
      → find_verb head entry.methods ≡ none
      → find_verb get entry.methods ≡ some fn
      → run_chain ms fn (q, w) ≡ (ok outcome, (q', w'))
      → (res : H.Response) × (matched headers_json env entry ms (q, w) ≡ (ok res, (q', w')))
        × (H.body res ≡ [])
        × (H.status res ≡ H.status (render q' outcome))
  unfolding matched auto_head
  auto_head_answers headers_json env entry ms fn q w outcome q' w' d m nh g h = (
    H.set (str "Content-Length") (str "0") (H.set_body [] (render q' outcome)),
    rw (head_of-get entry q.method fn m nh g, matched, h) (run_after-default ms _ q' w' d),
    H.body-set _ _ _ ∙ H.body-set_body _ _,
    H.status-set _ _ _ ∙ H.status-set_body _ _,
  )
