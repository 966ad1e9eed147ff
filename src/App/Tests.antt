-- ===== src/App/Tests.antt =====
-- Runs of the program on small libraries.
use adequate_api_cpp.Base.{
  ℕ, ◌+◌, ◌≡◌, ◌≤◌, ok_inj, refl, Bool, true, false, if◌then◌else◌, ltb, List, [], ◌∷◌, length,
  none, some, Str, str, ok, throw, std_error, M, arith, subst,
}
use adequate_api_cpp.Http.Request.{Request, get, post}
use adequate_api_cpp.Http.Raw.{RawRequest}
use adequate_api_cpp.Http.Samples.{json_lib, http_lib, request_to}
use adequate_api_cpp.Router.{Env, Router}
use adequate_api_cpp.Core.OpenApi.Document.{OpenApiMeta}
use adequate_api_cpp.App.Routes.{define_routes}
use adequate_api_cpp.App.Routes.Resources.{no_routes, IsRouted}
use adequate_api_cpp.App.Session.{HttpReader, Exchange, run}
use adequate_api_cpp.App.Session.Answers.{Sends, answers, until_closed, run-answers}
use adequate_api_cpp.App.Wiring.{wire}
use adequate_api_cpp.App.Routes.Resources.Routed.{define_routes-IsRouted}
use adequate_api_cpp.App.Samples.{World, context}

define_routes-IsRouted_example :
    (router : Router json_lib http_lib World (OpenApiMeta json_lib)) × (define_routes context
        no_routes
      ≡ some router)
    × IsRouted context router
define_routes-IsRouted_example = define_routes-IsRouted context

abbrev env : Env
env = record {
  file_upload_limit_size = 100;
  multipart_adapter = str "POCO";
  poco = λ content_type body. ok [];
}

abbrev users_request : Request
users_request = request_to get (str "/users")

read_within :
    (limit : ℕ) (wire raw : RawRequest) (b : Bool)
    → ltb limit (length wire.body) ≡ b
    → (if b then throw (std_error (str "body limit exceeded")) else ok wire) ≡ ok raw
    → length raw.body ≤ limit
read_within limit wire raw true e h = cc h
read_within limit wire raw false e h =
    subst (λ x. length x.body ≤ limit) (ok_inj h) (within limit (length wire.body) e)
  where
    within : (a b : ℕ) → ltb a b ≡ false → b ≤ a
    within a b e = ground arith

-- A request is sent as it is, and is read up to the limit.
abbrev reader : HttpReader
reader = record {
  Wire = RawRequest;
  read = λ limit raw.
      if ltb limit (length raw.body) then throw (std_error (str "body limit exceeded")) else ok raw;
  read_limit = λ limit wire raw h. read_within limit wire raw (ltb limit (length wire.body)) refl h;
}

abbrev raw_to : Str → Bool → RawRequest
raw_to body keep_alive = record {
  method = post;
  target = str "/login";
  version = 11;
  keep_alive = keep_alive;
  host_header = none;
  forwarded_proto_header = none;
  content_type_header = none;
  authorization_header = none;
  body = body;
}

-- The status is the length of the body, and the world counts the requests.
abbrev measure : M (Request × ℕ) http_lib.Response
measure (q, w) = (ok (length q.body, q.body, q.keep_alive), (q, w + 1))

abbrev raws : List RawRequest
raws = raw_to (str "a") true ∷ raw_to (str "bc") false ∷ raw_to (str "d") true ∷ []

abbrev exchanges : List (Exchange reader http_lib 100 measure)
exchanges =
    record { wire = raw_to (str "a") true; write_error = none }
    ∷ record { wire = raw_to (str "bc") false; write_error = none }
    ∷ record { wire = raw_to (str "d") true; write_error = none }
    ∷ []

exchanges-Sends : Sends reader http_lib 100 measure exchanges raws
unfolding str
exchanges-Sends = ((refl, refl, (refl, refl, (refl, refl, tt))))

run-answers_example :
    (run reader http_lib 100 measure exchanges 0).responses
    ≡ until_closed reader http_lib 100 measure (answers reader http_lib 100 measure raws 0)
run-answers_example = run-answers reader http_lib 100 measure exchanges raws 0 exchanges-Sends
