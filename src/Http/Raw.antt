-- ===== src/Http/Raw.antt =====
-- The constructor of Request in core/request/Request.h, and Response::redirect of
-- core/response/Response.h.
use adequate_api_cpp.Base.{ℕ, Bool, [], ◌++◌, Option, none, Str, str}
use adequate_api_cpp.Http.Libraries.{HttpLib}
use adequate_api_cpp.Http.Request.{Request, Verb, value_or}

-- boost::beast::http::request, as far as the program reads it.
pub record RawRequest : Type 0 where
  pub method : Verb
  pub target : Str
  pub version : ℕ
  pub keep_alive : Bool
  pub host_header : Option Str
  pub forwarded_proto_header : Option Str
  pub content_type_header : Option Str
  pub authorization_header : Option Str
  pub body : Str

-- schema + "://" + host + "/", where each is empty without its header
abbrev pub absolute_host_of : RawRequest → Str
absolute_host_of raw =
    value_or raw.forwarded_proto_header []
    ++ (str "://" ++ (value_or raw.host_header [] ++ str "/"))

unfoldable pub request_of : RawRequest → Request
request_of raw = record {
  method = raw.method;
  target = raw.target;
  version = raw.version;
  keep_alive = raw.keep_alive;
  content_type_header = raw.content_type_header;
  authorization_header = raw.authorization_header;
  body = raw.body;
  absolute_host = absolute_host_of raw;
  path_params = [];
  user_id = none;
  multipart = none;
}

module _ (H : HttpLib) where
  unfoldable pub redirect : ℕ → Bool → Str → ℕ → H.Response
  redirect version keep_alive location code = H.prepare_payload (
      H.set_body (str "Redirecting to " ++ location) (
        H.set_keep_alive keep_alive (
          H.set (str "Content-Type") (str "text/plain; charset=utf-8")
            (H.set (str "Location") location (H.make code version)))))
