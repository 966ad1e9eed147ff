-- ===== src/Router/Tests.antt =====
-- Runs of the router on concrete routes and requests.
use adequate_api_cpp.Base.{
  ℕ, ◌+◌, ◌≡◌, ◌↔◌, ◌&&◌, refl, true, if◌then◌else◌, List, [], ◌∷◌, some, Str, str, str_eq, ok,
  getline, getline_from,
}
use mathlib.Core.List.{Memᴰ}
use adequate_api_cpp.Http.Samples.{json_lib, http_lib}
use adequate_api_cpp.Http.Request.{Verb, get, verb_eq}
use adequate_api_cpp.Http.Renderer.{json, json_result}
use adequate_api_cpp.Router.{
  Env, Handler, Middleware, RouteEntry, Router, add_to, find_route, collect_middlewares_for,
}
use adequate_api_cpp.Router.Regex.{regex_match}
use adequate_api_cpp.Router.Template.{last, pop_back, param_name}
use adequate_api_cpp.Router.Template.Segments.{segments, segments_of, names, Fits}
use adequate_api_cpp.Router.Template.Parsing.{items, compile_route-parse}
use adequate_api_cpp.Router.Template.Matching.{compiled_matches_iff}
use adequate_api_cpp.Router.Table.{
  handler_of, add_to-handler_of, IsCompiled, Finds, find_route-Finds,
}
use adequate_api_cpp.Router.Access.{found_guarded}

abbrev by_id : Str
by_id = str "/users/{id}"

abbrev users : Str
users = str "/users"

compiled_matches_iff_example :
    (regex_match (items (segments by_id)) (str "/users/7") ≡ some (str "7" ∷ []))
    ↔ Fits (segments by_id) (str "7" ∷ []) (str "/users/7")
compiled_matches_iff_example =
    compiled_matches_iff by_id (str "/users/7") (items (segments by_id)) (str "7" ∷ [])
      (compile_route-parse by_id).0

-- Handlers over a world that counts the calls.
abbrev counting : Handler json_lib http_lib ℕ
counting (q, w) = (ok (json (json_result json_lib (json_lib.string []) 200 true)), (q, w + 1))

abbrev entry_of : Str → List (Verb × Handler json_lib http_lib ℕ) → RouteEntry json_lib http_lib ℕ ℕ
entry_of path methods = record {
  regex = items (segments path);
  param_names = names (segments path);
  methods = methods;
  original = path;
  allowed_content_types = [];
  openapi_meta = [];
}

entry_of-IsCompiled :
    (path : Str) (methods : List (Verb × Handler json_lib http_lib ℕ))
    → IsCompiled (entry_of path methods)
entry_of-IsCompiled path methods = record { regex = (compile_route-parse path).0; named = refl }

add_to-handler_of_example :
    (table' : List (RouteEntry json_lib http_lib ℕ ℕ)) × (add_to get users counting [] 0
        (entry_of by_id [] ∷ [])
      ≡ some table')
    × ((path' : Str) (method' : Verb)
        → handler_of path' method' table' ≡ (
            if str_eq users path' && verb_eq get method'
            then some counting
            else handler_of path' method' (entry_of by_id [] ∷ [])))
add_to-handler_of_example = add_to-handler_of get users counting [] 0 (entry_of by_id [] ∷ [])

find_route-Finds_example :
    Finds
      (str "/users/7")
      (entry_of by_id [] ∷ [])
      (find_route (str "/users/7") (entry_of by_id [] ∷ []))
find_route-Finds_example =
    find_route-Finds (str "/users/7") (entry_of by_id [] ∷ []) (entry_of-IsCompiled by_id [], tt)

abbrev passing : Middleware json_lib http_lib ℕ
passing = record { handle = λ next. next; after = λ q res w. (ok res, w) }

abbrev guarded : Router json_lib http_lib ℕ ℕ
guarded = record {
  table = entry_of users [] ∷ [];
  global_middlewares = [];
  scoped_middlewares = (b'/' ∷ str "users", passing) ∷ [];
}

found_guarded_example : Memᴰ passing (collect_middlewares_for guarded users)
unfolding find_route regex_match items segments_of getline getline_from param_name last pop_back str
    str_eq names
found_guarded_example =
    found_guarded guarded users (entry_of users []) [] (str "users") [] passing
      (entry_of-IsCompiled users [], tt) refl refl (Memᴰ.head refl)

abbrev headers_json : List (Str × Str) → json_lib.Json
headers_json hs = json_lib.null

abbrev env : Env
env = record {
  file_upload_limit_size = 100;
  multipart_adapter = str "POCO";
  poco = λ content_type body. ok [];
}
