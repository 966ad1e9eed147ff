-- ===== src/Router.antt =====
-- Router of core/routers/Router.h and core/routers/Router.cpp: the route table, the middlewares and
-- `dispatch`. A handler is a call that reads and writes the request, which the program passes by
-- reference, and the world W behind the services.
pub mod Regex
pub mod Template
pub mod Table
pub mod Chain
pub mod Dispatch
pub mod Access
pub mod Methods
pub mod Tests
use adequate_api_cpp.Base.{
  ℕ, ◌<◌, ◌≡◌, Bool, true, false, not, ◌&&◌, if◌then◌else◌, ltb, List, [], ◌∷◌, ◌++◌, Option, none,
  some, Str, str, str_eq, starts_with, contains_str, before, is_empty, any, length, M, ◌>>=◌, pure,
  raise, try_catch, Result, ok, throw, Exception, db_error, bind_result,
}
use adequate_api_cpp.Base.Decimal.{ℤ, negsuc}
use adequate_api_cpp.Http.Libraries.{JsonLib, HttpLib}
use adequate_api_cpp.Http.Request.{
  Verb, get, head, post, put, patch, delete_, options, verb_eq, Request, assign, content_type, what,
  is_std, ensure_json_valid, parse_multipart, Parser,
}
use adequate_api_cpp.Http.Renderer.{
  Outcome, response, json, render as render_json, error, JsonResult,
}
use Regex.{Item, regex_match, parse}
use Template.{compile_route}

-- http::to_string of the verbs in the order of buildAllowHeader
abbrev pub allow_items : List (Verb × Str)
allow_items =
    (get, str "GET")
    ∷ (head, str "HEAD")
    ∷ (post, str "POST")
    ∷ (put, str "PUT")
    ∷ (patch, str "PATCH")
    ∷ (delete_, str "DELETE")
    ∷ (options, str "OPTIONS")
    ∷ []

-- std::unordered_map over verbs
module _ {V : Type 0} where
  unfoldable pub assign_verb : Verb → V → List (Verb × V) → List (Verb × V)
  assign_verb k v [] = (k, v) ∷ []
  assign_verb k v ((j, w) ∷ m) = if verb_eq j k then (k, v) ∷ m else (j, w) ∷ assign_verb k v m

  unfoldable pub find_verb : Verb → List (Verb × V) → Option V
  find_verb k [] = none
  find_verb k ((j, v) ∷ m) = if verb_eq j k then some v else find_verb k m

  abbrev pub is_some : Option V → Bool
  is_some none = false
  is_some (some v) = true

  abbrev pub contains : Verb → List (Verb × V) → Bool
  contains k m = is_some (find_verb k m)

  -- The loop of buildAllowHeader over the items.
  unfoldable pub allow_loop : List (Verb × Str) → List (Verb × V) → Str → Str
  unfolding find_verb
  allow_loop [] mm allow = allow
  allow_loop ((verb, name) ∷ rest) mm allow = allow_loop rest mm (
      if contains verb mm
      then (if is_empty allow then allow else allow ++ str ", ") ++ name
      else allow)

  unfoldable pub build_allow_header : List (Verb × V) → Str
  unfolding allow_loop
  build_allow_header mm = allow_loop allow_items mm []

-- What `dispatch` reads of EnvConfig, and the parser behind the multipart adapter.
pub record Env : Type 0 where
  pub file_upload_limit_size : ℕ
  pub multipart_adapter : Str
  pub poco : Parser

unfoldable pub normalize_target : Request → Str
unfolding before
normalize_target q = before b'?' q.target

-- params[paramNames[i]] = match[i + 1]
unfoldable pub assign_params : List Str → List Str → List (Str × Str) → List (Str × Str)
unfolding assign
assign_params [] caps m = m
assign_params (n ∷ ns) [] m = assign_params ns [] (assign n [] m)
assign_params (n ∷ ns) (c ∷ cs) m = assign_params ns cs (assign n c m)

module _ (J : JsonLib) (H : HttpLib) (W : Type 0) where
  abbrev pub Handler : Type 0
  Handler = M (Request × W) (Outcome J H)

  pub record Middleware : Type 0 where
    pub handle : Handler → Handler
    pub after : Request → H.Response → M W H.Response

module _ (J : JsonLib) (H : HttpLib) (W Meta : Type 0) where
  pub record RouteEntry : Type 0 where
    pub regex : List Item
    pub param_names : List Str
    pub methods : List (Verb × Handler J H W)
    pub original : Str
    pub allowed_content_types : List (Verb × List Str)
    pub openapi_meta : List (Verb × Meta)

  pub record Router : Type 0 where
    pub table : List RouteEntry
    pub global_middlewares : List (Middleware J H W)
    pub scoped_middlewares : List (Str × Middleware J H W)

abbrev pub keep_request : {W A : Type 0} → Request → Result A × W → Result A × (Request × W)
keep_request q (r, w) = (r, (q, w))

module _ {J : JsonLib} {H : HttpLib} {W : Type 0} where
  -- The scoped part of collectMiddlewaresFor: path.rfind(prefix, 0) == 0
  unfoldable pub scoped_for : Str → List (Str × Middleware J H W) → List (Middleware J H W)
  scoped_for path [] = []
  scoped_for path ((prefix, m) ∷ ms) =
      let rest = scoped_for path ms in if starts_with prefix path then m ∷ rest else rest

  -- The first middleware is the outermost.
  unfoldable pub run_chain : List (Middleware J H W) → Handler J H W → Handler J H W
  run_chain [] leaf = leaf
  run_chain (m ∷ ms) leaf = m.handle (run_chain ms leaf)

  abbrev pub call_after : Middleware J H W → H.Response → M (Request × W) H.Response
  call_after m res (q, w) = keep_request q (m.after q res w)

  unfoldable pub run_after : List (Middleware J H W) → H.Response → M (Request × W) H.Response
  run_after [] res = pure res
  run_after (m ∷ ms) res = call_after m res >>= run_after ms

module _ {J : JsonLib} {H : HttpLib} {W Meta : Type 0} where
  -- The assignments of `add` to an entry.
  unfoldable pub register :
      Verb → Handler J H W → List Str → Meta → RouteEntry J H W Meta → RouteEntry J H W Meta
  register method fn allowed meta entry = record entry {
    methods = assign_verb method fn entry.methods;
    allowed_content_types = assign_verb method allowed entry.allowed_content_types;
    openapi_meta = assign_verb method meta entry.openapi_meta;
  }

  -- The entry that compileRoute returns, if std::regex takes its text.
  unfoldable pub new_entry : Str → Option (RouteEntry J H W Meta)
  new_entry path = elim (parse (compile_route path).0) [
    | none ↦ none
    | some r ↦ some (record {
      regex = r;
      param_names = (compile_route path).1;
      methods = [];
      original = path;
      allowed_content_types = [];
      openapi_meta = [];
    })
  ]

  -- The table after the loop of `add` and the push_back behind it; `none` if std::regex throws.
  unfoldable pub add_to :
      Verb
      → Str
      → Handler J H W
      → List Str
      → Meta
      → List (RouteEntry J H W Meta)
      → Option (List (RouteEntry J H W Meta))
  add_to method path fn allowed meta [] = elim (new_entry path) [
    | none ↦ none
    | some entry ↦ some (register method fn allowed meta entry ∷ [])
  ]
  add_to method path fn allowed meta (entry ∷ table) =
      let rest = add_to method path fn allowed meta table in
      if str_eq entry.original path
      then some (register method fn allowed meta entry ∷ table)
      else elim rest [ none ↦ none | some table' ↦ some (entry ∷ table') ]

  unfoldable pub add :
      Verb → Str → Handler J H W → List Str → Meta → Router J H W Meta → Option (Router J H W Meta)
  add method path fn allowed meta r = elim (add_to method path fn allowed meta r.table) [
    | none ↦ none
    | some table ↦ some (record r { table = table })
  ]

  unfoldable pub use_global : Middleware J H W → Router J H W Meta → Router J H W Meta
  use_global m r = record r { global_middlewares = r.global_middlewares ++ m ∷ [] }

  unfoldable pub use_scoped : Str → Middleware J H W → Router J H W Meta → Router J H W Meta
  use_scoped prefix m r = record r { scoped_middlewares = r.scoped_middlewares ++ (prefix, m) ∷ [] }

  unfoldable pub collect_middlewares_for : Router J H W Meta → Str → List (Middleware J H W)
  collect_middlewares_for r path = r.global_middlewares ++ scoped_for path r.scoped_middlewares

  -- std::regex_match of the path against each entry in turn.
  unfoldable pub find_route :
      Str → List (RouteEntry J H W Meta) → Option (RouteEntry J H W Meta × List Str)
  find_route path [] = none
  find_route path (entry ∷ table) =
      let rest = find_route path table in
      elim (regex_match entry.regex path) [ none ↦ rest | some caps ↦ some (entry, caps) ]
