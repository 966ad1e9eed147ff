-- ===== src/App/Routes/Resources/Routed.antt =====
-- The routes of the program find the resources of the description, and no others.
use adequate_api_cpp.Base.{
  ◌≡◌, refl, List, [], ◌∷◌, ◌++◌, none, some, Str, str, getline, ap, append-nil, All, ◌∙◌,
  if◌then◌else◌, sym, subst, starts_with,
}
use adequate_api_cpp.Http.Libraries.{JsonLib, HttpLib}
use adequate_api_cpp.Http.Request.{Verb}
use adequate_api_cpp.Router.{
  Router, RouteEntry, Handler, find_route, collect_middlewares_for, scoped_for,
}
use adequate_api_cpp.Router.Regex.{parse, regex_match}
use adequate_api_cpp.Router.Template.{compile_route, param_name}
use adequate_api_cpp.Router.Template.Segments.{
  segments, segments_of, IsPart, static, param, Fits, fits_nil, fits_static, fits_param,
}
use adequate_api_cpp.Router.Template.Parsing.{items, compile_route-parse}
use adequate_api_cpp.Router.Template.Matching.{compiled_matches_iff}
use adequate_api_cpp.Router.Table.{IsCompiled, find_route-Finds}
use mathlib.Core.List.{Memᴰ}
use adequate_api_cpp.Core.OpenApi.Document.{OpenApiMeta}
use adequate_api_cpp.App.Routes.{AppContext, define_routes}
use adequate_api_cpp.App.Routes.Resources.{
  Resource, health, registrations, logins, users, swagger, user, path_of, IsResource, captures_of,
  is_guarded, no_routes, entry, entry_of, table, app_router, define_routes-app_router, IsRouted,
}

-- A path that fits one static segment, or one and a parameter.
Fits-static :
    (s : Str) {caps : List Str} {path : Str}
    → Fits (static s ∷ []) caps path
    → (path ≡ b'/' ∷ s) × (caps ≡ [])
Fits-static s (fits_static s' fits_nil) = (ap (λ t. b'/' ∷ t) (append-nil s), refl)

Fits-param :
    (s name : Str) {caps : List Str} {path : Str}
    → Fits (static s ∷ param name ∷ []) caps path
    → (w : Str) × IsPart w × (path ≡ b'/' ∷ s ++ (b'/' ∷ w)) × (caps ≡ w ∷ [])
Fits-param s name (fits_static s' (fits_param name' w p fits_nil)) =
    (w, p, ap (λ t. b'/' ∷ s ++ (b'/' ∷ t)) (append-nil w), refl)

template_regex : (path : Str) → parse (compile_route path).0 ≡ some (items (segments path))
template_regex path = (compile_route-parse path).0

user_segments : segments (str "/users/{id}") ≡ static (str "users") ∷ param (str "id") ∷ []
unfolding str getline segments_of param_name
user_segments = refl

user-Fits :
    (id : Str)
    → IsPart id
    → Fits (static (str "users") ∷ param (str "id") ∷ []) (id ∷ []) (str "/users/" ++ id)
unfolding str
user-Fits id p =
    subst (λ t. Fits (static (str "users") ∷ param (str "id") ∷ []) (id ∷ []) (str "/users/" ++ t))
      (append-nil id) (fits_static (str "users") (fits_param (str "id") id p fits_nil))

user_matches :
    (id : Str)
    → IsPart id
    → regex_match (items (segments (str "/users/{id}"))) (str "/users/" ++ id) ≡ some (id ∷ [])
user_matches id p =
    (compiled_matches_iff (str "/users/{id}") (str "/users/" ++ id)
        (items (segments (str "/users/{id}"))) (id ∷ []) (template_regex (str "/users/{id}"))).1
      (rw user_segments (user-Fits id p))

-- The templates before it do not match a user's path.
user_first :
    (id : Str)
    → (regex_match (items (segments (str "/health"))) (str "/users/" ++ id) ≡ none)
      × (regex_match (items (segments (str "/register"))) (str "/users/" ++ id) ≡ none)
      × (regex_match (items (segments (str "/login"))) (str "/users/" ++ id) ≡ none)
      × (regex_match (items (segments (str "/users"))) (str "/users/" ++ id) ≡ none)
unfolding regex_match str items segments_of getline param_name
user_first id = (refl, refl, refl, refl)

module _ {J : JsonLib} {H : HttpLib} {W : Type 0} (ctx : AppContext J H W) where
  located_user :
      (id : Str)
      → IsPart id
      → find_route (str "/users/" ++ id) (table ctx) ≡ some (entry_of ctx (user id), id ∷ [])
  unfolding find_route
  located_user id p =
      let (a, b, c, d) = user_first id in rw (find_route, a, b, c, d, user_matches id p) refl

  -- The path of a resource finds the entry of the resource.
  located :
      (r : Resource)
      → IsResource r
      → find_route (path_of r) (table ctx) ≡ some (entry_of ctx r, captures_of r)
  unfolding find_route regex_match str items segments_of getline param_name
  located health v = refl
  located registrations v = refl
  located logins v = refl
  located users v = refl
  located swagger v = refl
  located (user id) v = located_user id v

  template-IsCompiled :
      (path : Str) (methods : List (Verb × Handler J H W)) (types : List (Verb × List Str))
      (metas : List (Verb × OpenApiMeta J))
      → IsCompiled (entry ctx path methods types metas)
  template-IsCompiled path methods types metas = record {
    regex = template_regex path;
    named = refl;
  }

  table-IsCompiled : All IsCompiled (table ctx)
  table-IsCompiled = (
    template-IsCompiled _ _ _ _,
    (
      template-IsCompiled _ _ _ _,
      (
        template-IsCompiled _ _ _ _,
        (
          template-IsCompiled _ _ _ _,
          (template-IsCompiled _ _ _ _, (template-IsCompiled _ _ _ _, tt)),
        ),
      ),
    ),
  )

  -- A route that a path finds is that of a resource with the path.
  abbrev Locates : Str → RouteEntry J H W (OpenApiMeta J) → List Str → Type 0
  Locates path e caps =
      (r : Resource) × IsResource r
      × (path ≡ path_of r)
      × (e ≡ entry_of ctx r)
      × (caps ≡ captures_of r)

  static_located :
      (r : Resource) (s path : Str) (caps : List Str)
      → IsResource r
      → segments (entry_of ctx r).original ≡ static s ∷ []
      → path_of r ≡ b'/' ∷ s
      → captures_of r ≡ []
      → Fits (segments (entry_of ctx r).original) caps path
      → Locates path (entry_of ctx r) caps
  static_located r s path caps v e p c f =
      let (q, d) = Fits-static s (rw e at f) in (r, v, q ∙ sym p, refl, d ∙ sym c)

  user_located :
      (path : Str) (caps : List Str)
      → Fits (segments (str "/users/{id}")) caps path
      → Locates path (entry_of ctx (user [])) caps
  unfolding str
  user_located path caps f =
      let (w, p, q, d) = Fits-param (str "users") (str "id") (rw user_segments at f) in
      (user w, p, q, refl, d)

  moved :
      (path : Str) (e e' : RouteEntry J H W (OpenApiMeta J)) (caps : List Str)
      → e ≡ e'
      → (Fits (segments e'.original) caps path → Locates path e' caps)
      → Fits (segments e.original) caps path
      → Locates path e caps
  moved path e e' caps h k f =
      subst (λ x. Fits (segments x.original) caps path → Locates path x caps) (sym h) k f

  entry_located :
      (path : Str) (e : RouteEntry J H W (OpenApiMeta J)) (caps : List Str)
      → Memᴰ e (table ctx)
      → Fits (segments e.original) caps path
      → Locates path e caps
  unfolding str segments_of getline param_name
  entry_located path e caps (Memᴰ.head h) f =
      moved path e (entry_of ctx health) caps h
        (static_located health (str "health") path caps tt refl refl refl) f
  entry_located path e caps (Memᴰ.tail (Memᴰ.head h)) f =
      moved path e (entry_of ctx registrations) caps h
        (static_located registrations (str "register") path caps tt refl refl refl) f
  entry_located path e caps (Memᴰ.tail (Memᴰ.tail (Memᴰ.head h))) f =
      moved path e (entry_of ctx logins) caps h
        (static_located logins (str "login") path caps tt refl refl refl) f
  entry_located path e caps (Memᴰ.tail (Memᴰ.tail (Memᴰ.tail (Memᴰ.head h)))) f =
      moved path e (entry_of ctx users) caps h
        (static_located users (str "users") path caps tt refl refl refl) f
  entry_located path e caps (Memᴰ.tail (Memᴰ.tail (Memᴰ.tail (Memᴰ.tail (Memᴰ.head h))))) f =
      moved path e (entry_of ctx (user [])) caps h (user_located path caps) f
  entry_located path e caps
        (Memᴰ.tail (Memᴰ.tail (Memᴰ.tail (Memᴰ.tail (Memᴰ.tail (Memᴰ.head h)))))) f =
      moved path e (entry_of ctx swagger) caps h
        (static_located swagger (str "swagger") path caps tt refl refl refl) f
  entry_located path e caps
        (Memᴰ.tail (Memᴰ.tail (Memᴰ.tail (Memᴰ.tail (Memᴰ.tail (Memᴰ.tail m)))))) f =
      elim m [ ]

  -- What a path finds, from `Finds`.
  found_located :
      (path : Str) (e : RouteEntry J H W (OpenApiMeta J)) (caps : List Str)
      → find_route path (table ctx) ≡ some (e, caps)
      → Locates path e caps
  found_located path e caps h =
      let (m, f) = rw h at (find_route-Finds path (table ctx) table-IsCompiled) in
      entry_located path e caps m f

  located_by :
      (path : Str) (e : RouteEntry J H W (OpenApiMeta J)) (caps : List Str)
      → Locates path e caps
      → find_route path (table ctx) ≡ some (e, caps)
  located_by path e caps (r, v, p, q, c) = rw (p, q, c) (located r v)

  router-guards :
      (r : Resource)
      → collect_middlewares_for (app_router ctx) (path_of r)
        ≡ (if is_guarded r then ctx.authentication ∷ [] else [])
  unfolding collect_middlewares_for scoped_for starts_with str
  router-guards health = refl
  router-guards registrations = refl
  router-guards logins = refl
  router-guards users = refl
  router-guards swagger = refl
  router-guards (user id) = refl

  -- define_routes succeeds on an empty router. In the router that it returns a path finds a route
  -- exactly when it is the path of a resource, then the route of the resource, with the id of a user
  -- as its capture; and the authentication middleware, alone, stands before the users and each user,
  -- and before no other resource.
  pub define_routes-IsRouted :
      (router : Router J H W (OpenApiMeta J)) × (define_routes ctx no_routes ≡ some router)
      × IsRouted ctx router
  define_routes-IsRouted = (
    app_router ctx,
    define_routes-app_router ctx,
    record {
      finds = λ path e caps. (found_located path e caps, located_by path e caps);
      guards = router-guards;
    },
  )
