-- ===== src/App/Routes/Resources.antt =====
-- What the program serves, as a description: its resources, their paths and their entries.
use adequate_api_cpp.Base.{
  ◌≡◌, refl, Bool, true, false, List, [], ◌∷◌, ◌++◌, none, some, Str, str, str_eq, getline, ap,
  append-nil, All, ◌∙◌, if◌then◌else◌, sym, subst, ◌↔◌, starts_with,
}
use adequate_api_cpp.Http.Libraries.{JsonLib, HttpLib}
use adequate_api_cpp.Http.Request.{Verb, get, post, patch, delete_}
use adequate_api_cpp.Router.{
  Router, RouteEntry, Handler, add, add_to, new_entry, register, assign_verb, find_route,
  collect_middlewares_for, scoped_for, use_scoped,
}
use adequate_api_cpp.Router.Regex.{parse, regex_match}
use adequate_api_cpp.Router.Template.{compile_route, param_name}
use adequate_api_cpp.Router.Template.Segments.{
  segments, segments_of, names, IsPart, static, param, Fits, fits_nil, fits_static, fits_param,
}
use adequate_api_cpp.Router.Template.Parsing.{items, compile_route-parse}
use adequate_api_cpp.Router.Template.Matching.{compiled_matches_iff}
use adequate_api_cpp.Router.Table.{IsCompiled, find_route-Finds}
use mathlib.Core.List.{Memᴰ}
use adequate_api_cpp.Core.OpenApi.Document.{OpenApiMeta, no_meta}
use adequate_api_cpp.App.Controllers.{bind_handler}
use adequate_api_cpp.App.Routes.{
  AppContext, define_routes, health_meta, register_meta, login_meta, index_meta, store_meta,
  update_meta, delete_meta,
}
pub mod Routed

-- What the program serves.
pub data Resource : Type 0 where
  health registrations logins users swagger : Resource
  user : (id : Str) → Resource

abbrev pub path_of : Resource → Str
path_of health = str "/health"
path_of registrations = str "/register"
path_of logins = str "/login"
path_of users = str "/users"
path_of swagger = str "/swagger"
path_of (user id) = str "/users/" ++ id

-- An id is a part of a path: not empty, and without a slash.
abbrev pub IsResource : Resource → Type 0
IsResource (user id) = IsPart id
IsResource _ = Unit

abbrev pub captures_of : Resource → List Str
captures_of (user id) = id ∷ []
captures_of _ = []

abbrev pub is_guarded : Resource → Bool
is_guarded users = true
is_guarded (user id) = true
is_guarded _ = false

-- The router as it is constructed.
abbrev pub no_routes : {J : JsonLib} {H : HttpLib} {W : Type 0} → Router J H W (OpenApiMeta J)
no_routes = record { table = []; global_middlewares = []; scoped_middlewares = [] }

module _ {J : JsonLib} {H : HttpLib} {W : Type 0} (ctx : AppContext J H W) where
  abbrev pub entry :
      Str
      → List (Verb × Handler J H W)
      → List (Verb × List Str)
      → List (Verb × OpenApiMeta J)
      → RouteEntry J H W (OpenApiMeta J)
  entry template methods types metas = record {
    regex = items (segments template);
    param_names = names (segments template);
    methods = methods;
    original = template;
    allowed_content_types = types;
    openapi_meta = metas;
  }

  -- The methods of a resource, with their handlers, content types and metadata.
  abbrev pub entry_of : Resource → RouteEntry J H W (OpenApiMeta J)
  entry_of health =
      entry (str "/health") ((get, bind_handler J H ctx.health) ∷ []) ((get, []) ∷ [])
        ((get, health_meta J) ∷ [])
  entry_of registrations =
      entry (str "/register") ((post, bind_handler J H ctx.registration) ∷ []) ((post, []) ∷ [])
        ((post, register_meta J) ∷ [])
  entry_of logins =
      entry (str "/login") ((post, bind_handler J H ctx.login) ∷ []) ((post, []) ∷ [])
        ((post, login_meta J) ∷ [])
  entry_of users =
      entry (str "/users")
        ((get, bind_handler J H ctx.index) ∷ (post, bind_handler J H ctx.store) ∷ [])
        ((get, []) ∷ (post, []) ∷ []) ((get, index_meta J) ∷ (post, store_meta J) ∷ [])
  entry_of (user id) =
      entry (str "/users/{id}")
        ((patch, bind_handler J H ctx.update) ∷ (delete_, bind_handler J H ctx.remove) ∷ [])
        ((patch, str "multipart/form-data" ∷ []) ∷ (delete_, []) ∷ [])
        ((patch, update_meta J) ∷ (delete_, delete_meta J) ∷ [])
  entry_of swagger =
      entry (str "/swagger") ((get, bind_handler J H ctx.swagger) ∷ []) ((get, []) ∷ [])
        ((get, no_meta J) ∷ [])

  abbrev pub table : List (RouteEntry J H W (OpenApiMeta J))
  table =
      entry_of health
      ∷ entry_of registrations
      ∷ entry_of logins
      ∷ entry_of users
      ∷ entry_of (user [])
      ∷ entry_of swagger
      ∷ []

  abbrev pub app_router : Router J H W (OpenApiMeta J)
  app_router = record {
    table = table;
    global_middlewares = [];
    scoped_middlewares = (str "/users", ctx.authentication) ∷ [];
  }

  pub define_routes-app_router : define_routes ctx no_routes ≡ some app_router
  unfolding define_routes add add_to new_entry register assign_verb use_scoped str str_eq
      compile_route items names parse getline segments_of
  define_routes-app_router = refl

  -- The routing that the program promises: a path finds a route exactly when it is the path of a
  -- resource, and then that of the resource, with its id as the capture; and the authentication
  -- middleware, alone, stands before the users and each user, and before no other resource.
  pub record IsRouted (router : Router J H W (OpenApiMeta J)) : Type 0 where
    pub finds :
        (path : Str) (e : RouteEntry J H W (OpenApiMeta J)) (caps : List Str)
        → (find_route path router.table ≡ some (e, caps)) ↔ (
            (r : Resource) × IsResource r
            × (path ≡ path_of r)
            × (e ≡ entry_of r)
            × (caps ≡ captures_of r))
    pub guards :
        (r : Resource)
        → collect_middlewares_for router (path_of r)
          ≡ (if is_guarded r then ctx.authentication ∷ [] else [])
