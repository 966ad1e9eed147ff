-- ===== src/App/Routes.antt =====
-- define_routes of routes/Routes.cpp, with the filter parameters that its metadata takes from
-- filters/users/UserListFilter.h.
pub mod Resources
use adequate_api_cpp.Base.{◌≡◌, Bool, true, false, List, [], ◌∷◌, Option, none, some, Str, str, M}
use adequate_api_cpp.Http.Libraries.{JsonLib, HttpLib}
use adequate_api_cpp.Http.Request.{Request}
use adequate_api_cpp.Http.Renderer.{Outcome}
use adequate_api_cpp.Router.{Router, Middleware, use_scoped}
use adequate_api_cpp.Router.Methods.{add_get, add_post, add_patch, add_delete}
use adequate_api_cpp.Core.OpenApi.{
  Items, Call, ok, ok_array, created, no_content, not_found, with_auth, with_body, with_always,
  build,
}
use adequate_api_cpp.Core.OpenApi.Document.{
  OpenApiMeta, OpenApiRequestBody, no_meta, query_param, path_param,
}
use adequate_api_cpp.App.Controllers.{bind_handler}

-- The controllers and the middleware of the context, as define_routes uses them.
module _ (J : JsonLib) (H : HttpLib) (W : Type 0) where
  pub record AppContext : Type 0 where
    pub health : Request → M W (Outcome J H)
    pub registration : Request → M W (Outcome J H)
    pub login : Request → M W (Outcome J H)
    pub index : Request → M W (Outcome J H)
    pub store : Request → M W (Outcome J H)
    pub update : Request → M W (Outcome J H)
    pub remove : Request → M W (Outcome J H)
    pub swagger : Request → M W (Outcome J H)
    pub authentication : Middleware J H W

abbrev json_body : Str → Option OpenApiRequestBody
json_body schema =
    some (record { content_type = str "application/json"; schema_ref = schema; required = true })

-- notFound() with its default arguments
abbrev not_found_response : Call
not_found_response = not_found (str "ErrorResponse") (str "Not found")

abbrev created_response : Str → Call
created_response desc = created desc none

module _ (J : JsonLib) where
  abbrev typed : Str → J.Json
  typed type = J.object ((str "type", J.string type) ∷ [])

  abbrev formatted : Str → Str → J.Json
  formatted type format =
      J.object ((str "type", J.string type) ∷ (str "format", J.string format) ∷ [])

  -- OpenApiFilterSpec<UserListFilter>::parameters
  unfoldable pub list_parameters : List J.Json
  unfolding query_param
  list_parameters =
      query_param J (str "id") (formatted (str "integer") (str "int64")) [] false
      ∷ query_param J (str "id__in") (typed (str "string")) (str "Comma-separated ids, e.g. 1,2,3")
          false
      ∷ query_param J (str "username") (typed (str "string")) [] false
      ∷ query_param J (str "username__in") (typed (str "string")) (str "Comma-separated usernames")
          false
      ∷ query_param J (str "email") (formatted (str "string") (str "email")) [] false
      ∷ query_param J (str "limit") (typed (str "integer")) [] false
      ∷ query_param J (str "offset") (typed (str "integer")) [] false
      ∷ []

  unfoldable pub id_parameters : List J.Json
  unfolding path_param
  id_parameters =
      path_param J (str "id") (formatted (str "integer") (str "int64")) (str "User id") ∷ []

  abbrev meta_of : Str → List Call → List J.Json → Option OpenApiRequestBody → Bool → OpenApiMeta J
  meta_of summary calls parameters body auth = record {
    summary = summary;
    responses = build calls [];
    parameters = parameters;
    request_body = body;
    auth_required = auth;
  }

  abbrev pub health_meta : OpenApiMeta J
  health_meta =
      meta_of (str "Health check endpoint")
        (ok (str "HealthResponse") (str "OK") ∷ with_always ∷ []) [] none false

  abbrev pub register_meta : OpenApiMeta J
  register_meta =
      meta_of (str "Register") (created_response (str "Created") ∷ with_always ∷ []) []
        (json_body (str "RegisterRequest")) false

  abbrev pub login_meta : OpenApiMeta J
  login_meta =
      meta_of (str "Login/Obtain tokens") (ok (str "LoginResponse") (str "OK") ∷ with_always ∷ [])
        [] (json_body (str "LoginRequest")) false

  abbrev pub index_meta : OpenApiMeta J
  index_meta =
      meta_of (str "List users")
        (ok_array (str "UserResponse") (str "OK") ∷ with_auth ∷ with_always ∷ []) list_parameters
        none true

  -- .created("UserCreateResponse") gives the description, not the schema.
  abbrev pub store_meta : OpenApiMeta J
  store_meta =
      meta_of (str "Create user")
        (created_response (str "UserCreateResponse") ∷ with_auth ∷ with_body ∷ with_always ∷ []) []
        (json_body (str "UserCreateRequest")) true

  abbrev pub update_meta : OpenApiMeta J
  update_meta =
      meta_of (str "Update user")
        (no_content (str "No Content")
          ∷ with_auth
          ∷ with_always
          ∷ not_found_response
          ∷ with_body
          ∷ [])
        id_parameters
        (some (record {
          content_type = str "multipart/form-data";
          schema_ref = str "UserUpdateMultipartRequest";
          required = true;
        }))
        true

  abbrev pub delete_meta : OpenApiMeta J
  delete_meta =
      meta_of (str "Delete user")
        (no_content (str "No Content") ∷ with_auth ∷ with_always ∷ not_found_response ∷ [])
        id_parameters none true

module _ {J : JsonLib} {H : HttpLib} {W : Type 0} where
  infixl 5 ◌|>◌
  abbrev ◌|>◌ :
      Option (Router J H W (OpenApiMeta J))
      → (Router J H W (OpenApiMeta J) → Option (Router J H W (OpenApiMeta J)))
      → Option (Router J H W (OpenApiMeta J))
  none |> f = none
  some r |> f = f r

  -- The registrations, in their order; none if std::regex throws on a template.
  unfoldable pub define_routes :
      AppContext J H W → Router J H W (OpenApiMeta J) → Option (Router J H W (OpenApiMeta J))
  unfolding use_scoped
  define_routes ctx router =
      some router
      |> add_get (str "/health") (bind_handler J H ctx.health) (health_meta J)
      |> add_post (str "/register") (bind_handler J H ctx.registration) [] (register_meta J)
      |> add_post (str "/login") (bind_handler J H ctx.login) [] (login_meta J)
      |> (λ r. some (use_scoped (str "/users") ctx.authentication r))
      |> add_get (str "/users") (bind_handler J H ctx.index) (index_meta J)
      |> add_post (str "/users") (bind_handler J H ctx.store) [] (store_meta J)
      |> add_patch (str "/users/{id}") (bind_handler J H ctx.update)
          (str "multipart/form-data" ∷ []) (update_meta J)
      |> add_delete (str "/users/{id}") (bind_handler J H ctx.remove) [] (delete_meta J)
      |> add_get (str "/swagger") (bind_handler J H ctx.swagger) (no_meta J)
