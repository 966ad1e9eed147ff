-- ===== src/App/Schemas.antt =====
-- The schemas that define_routes registers for the OpenAPI document: those of the controllers'
-- registerOpenApi, with OpenApiSchemaSpec of the serializers, and that of errors.
pub mod Resolved
use adequate_api_cpp.Base.{ℕ, Bool, true, false, List, [], ◌∷◌, ◌++◌, Str, str}
use adequate_api_cpp.Base.Decimal.{pos}
use adequate_api_cpp.Http.Libraries.{JsonLib}
use adequate_api_cpp.Core.OpenApi.Document.{register_schema}

module _ (J : JsonLib) where
  abbrev strings : List Str → List J.Json
  strings [] = []
  strings (s ∷ ss) = J.string s ∷ strings ss

  abbrev typed : Str → J.Json
  typed type = J.object ((str "type", J.string type) ∷ [])

  abbrev formatted : Str → Str → J.Json
  formatted type format =
      J.object ((str "type", J.string type) ∷ (str "format", J.string format) ∷ [])

  abbrev at_least : ℕ → J.Json
  at_least n =
      J.object ((str "type", J.string (str "string")) ∷ (str "minLength", J.number (pos n)) ∷ [])

  abbrev email_schema : J.Json
  email_schema = formatted (str "string") (str "email")

  abbrev object_schema : List (Str × J.Json) → List (Str × J.Json) → J.Json
  object_schema required properties = J.object (
      (str "type", J.string (str "object"))
      ∷ (required
          ++ (str "properties", J.object properties)
            ∷ (str "additionalProperties", J.boolean false)
            ∷ []))

  abbrev required : List Str → List (Str × J.Json)
  required names = (str "required", J.array (strings names)) ∷ []

  abbrev pub health_schema : J.Json
  health_schema =
      object_schema (required (str "status" ∷ [])) ((str "status", typed (str "string")) ∷ [])

  -- A user name, an email and a password, as UserCreateSerializer and RegisterSerializer have them.
  abbrev pub user_create_schema : J.Json
  user_create_schema =
      object_schema (required (str "username" ∷ str "email" ∷ str "password" ∷ [])) (
        (str "username", at_least 1)
        ∷ (str "email", email_schema)
        ∷ (str "password", at_least 6)
        ∷ [])

  abbrev pub register_request_schema : J.Json
  register_request_schema = user_create_schema

  abbrev pub user_create_response_schema : J.Json
  user_create_response_schema =
      object_schema (required (str "id" ∷ str "username" ∷ str "email" ∷ [])) (
        (str "id", formatted (str "integer") (str "int64"))
        ∷ (str "username", typed (str "string"))
        ∷ (str "email", email_schema)
        ∷ [])

  abbrev pub user_schema : J.Json
  user_schema =
      object_schema
        (required (
          str "id"
          ∷ str "username"
          ∷ str "email"
          ∷ str "picture"
          ∷ str "created_at"
          ∷ str "updated_at"
          ∷ []))
        ((str "id", formatted (str "integer") (str "int64"))
          ∷ (str "username", typed (str "string"))
          ∷ (str "email", email_schema)
          ∷ (
            str "picture",
            J.object
                ((str "type", J.string (str "string")) ∷ (str "nullable", J.boolean true) ∷ []),
          )
          ∷ (str "created_at", formatted (str "string") (str "date-time"))
          ∷ (str "updated_at", formatted (str "string") (str "date-time"))
          ∷ [])

  abbrev pub user_array_schema : J.Json
  user_array_schema = J.object (
      (str "type", J.string (str "array"))
      ∷ (
        str "items",
        J.object ((str "$ref", J.string (str "#/components/schemas/UserResponse")) ∷ []),
      )
      ∷ [])

  abbrev pub user_update_schema : J.Json
  user_update_schema = object_schema [] (
      (str "username", at_least 1)
      ∷ (str "email", email_schema)
      ∷ (str "password", at_least 6)
      ∷ (str "picture", formatted (str "string") (str "binary"))
      ∷ [])

  abbrev pub login_schema : J.Json
  login_schema =
      object_schema (required (str "email" ∷ str "password" ∷ []))
        ((str "email", email_schema) ∷ (str "password", at_least 6) ∷ [])

  abbrev pub token_schema : J.Json
  token_schema =
      object_schema (required (str "refreshToken" ∷ str "accessToken" ∷ [])) (
        (str "refreshToken", typed (str "string")) ∷ (str "accessToken", typed (str "string")) ∷ [])

  abbrev pub error_schema : J.Json
  error_schema =
      object_schema (required (str "error" ∷ [])) ((str "error", typed (str "string")) ∷ [])

  -- The calls of registerSchema, in their order.
  abbrev pub registrations : List (Str × J.Json)
  registrations =
      (str "HealthResponse", health_schema)
      ∷ (str "UserCreateRequest", user_create_schema)
      ∷ (str "UserCreateResponse", user_create_response_schema)
      ∷ (str "UserResponse", user_schema)
      ∷ (str "UserResponseArray", user_array_schema)
      ∷ (str "UserUpdateMultipartRequest", user_update_schema)
      ∷ (str "LoginRequest", login_schema)
      ∷ (str "RegisterRequest", register_request_schema)
      ∷ (str "LoginResponse", token_schema)
      ∷ (str "ErrorResponse", error_schema)
      ∷ []

  unfoldable pub register_all : List (Str × J.Json) → List (Str × J.Json) → List (Str × J.Json)
  unfolding register_schema
  register_all [] schemas = schemas
  register_all ((name, schema) ∷ rest) schemas =
      register_all rest (register_schema name schema schemas)

  -- The registry behind define_routes.
  unfoldable pub registered_schemas : List (Str × J.Json)
  unfolding register_all
  registered_schemas = register_all registrations []
