-- ===== src/App/Schemas/Resolved.antt =====
-- The references of the routes' metadata against the schemas that are registered.
use adequate_api_cpp.Base.{◌≡◌, true, List, [], ◌∷◌, ◌++◌, All, Option, none, some, Str}
use adequate_api_cpp.Http.Libraries.{JsonLib, HttpLib}
use adequate_api_cpp.Http.Request.{Verb, find}
use adequate_api_cpp.Router.{Router, RouteEntry, is_some}
use adequate_api_cpp.Core.OpenApi.{Items}
use adequate_api_cpp.Core.OpenApi.Document.{OpenApiMeta, OpenApiRequestBody}
use adequate_api_cpp.App.Schemas.{registered_schemas}

abbrev optional : Option Str → List Str
optional none = []
optional (some s) = s ∷ []

abbrev response_references : Items → List Str
response_references [] = []
response_references (r ∷ rs) = optional r.schema_ref ++ response_references rs

abbrev body_references : Option OpenApiRequestBody → List Str
body_references none = []
body_references (some body) = body.schema_ref ∷ []

module _ (J : JsonLib) where
  -- The schemas that the operation of a metadata refers to.
  abbrev pub references : OpenApiMeta J → List Str
  references meta = response_references meta.responses ++ body_references meta.request_body

  abbrev pub IsResolved : Str → Type 0
  IsResolved name = is_some (find name (registered_schemas J)) ≡ true

module _ {J : JsonLib} {H : HttpLib} {W : Type 0} where
  abbrev pub AreResolved : List (RouteEntry J H W (OpenApiMeta J)) → Type 0
  AreResolved routes =
      All
        (λ route.
          All (λ (m : Verb × OpenApiMeta J). All (IsResolved J) (references J m.1))
            route.openapi_meta)
        routes
