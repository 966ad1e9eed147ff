-- ===== src/Core/OpenApi/Document.antt =====
-- The OpenAPI document: core/openapi/OpenApiBuilder.h, OpenApiParamBuilder.h and the types
-- OpenApiMeta.h and OpenApiSchemaRegistry.h. A JSON object under construction is the list of its
-- members; operator[] finds a member or adds it.
pub mod Listed
use adequate_api_cpp.Base.{
  ℕ, ◌+◌, Bool, true, false, ◌&&◌, if◌then◌else◌, leb, List, [], ◌∷◌, ◌++◌, Option, none, some, Str,
  str, map, is_empty,
}
use adequate_api_cpp.Base.Decimal.{to_string}
use adequate_api_cpp.Http.Libraries.{JsonLib, HttpLib}
use adequate_api_cpp.Http.Request.{Verb, assign, find}
use adequate_api_cpp.Router.{Handler, RouteEntry, find_verb}
use adequate_api_cpp.Core.OpenApi.{OpenApiResponseMeta, Items}

pub record OpenApiRequestBody : Type 0 where
  pub content_type : Str
  pub schema_ref : Str
  pub required : Bool

-- std::tolower of the C locale
unfoldable pub to_lower : ℕ → ℕ
to_lower c = if leb b'A' c && leb c b'Z' then c + 32 else c

abbrev pub schema_path : Str → Str
schema_path name = str "#/components/schemas/" ++ name

module _ (J : JsonLib) where
  pub record OpenApiMeta : Type 0 where
    pub summary : Str
    pub responses : Items
    pub parameters : List J.Json
    pub request_body : Option OpenApiRequestBody
    pub auth_required : Bool

  -- The default argument of Router::get and its siblings.
  abbrev pub no_meta : OpenApiMeta
  no_meta = record {
    summary = [];
    responses = [];
    parameters = [];
    request_body = none;
    auth_required = false;
  }

  abbrev described : Str → List (Str × J.Json) → J.Json
  described description fields = J.object (
      if is_empty description
      then fields
      else fields ++ (str "description", J.string description) ∷ [])

  -- OpenApiParamBuilder::query and ::path
  unfoldable pub query_param : Str → J.Json → Str → Bool → J.Json
  query_param name schema description required = described description (
      (str "name", J.string name)
      ∷ (str "in", J.string (str "query"))
      ∷ (str "required", J.boolean required)
      ∷ (str "schema", schema)
      ∷ [])

  unfoldable pub path_param : Str → J.Json → Str → J.Json
  path_param name schema description = described description (
      (str "name", J.string name)
      ∷ (str "in", J.string (str "path"))
      ∷ (str "required", J.boolean true)
      ∷ (str "schema", schema)
      ∷ [])

  -- {"schema": {"$ref": "#/components/schemas/name"}} under a content type
  abbrev pub content_of : Str → Str → J.Json
  content_of content_type name = J.object (
      (
        content_type,
        J.object ((str "schema", J.object ((str "$ref", J.string (schema_path name)) ∷ [])) ∷ []),
      )
      ∷ [])

  abbrev pub response_object : Str → Str → J.Json
  response_object description schema = J.object (
      (str "description", J.string description)
      ∷ (str "content", content_of (str "application/json") schema)
      ∷ [])

  abbrev pub add_response : ℕ → Str → Option Str → List (Str × J.Json) → List (Str × J.Json)
  add_response status description none out = out
  add_response status description (some schema) out =
      assign (to_string status) (response_object description schema) out

  -- The loop over the responses: those without a schema are left out.
  unfoldable pub responses_of : Items → List (Str × J.Json) → List (Str × J.Json)
  responses_of [] out = out
  responses_of (r ∷ rs) out = responses_of rs (add_response r.status r.description r.schema_ref out)

  abbrev parameters_member : List J.Json → List (Str × J.Json)
  parameters_member [] = []
  parameters_member (p ∷ ps) = (str "parameters", J.array (p ∷ ps)) ∷ []

  abbrev request_body_member : Option OpenApiRequestBody → List (Str × J.Json)
  request_body_member none = []
  request_body_member (some rb) =
      (
        str "requestBody",
        J.object (
            (str "required", J.boolean rb.required)
            ∷ (str "content", content_of rb.content_type rb.schema_ref)
            ∷ []),
      )
      ∷ []

  abbrev security_member : Bool → List (Str × J.Json)
  security_member false = []
  security_member true =
      (str "security", J.array (J.object ((str "bearerAuth", J.array []) ∷ []) ∷ [])) ∷ []

  -- The operation object of a method.
  unfoldable pub operation_of : OpenApiMeta → J.Json
  unfolding responses_of
  operation_of meta = J.object (
      (str "summary", J.string meta.summary)
      ∷ (str "responses", J.object (responses_of meta.responses []))
      ∷ (parameters_member meta.parameters
          ++ (request_body_member meta.request_body ++ security_member meta.auth_required)))

-- withCommonErrors
abbrev pub error_meta : ℕ → Str → OpenApiResponseMeta
error_meta status desc = record {
  status = status;
  description = desc;
  schema_ref = some (str "ErrorResponse");
}

unfoldable pub with_common_errors : Items → Bool → Bool → Items
with_common_errors items auth_required has_body =
    (items ++ error_meta 500 (str "Internal server error") ∷ [])
    ++ ((if auth_required
          then error_meta 401 (str "Unauthorized") ∷ error_meta 403 (str "Forbidden") ∷ []
          else [])
        ++ (if has_body
            then error_meta 400 (str "Bad request / validation error")
              ∷ error_meta 413 (str "Payload too large")
              ∷ error_meta 415 (str "Unsupported media type")
              ∷ []
            else []))

module _ {V : Type 0} where
  -- operator[] on a member that is an object: absent is empty.
  abbrev pub members : Option (List (Str × V)) → List (Str × V)
  members none = []
  members (some m) = m

  -- paths[path][method] = v
  abbrev pub assign_at : Str → Str → V → List (Str × List (Str × V)) → List (Str × List (Str × V))
  assign_at path method v paths = assign path (assign method v (members (find path paths))) paths

  abbrev pub find_at : Str → Str → List (Str × List (Str × V)) → Option V
  find_at path method paths = find method (members (find path paths))

-- http::to_string(method), in lower case
abbrev pub method_name : (Verb → Str) → Verb → Str
method_name verb_string v = map to_lower (verb_string v)

module _ (J : JsonLib) where
  abbrev pub Paths : Type 0
  Paths = List (Str × List (Str × J.Json))

  abbrev objects : Paths → List (Str × J.Json)
  objects [] = []
  objects ((path, ops) ∷ paths) = (path, J.object ops) ∷ objects paths

  abbrev paths_member : Paths → List (Str × J.Json)
  paths_member [] = []
  paths_member (p ∷ ps) = (str "paths", J.object (objects (p ∷ ps))) ∷ []

module _ (J : JsonLib) (verb_string : Verb → Str) where
  -- The body of the loop over the methods of a route.
  abbrev pub add_operation : Str → Verb → Option (OpenApiMeta J) → Paths J → Paths J
  add_operation path method none paths = paths
  add_operation path method (some meta) paths =
      assign_at path (method_name verb_string method) (operation_of J meta) paths

  unfoldable pub methods_loop :
      {V : Type 0} → Str → List (Verb × V) → List (Verb × OpenApiMeta J) → Paths J → Paths J
  methods_loop path [] metas paths = paths
  methods_loop path ((method, fn) ∷ rest) metas paths =
      methods_loop path rest metas (add_operation path method (find_verb method metas) paths)

module _ (J : JsonLib) {H : HttpLib} {W : Type 0} (verb_string : Verb → Str) where
  unfoldable pub paths_of : List (RouteEntry J H W (OpenApiMeta J)) → Paths J → Paths J
  unfolding methods_loop
  paths_of [] paths = paths
  paths_of (route ∷ table) paths =
      paths_of table
        (methods_loop J verb_string route.original route.methods route.openapi_meta paths)

  -- OpenApiBuilder::build, with the schemas of the registry.
  unfoldable pub build_document :
      List (RouteEntry J H W (OpenApiMeta J)) → List (Str × J.Json) → (title version : Str) → J.Json
  unfolding paths_of
  build_document table schemas title version = J.object (
      (str "openapi", J.string (str "3.0.3"))
      ∷ (
        str "info",
        J.object ((str "title", J.string title) ∷ (str "version", J.string version) ∷ []),
      )
      ∷ (paths_member J (paths_of table [])
          ++ (
            str "components",
            J.object (
                (str "schemas", J.object schemas)
                ∷ (
                  str "securitySchemes",
                  J.object (
                      (
                        str "bearerAuth",
                        J.object (
                            (str "type", J.string (str "http"))
                            ∷ (str "scheme", J.string (str "bearer"))
                            ∷ (str "bearerFormat", J.string (str "JWT"))
                            ∷ []),
                      )
                      ∷ []),
                )
                ∷ []),
          )
            ∷ []))

-- OpenApiSchemaRegistry::registerSchema
unfoldable pub register_schema : {V : Type 0} → Str → V → List (Str × V) → List (Str × V)
unfolding assign
register_schema name schema schemas = assign name schema schemas
