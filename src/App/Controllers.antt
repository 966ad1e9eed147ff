-- ===== src/App/Controllers.antt =====
-- HealthController of controllers/HealthController.cpp, SwaggerController of
-- core/openapi/controllers/SwaggerController.cpp with SwaggerFilter of core/openapi/filters, and
-- bind_handler of routes/Routes.h.
use adequate_api_cpp.Base.{Bool, if◌then◌else◌, [], ◌∷◌, Option, Str, str, List, M, pure}
use adequate_api_cpp.Http.Libraries.{JsonLib, HttpLib}
use adequate_api_cpp.Http.Request.{Request, find, query}
use adequate_api_cpp.Http.Renderer.{Outcome, response, json, json_result}
use adequate_api_cpp.Http.Raw.{redirect}
use adequate_api_cpp.Router.{Handler, keep_request, is_some}

-- SwaggerFilter::parseRequestQuery: whether `json` is set.
unfoldable pub wants_json : List (Str × Str) → Bool
wants_json params = is_some (find (str "json") params)

module _ (J : JsonLib) (H : HttpLib) {W : Type 0} where
  -- A handler of a controller, as the router calls it.
  abbrev pub bind_handler : (Request → M W (Outcome J H)) → Handler J H W
  bind_handler f (q, w) = keep_request q (f q w)

  -- HealthController::index
  unfoldable pub health_index : Request → M W (Outcome J H)
  health_index q = pure (
      json
        (json_result J (J.object ((str "status", J.string (str "alive")) ∷ [])) 200 q.keep_alive))

  -- SwaggerController::index
  unfoldable pub swagger_index : (Str → Option (List (Str × Str))) → Request → M W (Outcome J H)
  unfolding query wants_json
  swagger_index parse_origin_form q = pure (
      response (
        redirect H q.version q.keep_alive
          (if wants_json (query parse_origin_form q)
            then str "/openapi/swagger.json"
            else str "/openapi/")
          302))
