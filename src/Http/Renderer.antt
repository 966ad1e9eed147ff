-- ===== src/Http/Renderer.antt =====
-- core/renderers/json/JsonRenderer.cpp and the result types of core/http/ResponseTypes.h.
use adequate_api_cpp.Base.{ℕ, Bool, if◌then◌else◌, ◌==◌, List, [], ◌∷◌, Str, str}
use adequate_api_cpp.Base.Decimal.{ℤ, pos, negsuc}
use adequate_api_cpp.Http.Libraries.{JsonLib, HttpLib}
use adequate_api_cpp.Http.Request.{Request}

module _ (J : JsonLib) where
  pub record JsonResult : Type 0 where
    pub body : J.Json
    pub status : ℕ
    pub keep_alive : Bool
    pub dump_indent : ℤ

  abbrev pub json_result : J.Json → ℕ → Bool → JsonResult
  json_result body status keep_alive = record {
    body = body;
    status = status;
    keep_alive = keep_alive;
    dump_indent = negsuc 0;
  }

  -- json{{"error", message}}
  abbrev pub error_body : Str → J.Json
  error_body message = J.object ((str "error", J.string message) ∷ [])

module _ (J : JsonLib) (H : HttpLib) where
  pub data Outcome : Type 0 where
    response : H.Response → Outcome
    json : JsonResult J → Outcome

  unfoldable pub set_all : List (Str × Str) → H.Response → H.Response
  set_all [] r = r
  set_all ((f, v) ∷ hs) r = set_all hs (H.set f v r)

  unfoldable pub render : Request → ℕ → J.Json → Bool → List (Str × Str) → ℤ → H.Response
  render request status body keep_alive additional_headers dump_indent =
      let r = H.set_keep_alive keep_alive (
        H.set (str "Content-Type") (str "application/json") (
          H.set (str "Server") (str "beast-coawait")
            (set_all additional_headers (H.make status request.version)))) in
      let r' = H.set_body (J.dump body dump_indent) r in
      if status == 204
      then H.erase (str "Content-Type") (H.content_length 0 (H.set_body [] r'))
      else H.prepare_payload r'

  unfoldable pub error : Request → ℕ → Str → Bool → List (Str × Str) → ℤ → H.Response
  unfolding render
  error request status message keep_alive additional_headers dump_indent =
      render request status
        (J.object ((str "error", J.string message) ∷ (str "status", J.number (pos status)) ∷ []))
        keep_alive additional_headers dump_indent
