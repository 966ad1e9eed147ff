-- ===== src/Auth/Tests.antt =====
-- Runs of the tokens and of the authentication middleware.
use adequate_api_cpp.Base.{
  ℕ, ◌+◌, ◌≡◌, refl, ◌⊎◌, Bool, true, some, Str, str, Result, ok, throw, Exception, M,
}
use adequate_api_cpp.Base.Decimal.{ℤ, pos}
use adequate_api_cpp.Http.Samples.{json_lib, http_lib, request_to}
use adequate_api_cpp.Http.Request.{Request, get}
use adequate_api_cpp.Http.Renderer.{Outcome}
use adequate_api_cpp.Router.{Handler}
use adequate_api_cpp.Auth.Jwt.{JwtLib, subject}
use adequate_api_cpp.Auth.Middleware.{handle, unauthorized_outcome, Authenticated}
use adequate_api_cpp.Auth.Gate.{handle_gates}

-- Tokens that are their subject.
abbrev pub jwt : JwtLib
jwt = record {
  create = λ issuer type sub issued expires secret. sub;
  read_subject = λ secret issuer token now. subject token;
  read_subject-create = λ issuer type sub secret issued expires now h. refl;
}

-- The token "t" is of the user 5; the world counts the calls.
abbrev decode_t : Str → M ℕ ℤ
decode_t token w = (ok (pos 5), w + 1)

abbrev exists_5 : ℤ → M ℕ Bool
exists_5 id w = (ok true, w + 1)

abbrev with_token : Request
with_token = record (request_to get (str "/users")) { authorization_header = some (str "Bearer t") }

handle_gates_example :
    ((id : ℤ) × (w' : ℕ) × Authenticated decode_t exists_5 with_token.authorization_header 3 id w'
      × ((next : Handler json_lib http_lib ℕ)
          → handle decode_t exists_5 next (with_token, 3)
            ≡ next (record with_token { user_id = some id }, w')))
    ⊎ ((r : Result (Outcome json_lib http_lib)) × (w' : ℕ) × (((message : Str) × (r
              ≡ ok (unauthorized_outcome json_lib http_lib message)))
          ⊎ ((e : Exception) × (r ≡ throw e)))
        × ((next : Handler json_lib http_lib ℕ)
            → handle decode_t exists_5 next (with_token, 3) ≡ (r, (with_token, w'))))
handle_gates_example = handle_gates decode_t exists_5 with_token 3
