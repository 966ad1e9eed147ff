-- ===== src/Auth/Middleware.antt =====
-- AuthenticationMiddleware of middlewares/AuthenticationMiddleware.cpp over JwtService::decode and
-- UsersService::exists. The header lookups `find` and `at` agree, so the model reads the header once.
use adequate_api_cpp.Base.{
  ◌≡◌, Bool, true, false, if◌then◌else◌, [], ◌∷◌, Option, none, some, Str, str, starts_with, Result,
  ok, throw, Exception, validation_error, jwt_exception, M,
}
use adequate_api_cpp.Base.Decimal.{ℤ}
use adequate_api_cpp.Http.Libraries.{JsonLib, HttpLib}
use adequate_api_cpp.Http.Request.{Request}
use adequate_api_cpp.Http.Renderer.{Outcome, json, json_result, error_body}
use adequate_api_cpp.Router.{Handler, Middleware}
use adequate_api_cpp.Auth.Jwt.{map_jwt_error}

-- auth.substr(7)
abbrev pub drop7 : Str → Str
drop7 (a ∷ b ∷ c ∷ d ∷ e ∷ f ∷ g ∷ s) = s
drop7 _ = []

abbrev pub bearer : Str
bearer = str "Bearer "

-- What the two calls of the middleware end with, as far as it goes on with it.
pub data Checked : Type 0 where
  admitted : ℤ → Checked
  unauthorized : Str → Checked

-- catch (const JwtException&) and catch (const ValidationError&), with the message they make.
abbrev pub jwt_message : Exception → Option Str
jwt_message (jwt_exception code msg) = some (map_jwt_error code)
jwt_message _ = none

abbrev pub validation_message : Exception → Option Str
validation_message (validation_error msg) = some msg
validation_message _ = none

abbrev recover : {W : Type 0} → Option Str → Exception → W → Result Checked × W
recover none e w = (throw e, w)
recover (some message) e w = (ok (unauthorized message), w)

module _ {W : Type 0} where
  abbrev pub of_exists : ℤ → Result Bool × W → Result Checked × W
  of_exists id (ok true, w) = (ok (admitted id), w)
  of_exists id (ok false, w) = (ok (unauthorized (str "Your token is shit")), w)
  of_exists id (throw e, w) = recover (validation_message e) e w

  abbrev pub of_decode : (ℤ → M W Bool) → Result ℤ × W → Result Checked × W
  of_decode exists (ok id, w) = of_exists id (exists id w)
  of_decode exists (throw e, w) = recover (jwt_message e) e w

module _ {W : Type 0} (decode : Str → M W ℤ) (exists : ℤ → M W Bool) where
  -- The checks of `handle` on the value of the header "Authorization".
  unfoldable pub check : Option Str → M W Checked
  check none w = (ok (unauthorized (str "Missing Authorization header")), w)
  check (some auth) w =
      if starts_with bearer auth
      then of_decode exists (decode (drop7 auth) w)
      else (ok (unauthorized (str "Invalid Authorization format")), w)

  -- A header of the form "Bearer <token>" whose token decodes to the id of a user that exists.
  pub record Authenticated (header : Option Str) (w : W) (id : ℤ) (w' : W) : Type 0 where
    pub auth : Str
    pub decoded : W
    pub has_header : header ≡ some auth
    pub is_bearer : starts_with bearer auth ≡ true
    pub decodes : decode (drop7 auth) w ≡ (ok id, decoded)
    pub user_exists : exists id decoded ≡ (ok true, w')

module _ (J : JsonLib) (H : HttpLib) where
  abbrev pub unauthorized_outcome : Str → Outcome J H
  unauthorized_outcome message = json (json_result J (error_body J message) 401 true)

module _ {J : JsonLib} {H : HttpLib} {W : Type 0} (decode : Str → M W ℤ)
    (exists : ℤ → M W Bool) where
  abbrev pub finish :
      Request → Handler J H W → Result Checked × W → Result (Outcome J H) × (Request × W)
  finish q next (ok (admitted id), w) = next (record q { user_id = some id }, w)
  finish q next (ok (unauthorized message), w) = (ok (unauthorized_outcome J H message), (q, w))
  finish q next (throw e, w) = (throw e, (q, w))

  unfoldable pub handle : Handler J H W → Handler J H W
  handle next (q, w) = finish q next (check decode exists q.authorization_header w)

  -- The `after` of MiddlewareInterface.
  unfoldable pub authentication : Middleware J H W
  unfolding handle
  authentication = record { handle = handle; after = λ q res w. (ok res, w) }
