-- ===== src/Auth/Refusal.antt =====
-- What a request whose credentials are refused can end with, and the parts of `dispatch` that leave its
-- header alone.
use adequate_api_cpp.Base.{
  ◌∙◌, some, starts_with, ◌++◌, jwt_exception, validation_error, JwtError, ℕ, ◌≡◌, refl, sym, ap,
  inl, inr, Bool, true, false, Option, none, Str, str, Result, ok, throw, Exception, M, Bool-cases,
  Result-cases, contains_str,
}
use adequate_api_cpp.Base.Decimal.{ℤ}
use adequate_api_cpp.Http.Libraries.{JsonLib, HttpLib}
use adequate_api_cpp.Http.Request.{
  Request, Verb, options, verb_eq, is_std, content_type, ensure_json_valid, parse_multipart, Parser,
  create_adapter,
}
use adequate_api_cpp.Router.{Env, RouteEntry}
use adequate_api_cpp.Router.Dispatch.{check_body, auto_options}
use adequate_api_cpp.Auth.Jwt.{map_jwt_error}
use adequate_api_cpp.Auth.Middleware.{unauthorized, check, of_decode}

abbrev header : Result Request → Option Str
header (ok r) = r.authorization_header
header (throw e) = none

parse_multipart-header :
    (poco : Parser) (adapter : Str) (q q' : Request)
    → parse_multipart poco adapter q ≡ ok q'
    → q'.authorization_header ≡ q.authorization_header
unfolding parse_multipart
parse_multipart-header poco adapter q q' h = elim (Result-cases (create_adapter poco adapter)) [
  | inr (e, t) ↦ cc (rw t at h)
  | inl (p, t) ↦ elim (Result-cases (p (content_type q) q.body)) [
    | inr (e, u) ↦ cc (rw (t, u) at h)
    | inl (parts, u) ↦ ap header (sym (rw (t, u) at h))
  ]
]

pub check_body-header :
    (J : JsonLib) (H : HttpLib) (env : Env) (q q' : Request)
    → check_body J H env q ≡ ok q'
    → q'.authorization_header ≡ q.authorization_header
unfolding check_body
check_body-header J H env q q' h =
    elim (Bool-cases (contains_str (str "application/json") (content_type q))) [
      | inl a ↦ elim (Result-cases (ensure_json_valid J q)) [
        | inl (_, t) ↦ ap header (sym (rw (a, t) at h))
        | inr (e, t) ↦ cc (rw (a, t) at h)
      ]
      | inr a ↦ elim (Bool-cases (contains_str (str "multipart/form-data") (content_type q))) [
        | inl b ↦ parse_multipart-header env.poco env.multipart_adapter q q' (rw (a, b) at h)
        | inr b ↦ ap header (sym (rw (a, b) at h))
      ]
    ]

pub auto_options-false :
    {J : JsonLib} {H : HttpLib} {W Meta : Type 0} (entry : RouteEntry J H W Meta) (method : Verb)
    → verb_eq method options ≡ false
    → auto_options entry method ≡ false
unfolding auto_options
auto_options-false entry method o = rw o refl

-- The statuses of requests that are answered before the middlewares' `handle`.
pub data Rejection : ℕ → Type 0 where
  bad_request : Rejection 400
  not_found : Rejection 404
  method_not_allowed : Rejection 405
  payload_too_large : Rejection 413
  unsupported_media_type : Rejection 415

module _ (H : HttpLib) {W : Type 0} where
  -- What becomes of a request with the method `method` in the world w, where its credentials are
  -- refused and leave the world w'.
  pub data TurnedAway (method : Verb) (w w' : W) : Result H.Response × (Request × W) → Type 0 where
    refused :
        (res : H.Response) (q : Request)
        → H.status res ≡ 401
        → TurnedAway method w w' (ok res, (q, w'))
    rejected :
        {st : ℕ} (res : H.Response) (q : Request)
        → Rejection st
        → H.status res ≡ st
        → TurnedAway method w w' (ok res, (q, w))
    listed :
        (res : H.Response) (q : Request)
        → verb_eq method options ≡ true
        → H.status res ≡ 200
        → TurnedAway method w w' (ok res, (q, w))
    failed :
        (e : Exception) (q : Request) → is_std e ≡ false → TurnedAway method w w' (throw e, (q, w))

module _ {W : Type 0} (decode : Str → M W ℤ) (exists : ℤ → M W Bool) where
  -- The middleware answers the request in the world w with a message, which leaves w'.
  abbrev pub IsUnauthorized : Str → W → W → Request → Type 0
  IsUnauthorized message w w' q =
      check decode exists q.authorization_header w ≡ (ok (unauthorized message), w')

  -- A header that admits nobody in the world w; finding out leaves the last world.
  pub data IsRefused (w : W) : Option Str → W → Type 0 where
    missing : IsRefused w none w
    wrong_scheme :
        (auth : Str) → starts_with (str "Bearer ") auth ≡ false → IsRefused w (some auth) w
    undecodable :
        (token : Str) (code : JwtError) (msg : Str) (w' : W)
        → decode token w ≡ (throw (jwt_exception code msg), w')
        → IsRefused w (some (str "Bearer " ++ token)) w'
    unknown_user :
        (token : Str) (id : ℤ) (w1 w' : W)
        → decode token w ≡ (ok id, w1)
        → exists id w1 ≡ (ok false, w')
        → IsRefused w (some (str "Bearer " ++ token)) w'
    invalid_user :
        (token : Str) (id : ℤ) (msg : Str) (w1 w' : W)
        → decode token w ≡ (ok id, w1)
        → exists id w1 ≡ (throw (validation_error msg), w')
        → IsRefused w (some (str "Bearer " ++ token)) w'

  check-bearer :
      (token : Str) (w : W)
      → check decode exists (some (str "Bearer " ++ token)) w ≡ of_decode exists (decode token w)
  unfolding check starts_with str
  check-bearer token w = refl

  pub IsRefused-IsUnauthorized :
      (w : W) (header : Option Str) (w' : W)
      → IsRefused w header w'
      → (message : Str) × (check decode exists header w ≡ (ok (unauthorized message), w'))
  unfolding check
  IsRefused-IsUnauthorized w _ _ missing = (_, refl)
  IsRefused-IsUnauthorized w _ _ (wrong_scheme auth s) =
      (str "Invalid Authorization format", rw s refl)
  IsRefused-IsUnauthorized w _ _ (undecodable token code msg w' d) =
      (map_jwt_error code, check-bearer token w ∙ rw d refl)
  IsRefused-IsUnauthorized w _ _ (unknown_user token id w1 w' d x) =
      (str "Your token is shit", check-bearer token w ∙ rw (d, x) refl)
  IsRefused-IsUnauthorized w _ _ (invalid_user token id msg w1 w' d x) =
      (msg, check-bearer token w ∙ rw (d, x) refl)
