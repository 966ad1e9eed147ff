-- ===== src/Users/Controller/Statuses.antt =====
-- Requests that the controllers answer with an exception rather than a status of their own.
use adequate_api_cpp.Base.{◌≡◌, refl, Bool, true, false, Str, str, ok, throw, std_error, M}
use adequate_api_cpp.Http.Libraries.{JsonLib, HttpLib}
use adequate_api_cpp.Http.Request.{Request, json as parse_json}
use adequate_api_cpp.Users.Serializers.{
  from_json_login, from_json_register, from_json_create, LoginSerializer, UserCreateSerializer,
  RegisterSerializer, UserCreateResponseSerializer,
}
use adequate_api_cpp.Users.Filters.{UserFilter}
use adequate_api_cpp.Users.Service.{TokenPair}
use adequate_api_cpp.Users.Controller.{login, store, registration}

module _ (J : JsonLib) (H : HttpLib) {W : Type 0} where
  -- If the document holds something else than a text under "email" and under "username", a login, a
  -- registration and a creation of a user end with the exception of the JSON library, not with a 422
  -- response, and in the world that they began in: no service is called.
  not_text_throws :
      (exists : UserFilter → M W Bool) (obtain_tokens : LoginSerializer → M W TokenPair)
      (register_user : RegisterSerializer → M W (Unit {0}))
      (create : UserCreateSerializer → M W UserCreateResponseSerializer) (q : Request) (j : J.Json)
      (w : W)
      → parse_json J q ≡ ok j
      → J.contains j (str "email") ≡ true
      → J.is_string (J.at j (str "email")) ≡ false
      → J.contains j (str "username") ≡ true
      → J.is_string (J.at j (str "username")) ≡ false
      → ((msg : Str) × (login J H exists obtain_tokens q w ≡ (throw (std_error msg), w)))
        × ((msg : Str) × (registration J H register_user q w ≡ (throw (std_error msg), w)))
        × ((msg : Str) × (store J H create q w ≡ (throw (std_error msg), w)))
  unfolding login registration store from_json_login from_json_register from_json_create
  not_text_throws exists obtain_tokens register_user create q j w p ce te cu tu =
      let (email, ge) = J.get_string_throws (J.at j (str "email")) te in
      let (username, gu) = J.get_string_throws (J.at j (str "username")) tu in
      (
        (email, rw (p, ce, ge) refl),
        (username, rw (p, cu, gu) refl),
        (username, rw (p, cu, gu) refl),
      )
