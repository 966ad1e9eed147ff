-- ===== src/Users/Controller.antt =====
-- UsersController of controllers/UsersController.cpp and AuthenticationController of
-- controllers/auth/AuthenticationController.cpp: handlers over the services. A handler takes the
-- request that the router hands it.
pub mod Statuses
use adequate_api_cpp.Base.{
  ℕ, zero, suc, ◌-◌, ◌^◌, Bool, true, false, not, ◌&&◌, if◌then◌else◌, List, [], ◌∷◌, ◌++◌, Option,
  none, some, Str, str, str_eq, is_empty, contains_str, Result, ok, throw, Exception, db_error,
  multipart_error, validation_error, file_validation_error, file_security_error, file_io_error,
  jwt_exception, std_error, foreign, bind_result, M, ◌>>=◌, ◌>>◌, pure, raise, lift,
}
use adequate_api_cpp.Base.Decimal.{ℤ, pos, negsuc, stoi, to_string}
use adequate_api_cpp.Http.Libraries.{JsonLib, HttpLib}
use adequate_api_cpp.Http.Request.{
  Request, MultipartForm, Part, find, content_type, query, json as parse_json,
}
use adequate_api_cpp.Http.Renderer.{Outcome, json, json_result, error_body}
use adequate_api_cpp.Users.Filters.{
  UserFilter, UserListFilter, parse_user_list_filter, clamp_limit, no_filter,
}
use adequate_api_cpp.Users.Serializers.{
  UserCreateSerializer, UserUpdateSerializer, LoginSerializer, RegisterSerializer,
  UserCreateResponseSerializer, from_json_create, from_json_update, from_json_login,
  from_json_register,
}
use adequate_api_cpp.Users.Service.{UserSerializer, TokenPair}
use adequate_api_cpp.Files.Names.{IncomingFile}

-- What catch (const ValidationError& e) keeps of a call: its result or the message.
pub data Validated (A : Type 0) : Type 0 where
  valid : A → Validated A
  invalid : Str → Validated A

abbrev pub caught : {A : Type 0} → Exception → Result (Validated A)
caught (validation_error message) = ok (invalid message)
caught e = throw e

abbrev pub caught_result : {A : Type 0} → Result A → Result (Validated A)
caught_result (ok a) = ok (valid a)
caught_result (throw e) = caught e

abbrev pub validating : {W A : Type 0} → M W A → M W (Validated A)
validating m w = (caught_result (m w).0, (m w).1)

-- if (error_msg == "user_not_found") error_msg = "Incorrect credentials"
abbrev reworded : {A : Type 0} → Validated A → Validated A
reworded (valid a) = valid a
reworded (invalid message) =
    invalid (if str_eq message (str "user_not_found") then str "Incorrect credentials" else message)

-- std::stoi where its exceptions leave the handler
abbrev pub stoi_or_throw : Str → Result ℤ
stoi_or_throw s = elim (stoi s) [ none ↦ throw (std_error (str "stoi")) | some n ↦ ok n ]

-- path_params.at(name)
abbrev pub at : Str → List (Str × Str) → Result Str
at name m = elim (find name m) [
  | none ↦ throw (std_error (str "unordered_map::at"))
  | some s ↦ ok s
]

-- An int that becomes a std::uint64_t, printed.
unfoldable pub print_unsigned : ℤ → Str
print_unsigned (pos n) = to_string n
print_unsigned (negsuc n) = to_string (2 ^ 64 - suc n)

module _ (J : JsonLib) (H : HttpLib) where
  abbrev pub error_result : Request → Str → ℕ → Outcome J H
  error_result q message status = json (json_result J (error_body J message) status q.keep_alive)

  abbrev pub result : Request → J.Json → ℕ → Outcome J H
  result q body status = json (json_result J body status q.keep_alive)

  -- Goes on with a validated value, or answers with the message and the status.
  abbrev pub or_answer :
      {W A : Type 0} → Request → ℕ → (A → M W (Outcome J H)) → Validated A → M W (Outcome J H)
  or_answer q status f (valid a) = f a
  or_answer q status f (invalid message) = pure (error_result q message status)

  -- UserSerializer::to_json and UserCreateResponseSerializer::to_json
  abbrev or_null : Option Str → J.Json
  or_null none = J.null
  or_null (some s) = J.string s

  unfoldable pub user_json : UserSerializer → J.Json
  user_json u = J.object (
      (str "id", J.number u.id)
      ∷ (str "username", J.string u.username)
      ∷ (str "email", J.string u.email)
      ∷ (str "created_at", J.string u.created_at)
      ∷ (str "updated_at", J.string u.updated_at)
      ∷ (str "picture", or_null u.picture)
      ∷ [])

  unfoldable pub users_json : List UserSerializer → List J.Json
  users_json [] = []
  users_json (u ∷ us) = user_json u ∷ users_json us

  unfoldable pub created_json : UserCreateResponseSerializer → J.Json
  created_json u = J.object (
      (str "id", J.number u.id)
      ∷ (str "username", J.string u.username)
      ∷ (str "email", J.string u.email)
      ∷ [])

  unfoldable pub tokens_json : TokenPair → J.Json
  tokens_json t = J.object (
      (str "refreshToken", J.string t.refresh_token)
      ∷ (str "accessToken", J.string t.access_token)
      ∷ [])

  -- Request::multipart
  abbrev multipart : Request → Result MultipartForm
  multipart q = elim q.multipart [
    | none ↦ throw (std_error (str "multipart was not parsed"))
    | some form ↦ ok form
  ]

  -- if (auto it = fields.find(name); it != fields.end()) body[name] = it->second
  abbrev pick : Str → List (Str × Str) → List (Str × J.Json) → List (Str × J.Json)
  pick name fields rest = elim (find name fields) [
    | none ↦ rest
    | some v ↦ (name, J.string v) ∷ rest
  ]

  abbrev no_file : IncomingFile
  no_file = record { bytes = []; original_file_name = []; content_type = [] }

  abbrev picture_of : MultipartForm → Option Part
  picture_of form = find (str "picture") form.files

  abbrev file_of : Option Part → IncomingFile
  file_of none = no_file
  file_of (some part) = record {
    bytes = part.bytes;
    original_file_name = part.filename;
    content_type = part.content_type;
  }

  abbrev picture_field : Option Part → List (Str × J.Json)
  picture_field none = []
  picture_field (some part) = (str "picture", J.string part.filename) ∷ []

  -- An object once a field is set, and null before.
  abbrev object_or_null : List (Str × J.Json) → J.Json
  object_or_null [] = J.null
  object_or_null (f ∷ fs) = J.object (f ∷ fs)

  -- The body and the picture of an update, from the multipart form or from the JSON.
  abbrev form_body : MultipartForm → J.Json × IncomingFile
  form_body form = (
    object_or_null (
        pick (str "username") form.fields (
          pick (str "password") form.fields
            (pick (str "email") form.fields (picture_field (picture_of form))))),
    file_of (picture_of form),
  )

  unfoldable pub update_body : Request → Result (J.Json × IncomingFile)
  update_body q =
      if contains_str (str "multipart/form-data") (content_type q)
      then bind_result (multipart q) (λ form. ok (form_body form))
      else bind_result (parse_json J q) (λ body. ok (body, no_file))

module _ (J : JsonLib) (H : HttpLib) {W : Type 0}
    (parse_origin_form : Str → Option (List (Str × Str)))
    (list : UserListFilter → Str → M W (List UserSerializer)) where
  -- UsersController::index
  unfoldable pub index : Request → M W (Outcome J H)
  index q = lift (parse_user_list_filter (query parse_origin_form q)) >>= λ filters.
      list (clamp_limit filters) q.absolute_host >>= λ users.
      pure (result J H q (J.array (users_json J H users)) 200)

module _ (J : JsonLib) (H : HttpLib) {W : Type 0} where
  -- UsersController::store
  unfoldable pub store :
      (UserCreateSerializer → M W UserCreateResponseSerializer) → Request → M W (Outcome J H)
  store create q = lift (parse_json J q) >>= λ body.
      validating (lift (from_json_create J body))
      >>= or_answer J H q 422 λ data_.
        validating (create data_)
        >>= or_answer J H q 409 λ user. pure (result J H q (created_json J H user) 201)

  -- UsersController::update
  unfoldable pub update :
      (UserUpdateSerializer → IncomingFile → M W (Unit {0})) → Request → M W (Outcome J H)
  update change q = lift (at (str "id") q.path_params) >>= λ id_str.
      lift (stoi_or_throw id_str) >>= λ id. lift (update_body J H q) >>= λ input.
      validating (lift (from_json_update J input.0 id))
      >>= or_answer J H q 422 λ data_.
        validating (change data_ input.1)
        >>= or_answer J H q 409 λ _. pure (result J H q J.null 204)

  -- UsersController::remove
  unfoldable pub remove : (Str → ℤ → M W (Unit {0})) → Request → M W (Outcome J H)
  remove delete_user q = lift (at (str "id") q.path_params) >>= λ id_str.
      lift (stoi_or_throw id_str) >>= λ id.
      validating (delete_user (print_unsigned id) id)
      >>= or_answer J H q 409 λ _. pure (result J H q J.null 204)

  -- AuthenticationController::registration
  unfoldable pub registration : (RegisterSerializer → M W (Unit {0})) → Request → M W (Outcome J H)
  registration register_user q = lift (parse_json J q) >>= λ body.
      validating (lift (from_json_register J body))
      >>= or_answer J H q 422 λ data_.
        validating (register_user data_) >>= or_answer J H q 422 λ _. pure (result J H q J.null 201)

  -- AuthenticationController::login
  unfoldable pub login :
      (UserFilter → M W Bool) → (LoginSerializer → M W TokenPair) → Request → M W (Outcome J H)
  login exists obtain_tokens q = lift (parse_json J q) >>= λ body.
      validating (lift (from_json_login J body))
      >>= or_answer J H q 422 λ data_.
        validating (exists (record no_filter { email = some data_.email }))
        >>= or_answer J H q 502 λ there.
          if there
          then (validating (obtain_tokens data_) >>= λ tokens.
              or_answer J H q 422 (λ pair. pure (result J H q (tokens_json J H pair) 201))
                (reworded tokens))
          else pure (error_result J H q (str "Incorrect login or password") 422)
