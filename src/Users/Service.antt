-- ===== src/Users/Service.antt =====
-- UsersService of services/users/UsersService.cpp and AuthenticationService of
-- services/auth/AuthenticationService.cpp, over the repository, the files, the password hasher on
-- the blocking pool, and the tokens.
pub mod Passwords
pub mod Login
use adequate_api_cpp.Base.{
  ℕ, ◌+◌, Bool, true, false, not, ◌&&◌, if◌then◌else◌, List, [], ◌∷◌, ◌++◌, Option, none, some, Str,
  str, is_empty, Result, ok, throw, Exception, db_error, multipart_error, validation_error,
  file_validation_error, file_security_error, file_io_error, jwt_exception, std_error, foreign,
  DbErrorCode, unique_violation, foreign_key_violation, not_null_violation, unknown, bind_result, M,
  ◌>>=◌, ◌>>◌, pure, raise, lift, try_catch, continue, handled,
}
use adequate_api_cpp.Base.Decimal.{ℤ, to_string_ℤ}
use adequate_api_cpp.Users.Filters.{UserFilter, UserListFilter, clamp_limit, no_filter}
use adequate_api_cpp.Users.Serializers.{
  UserEntity, UserCreateSerializer, UserUpdateSerializer, LoginSerializer, RegisterSerializer,
  UserCreateResponseSerializer, create_to_entity, update_to_entity, register_to_entity,
  create_response_of, value,
}
use adequate_api_cpp.Users.Repository
use adequate_api_cpp.Users.Repository.{Query, PgRow}
use adequate_api_cpp.Files.Names.{IncomingFile, StoredFileInfo, build_relative_dir}

-- The part of FileSystemService that the users' service calls.
pub record FileStore (W : Type 0) : Type 0 where
  pub exists : Str → M W Bool
  pub remove : Str → M W (Unit {0})
  pub store : Str → Str → IncomingFile → M W StoredFileInfo
  pub absolute_path : (host entity id file : Str) → Str

-- serializers/users/UserSerializer.h
pub record UserSerializer : Type 0 where
  pub id : ℤ
  pub username : Str
  pub email : Str
  pub picture : Option Str
  pub created_at : Str
  pub updated_at : Str

abbrev text_or_empty : Option Str → Str
text_or_empty none = []
text_or_empty (some s) = s

unfoldable pub serializer_of : {Time : Type 0} → (Time → Str) → UserEntity Time → UserSerializer
serializer_of to_iso e = record {
  id = e.id;
  username = text_or_empty e.username;
  email = text_or_empty e.email;
  picture = e.picture;
  created_at = to_iso e.created_at;
  updated_at = to_iso e.updated_at;
}

-- entities/TokenPairEntity.h
pub record TokenPair : Type 0 where
  pub refresh_token : Str
  pub access_token : Str

-- The handlers of create, update and registerUser: what they turn into a ValidationError, with the
-- message for a unique violation if there is one.
abbrev pub translated_code : Option Str → DbErrorCode → Option Str
translated_code unique unique_violation = unique
translated_code unique not_null_violation = some (str "Missing required fields")
translated_code unique foreign_key_violation = none
translated_code unique unknown = none

abbrev or_same : Exception → Option Str → Exception
or_same e none = e
or_same e (some message) = validation_error message

unfoldable pub translate : Option Str → Exception → Exception
translate unique (db_error code msg) = or_same (db_error code msg) (translated_code unique code)
translate unique e = e

-- try { m } catch (const DbError& e) { switch … }
abbrev translating : {W A : Type 0} → Option Str → M W A → M W A
translating unique m = try_catch m (λ e. raise (translate unique e))

module _ {W Time : Type 0} (query : Query W) (hash : Str → M W Str) (fresh : UserEntity Time) where
  abbrev hashed : UserEntity Time → Option Str → M W (UserEntity Time)
  hashed user none = pure user
  hashed user (some password) = hash password >>= λ h. pure (record user { password = some h })

  -- UsersService::create
  unfoldable pub create : UserCreateSerializer → M W UserCreateResponseSerializer
  create data_ =
      let user = create_to_entity fresh data_ in
      hashed user user.password >>= λ user.
      translating (some (str "User already exists"))
        (Repository.create query user >>= λ user. lift (create_response_of user))

  -- AuthenticationService::registerUser
  unfoldable pub register_user : RegisterSerializer → M W (Unit {0})
  register_user data_ =
      let user = register_to_entity fresh data_ in
      lift (value user.password) >>= λ password. hash password >>= λ h.
      translating none
        (Repository.create query (record user { password = some h }) >>= λ _. pure tt)

module _ {W : Type 0} (files : FileStore W) where
  -- if (fs_.exists(path)) fs_.remove(path), for the directory of a user
  abbrev remove_files : Str → M W (Unit {0})
  remove_files id =
      let path = build_relative_dir (str "users") id in
      files.exists path >>= λ there. if there then files.remove path else pure tt

module _ {W Time : Type 0} (query : Query W) (files : FileStore W) (hash : Str → M W Str)
    (fresh : UserEntity Time) where
  -- The picture is stored if the entity names one and there are bytes; its new name goes to the entity.
  abbrev with_picture : UserEntity Time → IncomingFile → Option Str → M W (UserEntity Time)
  with_picture user picture none = pure user
  with_picture user picture (some name) =
      if is_empty picture.bytes
      then pure user
      else remove_files files (to_string_ℤ user.id)
        >> (files.store (str "users") (to_string_ℤ user.id) picture >>= λ info.
            pure (record user { picture = some info.stored_file_name }))

  -- UsersService::update
  unfoldable pub update : UserUpdateSerializer → IncomingFile → M W (Unit {0})
  update data_ picture =
      let user = update_to_entity fresh data_ in
      hashed query hash fresh user user.password >>= λ user.
      translating (some (str "Email already exists"))
        (with_picture user picture user.picture >>= λ user. Repository.update query user)

module _ {W : Type 0} (query : Query W) (unspecified : PgRow) where
  -- UsersService::exists
  unfoldable pub exists : UserFilter → M W Bool
  exists filters = Repository.exists query unspecified filters

module _ {W : Type 0} (query : Query W) (files : FileStore W) where
  -- UsersService::remove. The id comes as an unsigned 64-bit number.
  unfoldable pub remove : (printed : Str) (id : ℤ) → M W (Unit {0})
  remove printed id = remove_files files printed >> Repository.remove query id

module _ {W Time : Type 0} (query : Query W) (parse_time : Str → Result Time) (to_iso : Time → Str)
    (files : FileStore W) where
  abbrev with_host : Str → UserEntity Time → Option Str → UserEntity Time
  with_host host user none = user
  with_host host user (some file) = record user {
    picture = some (files.absolute_path host (str "users") (to_string_ℤ user.id) file);
  }

  unfoldable pub serialize_all : Str → List (UserEntity Time) → List UserSerializer
  serialize_all host [] = []
  serialize_all host (u ∷ us) =
      serializer_of to_iso (with_host host u u.picture) ∷ serialize_all host us

  -- UsersService::list
  unfoldable pub list : UserListFilter → (host : Str) → M W (List UserSerializer)
  list filters host = Repository.get_list query parse_time (clamp_limit filters) >>= λ users.
      pure (serialize_all host users)

module _ {W Time : Type 0} (query : Query W) (parse_time : Str → Result Time)
    (verify : Str → Str → M W Bool) (encode : ℤ → M W Str) where
  -- AuthenticationService::obtainTokens. Whether the hash needs a new one is not used.
  unfoldable pub obtain_tokens : LoginSerializer → M W TokenPair
  obtain_tokens data_ =
      Repository.get_one query parse_time (record no_filter { email = some data_.email })
      >>= λ user. lift (value user.password) >>= λ stored. verify data_.password stored >>= λ good.
          if good
          then (encode user.id >>= λ token.
              pure (record { refresh_token = str "None"; access_token = token }))
          else raise (validation_error (str "Incorrect credentials"))
