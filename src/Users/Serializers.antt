-- ===== src/Users/Serializers.antt =====
-- The serializers under serializers/auth and serializers/users, with UserEntity of
-- entities/UserEntity.h: reading JSON, and the way to and from the entity. The calls that the debug
-- lines make are kept, since get<std::string>() throws on a value that is no text.
pub mod Email
pub mod Accepts
use adequate_api_cpp.Base.{
  ℕ, Bool, true, false, not, ◌&&◌, ◌||◌, if◌then◌else◌, ltb, length, List, [], ◌∷◌, ◌++◌, Option,
  none, some, Str, str, is_empty, Result, ok, throw, validation_error, std_error, bind_result, ◌==◌,
  all,
}
use adequate_api_cpp.Base.Decimal.{ℤ, is_space}
use adequate_api_cpp.Http.Libraries.{JsonLib}

-- The times are of a type that the repository's `parse_time` gives.
pub record UserEntity (Time : Type 0) : Type 0 where
  pub id : ℤ
  pub username : Option Str
  pub email : Option Str
  pub picture : Option Str
  pub password : Option Str
  pub created_at : Time
  pub updated_at : Time

-- [^@\s]
unfoldable pub is_plain : ℕ → Bool
is_plain c = not (c == b'@') && not (is_space c)

-- \.[^@\s]+$ behind one character at least of [^@\s]+
unfoldable pub dotted_rest : Str → Bool
dotted_rest [] = false
dotted_rest (c ∷ s) = let rest = dotted_rest s in c == b'.' && not (is_empty s) || rest

abbrev pub dotted : Str → Bool
dotted [] = false
dotted (c ∷ s) = dotted_rest s

-- The domain behind the first @, if the characters before it are plain; `some` of it only if there is
-- one such character.
unfoldable pub domain_of : Bool → Str → Option Str
domain_of seen [] = none
domain_of seen (c ∷ s) =
    let rest = domain_of true s in
    if c == b'@' then if seen then some s else none else if is_plain c then rest else none

abbrev pub is_domain : Option Str → Bool
is_domain none = false
is_domain (some d) = all is_plain d && dotted d

-- std::regex_match with ^[^@\s]+@[^@\s]+\.[^@\s]+$
unfoldable pub is_email : Str → Bool
is_email s = is_domain (domain_of false s)

pub record LoginSerializer : Type 0 where
  pub email : Str
  pub password : Str

pub record RegisterSerializer : Type 0 where
  pub username : Str
  pub email : Str
  pub password : Str

pub record UserCreateSerializer : Type 0 where
  pub username : Str
  pub email : Str
  pub password : Str

pub record UserUpdateSerializer : Type 0 where
  pub id : ℤ
  pub username : Option Str
  pub picture : Option Str
  pub email : Option Str
  pub password : Option Str

abbrev pub guard : Result Bool → Str → Result (Unit {0})
guard r message = bind_result r (λ bad. if bad then throw (validation_error message) else ok tt)

module _ (J : JsonLib) (j : J.Json) where
  -- j[name].get<std::string>()
  abbrev pub text : Str → Result Str
  text name = J.get_string (J.at j name)

  -- j.contains(name) ? j[name].get<std::string>() : "null"
  abbrev pub logged : Str → Result Str
  logged name = if J.contains j name then text name else ok (str "null")

  -- !j[name].is_string() || test(j[name].get<std::string>())
  abbrev pub wrong : Str → (Str → Bool) → Result Bool
  wrong name test =
      if J.is_string (J.at j name) then bind_result (text name) (λ s. ok (test s)) else ok true

  -- !j.contains(name) || …
  abbrev pub missing : Str → (Str → Bool) → Result Bool
  missing name test = if J.contains j name then wrong name test else ok true

  -- j.contains(name) && …
  abbrev pub present : Str → Result Bool → Result Bool
  present name r = if J.contains j name then r else ok false

  abbrev pub short : Str → Bool
  short s = ltb (length s) 6

  abbrev pub not_email : Str → Result Bool
  not_email name = bind_result (text name) (λ s. ok (not (is_email s)))

  -- The checks of a required username and a required email, with the debug lines before them.
  abbrev pub required : Str → Str → Result (Unit {0})
  required name message = bind_result (logged name) (λ _. guard (missing name is_empty) message)

  abbrev pub required_password : Result (Unit {0})
  required_password =
      guard (missing (str "password") short) (str "Password must be at least 6 characters")

  unfoldable pub from_json_login : Result LoginSerializer
  from_json_login = bind_result (required (str "email") (str "Email is required")) λ _.
      bind_result (guard (not_email (str "email")) (str "Email is invalid")) λ _.
        bind_result required_password λ _. bind_result (text (str "email")) λ email.
          bind_result (text (str "password"))
            λ password. ok (record { email = email; password = password })

  unfoldable pub from_json_register : Result RegisterSerializer
  from_json_register = bind_result (required (str "username") (str "Username is required")) λ _.
      bind_result (required (str "email") (str "Email is required")) λ _.
        bind_result required_password λ _. bind_result (text (str "username")) λ username.
          bind_result (text (str "email")) λ email.
            bind_result (text (str "password"))
              λ password. ok (record { username = username; email = email; password = password })

  unfoldable pub from_json_create : Result UserCreateSerializer
  from_json_create = bind_result (required (str "username") (str "Username is required")) λ _.
      bind_result (required (str "email") (str "Email is required")) λ _.
        bind_result (guard (not_email (str "email")) (str "Email is invalid")) λ _.
          bind_result required_password λ _. bind_result (text (str "username")) λ username.
            bind_result (text (str "email")) λ email.
              bind_result (text (str "password"))
                λ password. ok (record { username = username; email = email; password = password })

  -- if (j.contains(name)) field = j[name].get<std::string>()
  abbrev pub optional : Str → Result (Option Str)
  optional name = if J.contains j name then bind_result (text name) (λ s. ok (some s)) else ok none

  -- A picture that is no text, or empty, is left out.
  abbrev pub optional_picture : Result (Option Str)
  optional_picture =
      if J.contains j (str "picture") && J.is_string (J.at j (str "picture"))
      then bind_result (text (str "picture")) (λ s. ok (if is_empty s then none else some s))
      else ok none

  -- The checks of an optional field.
  abbrev pub checked : Str → Result Bool → Str → Result (Unit {0})
  checked name bad message = guard (present name bad) message

  -- The id is the one that the caller sets.
  unfoldable pub from_json_update : ℤ → Result UserUpdateSerializer
  from_json_update id = bind_result (logged (str "username")) λ _.
      bind_result
        (checked (str "username") (wrong (str "username") is_empty)
          (str "Username cannot be empty"))
        λ _. bind_result (logged (str "email")) λ _.
          bind_result
            (checked (str "email") (wrong (str "email") is_empty) (str "Email cannot be empty"))
            λ _.
              bind_result (checked (str "email") (not_email (str "email")) (str "Email is invalid"))
                λ _.
                  bind_result
                    (checked (str "password") (wrong (str "password") short)
                      (str "Password must be at least 6 characters"))
                    λ _. bind_result (optional (str "username")) λ username.
                      bind_result (optional (str "email")) λ email.
                        bind_result (optional (str "password")) λ password.
                          bind_result optional_picture λ picture. ok (record {
                            id = id;
                            username = username;
                            picture = picture;
                            email = email;
                            password = password;
                          })

-- toEntity. The fields that it leaves alone keep their values: `fresh` is a default-initialized
-- entity, whose id is indeterminate and whose texts are absent.
module _ {Time : Type 0} (fresh : UserEntity Time) where
  unfoldable pub login_to_entity : LoginSerializer → UserEntity Time
  login_to_entity s = record fresh { email = some s.email; password = some s.password }

  unfoldable pub register_to_entity : RegisterSerializer → UserEntity Time
  register_to_entity s = record fresh {
    username = some s.username;
    email = some s.email;
    password = some s.password;
  }

  unfoldable pub create_to_entity : UserCreateSerializer → UserEntity Time
  create_to_entity s = record fresh {
    username = some s.username;
    email = some s.email;
    password = some s.password;
  }

  unfoldable pub update_to_entity : UserUpdateSerializer → UserEntity Time
  update_to_entity s = record fresh {
    id = s.id;
    username = s.username;
    email = s.email;
    password = s.password;
    picture = s.picture;
  }

pub record UserCreateResponseSerializer : Type 0 where
  pub id : ℤ
  pub username : Str
  pub email : Str

-- std::optional::value
abbrev pub value : Option Str → Result Str
value none = throw (std_error (str "bad optional access"))
value (some s) = ok s

unfoldable pub create_response_of :
    {Time : Type 0} → UserEntity Time → Result UserCreateResponseSerializer
create_response_of e = bind_result (value e.username) λ username.
    bind_result (value e.email)
      λ email. ok (record { id = e.id; username = username; email = email })
