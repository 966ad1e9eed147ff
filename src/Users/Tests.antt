-- ===== src/Users/Tests.antt =====
-- Runs of the users' modules on concrete data.
use adequate_api_cpp.Base.{
  ℕ, ◌≡◌, ◌↔◌, Bool, true, false, List, [], ◌∷◌, none, some, Str, str, Result, ok, M,
}
use adequate_api_cpp.Base.Decimal.{pos}
use adequate_api_cpp.Http.Samples.{json_lib, Value, fields}
use adequate_api_cpp.Files.Names.{IncomingFile}
use adequate_api_cpp.Auth.Tests.{jwt}
use adequate_api_cpp.Auth.Jwt.{encode}
use adequate_api_cpp.Users.Filters.{no_filter}
use adequate_api_cpp.Users.Serializers.{
  UserEntity, UserCreateSerializer, LoginSerializer, UserUpdateSerializer, from_json_create,
  is_email,
}
use adequate_api_cpp.Users.Serializers.Email.{Email, is_email_iff}
use adequate_api_cpp.Users.Serializers.Accepts.{CreatesUser, create_accepts_iff}
use adequate_api_cpp.Users.Repository.{Query, PgRow}
use adequate_api_cpp.Users.Repository
use adequate_api_cpp.Users.Service.{TokenPair, FileStore}

is_email_iff_example : (is_email (str "ann@example.org") ≡ true) ↔ Email (str "ann@example.org")
is_email_iff_example = is_email_iff (str "ann@example.org")

abbrev ann : UserCreateSerializer
ann = record { username = str "ann"; email = str "ann@example.org"; password = str "secret1" }

abbrev ann_json : Value
ann_json = fields (
    (str "username", some (str "ann"))
    ∷ (str "email", some (str "ann@example.org"))
    ∷ (str "password", some (str "secret1"))
    ∷ [])

create_accepts_iff_example :
    (from_json_create json_lib ann_json ≡ ok ann) ↔ CreatesUser json_lib ann_json ann
create_accepts_iff_example = create_accepts_iff json_lib ann_json ann

-- The world is the statements that were sent; each gets one row, of a user with the id 5.
abbrev row : PgRow
row i = record { data_ = str "5"; is_null = false }

abbrev query : Query (List Str)
query sql params w = (ok (row ∷ []), sql ∷ w)

abbrev files : FileStore (List Str)
files = record {
  exists = λ path w. (ok false, w);
  remove = λ path w. (ok tt, w);
  store = λ entity id file w.
      (ok (record { relative_path = []; stored_file_name = str "f"; bytes_written = 1 }), w);
  absolute_path = λ host entity id file. file;
}

abbrev hash : Str → M (List Str) Str
hash password w = (ok (str "$argon2id$"), w)

abbrev fresh : UserEntity ℕ
fresh = record {
  id = pos 0;
  username = none;
  email = none;
  picture = none;
  password = none;
  created_at = 0;
  updated_at = 0;
}

abbrev renamed : UserEntity ℕ
renamed = record fresh { id = pos 5; username = some (str "bob") }

abbrev bob_fields : List (Str × Str)
bob_fields = (str "username", str "bob") ∷ []

abbrev no_change : UserUpdateSerializer
no_change = record { id = pos 5; username = none; picture = none; email = none; password = none }

abbrev no_picture : IncomingFile
no_picture = record { bytes = []; original_file_name = []; content_type = [] }

abbrev parse_time : Str → Result ℕ
parse_time s = ok 0

abbrev verify : Str → Str → M (List Str) Bool
verify password stored w = (ok true, w)

abbrev ann_login : LoginSerializer
ann_login = record { email = str "ann@example.org"; password = str "secret1" }

abbrev ann_tokens : TokenPair
ann_tokens = record {
  refresh_token = str "None";
  access_token = encode jwt (str "key") (pos 5) 1000;
}

abbrev sent : List Str
sent = (Repository.one_query (record no_filter { email = some (str "ann@example.org") })).sql ∷ []
