-- ===== src/App/Samples.antt =====
-- A small program to run: its libraries and database, its configuration, and a login.
use adequate_api_cpp.Base.{
  ◌+◌, ◌≡◌, ◌<◌, ◌^◌, refl, true, false, if◌then◌else◌, ◌==◌, List, [], ◌∷◌, ◌++◌, none, some, Str,
  str, str_eq, str_eq_refl, before, Result, ok, arith, sym, ap, some_inj, subst, starts_with,
}
use adequate_api_cpp.Base.Decimal.{
  pos, negsuc, stoll, magnitude, skip_spaces, read_sign, read_digits, is_digit, is_space, ℤ,
}
use adequate_api_cpp.Http.Request.{Request, post, find, json as parse_json}
use adequate_api_cpp.Http.Samples.{login_sample, json_lib, http_lib, request_to}
use adequate_api_cpp.Auth.Tests.{jwt}
use adequate_api_cpp.Core.Hasher.{Sodium, IsSodium, PwhashParams, hash}
use adequate_api_cpp.Core.Config.{EnvConfig}
use adequate_api_cpp.Core.Datetime.{Calendar, parse_pg_timestamp}
use adequate_api_cpp.Files.Tests.{disk, empty}
use adequate_api_cpp.Users.Serializers.{
  UserEntity, RegisterSerializer, register_to_entity, from_json_login, is_email, domain_of,
  dotted_rest, is_plain,
}
use adequate_api_cpp.Users.Repository
use adequate_api_cpp.Users.Repository.{Query, PgRow}
use adequate_api_cpp.Users.Service
use adequate_api_cpp.Users.Service.{register_user}
use adequate_api_cpp.Users.Service.Login.{IsDatabase, IsUserRow, by_email}
use adequate_api_cpp.Db.SqlBuilder
use adequate_api_cpp.App.Routes.{AppContext}
use adequate_api_cpp.Http.Renderer.{Outcome}
use adequate_api_cpp.Files.Path.{◌/ₚ◌, has_filename}
use adequate_api_cpp.Files.Storage
use adequate_api_cpp.App.Wiring.{Externals, wire, context_of, file_system_options, exists_id}

-- The world is what the users' table has as the last password, and the files.
abbrev pub World : Type 0
World = Str × disk.State

abbrev row_with : Str → PgRow
row_with password i = record { data_ = if i == 6 then password else str "5"; is_null = false }

abbrev row_true : PgRow
row_true i = record { data_ = str "t"; is_null = false }

-- An insertion keeps the password; the test for existence gives true, and any other statement the
-- last row.
abbrev pub query : Query World
query sql (u ∷ e ∷ some p ∷ []) w = (ok (row_with p ∷ []), (p, w.1))
query sql params w =
    (ok ((if starts_with (str "SELECT EXISTS") sql then row_true else row_with w.0) ∷ []), w)

abbrev pub buffer_of : Str → Str
buffer_of password = str "$argon2id$" ++ password

abbrev pub sodium : Sodium World
sodium = record {
  pwhash_str = λ password ops mem w. (some (buffer_of password), w);
  str_verify = λ encoded password.
      if str_eq encoded (before 0 (buffer_of password)) then pos 0 else negsuc 0;
  needs_rehash = λ encoded ops mem. pos 0;
}

buffer-verified :
    (password buffer : Str)
    → buffer_of password ≡ buffer
    → sodium.str_verify (before 0 buffer) password ≡ pos 0
buffer-verified password buffer h =
    subst (λ b. sodium.str_verify (before 0 b) password ≡ pos 0) h
      (rw (str_eq_refl (before 0 (buffer_of password))) refl)

pub sodium-IsSodium : IsSodium sodium
sodium-IsSodium = record {
  verifies = λ password buffer ops mem w w' h.
      buffer-verified password buffer (some_inj (ap (λ x. x.0) h));
  up_to_date = λ password buffer ops mem w w' h. refl;
}

-- Every text is the first second, without a fraction.
abbrev pub calendar : Calendar
calendar = record {
  Tm = ℤ;
  get_time = λ s. some (pos 0, []);
  timegm = λ tm. tm;
  gmtime = λ t. t;
  format = λ tm. str "1970-01-01T00:00:00";
}

abbrev pub parse_time : Str → Result ℤ
parse_time = parse_pg_timestamp calendar

row_with-IsUserRow :
    (password : Str) → IsUserRow query parse_time (pos 5) password (row_with password)
unfolding stoll magnitude skip_spaces read_sign read_digits is_digit is_space parse_pg_timestamp str
row_with-IsUserRow password = record {
  created = pos 0;
  updated = pos 0;
  has_id = refl;
  has_password = refl;
  has_created = refl;
  has_updated = refl;
}

-- The one user has the id 5, and the world holds its password.
abbrev pub Holds : ℤ → Str → World → Type 0
Holds id password w = (id ≡ pos 5) × (w.0 ≡ password)

pub found :
    (id : ℤ) (email password : Str) (w : World)
    → Holds id password w
    → (row : PgRow) × (rest : List PgRow) × (w' : World) × (query
          (Repository.one_query (by_email email)).sql
          (Repository.one_query (by_email email)).params
          w
        ≡ (ok (row ∷ rest), w'))
      × IsUserRow query parse_time id password row
unfolding Repository.one_query SqlBuilder.select SqlBuilder.limit SqlBuilder.where_eq starts_with
    str SqlBuilder.join
found id email password w h = (
  row_with w.0,
  [],
  w,
  refl,
  subst (λ i. IsUserRow query parse_time i password (row_with w.0)) (sym h.0)
      (subst (λ p. IsUserRow query parse_time (pos 5) p (row_with w.0)) h.1
        (row_with-IsUserRow w.0)),
)

pub there :
    (id : ℤ) (email password : Str) (w : World)
    → Holds id password w
    → (row : PgRow) × (rest : List PgRow) × (w' : World) × (query
          (Repository.exists_query (by_email email)).sql
          (Repository.exists_query (by_email email)).params
          w
        ≡ (ok (row ∷ rest), w'))
      × ((row 0).data_ ≡ str "t")
      × Holds id password w'
unfolding Repository.exists_query SqlBuilder.select SqlBuilder.exists SqlBuilder.where_eq
    starts_with str
there id email password w h = (row_true, [], w, refl, refl, h)

abbrev pub database : IsDatabase query parse_time
database = record {
  Stores = λ id email password w. Holds id password w;
  inserted = λ username email password b rows w w' e h. (pos 5, (refl, sym (ap (λ x. x.1.0) h)));
  found = found;
  there = there;
}

abbrev pub fresh : UserEntity ℤ
fresh = record {
  id = pos 0;
  username = none;
  email = none;
  picture = none;
  password = none;
  created_at = pos 0;
  updated_at = pos 0;
}

abbrev pub program : Externals World
program = record {
  json = json_lib;
  http = http_lib;
  jwt = jwt;
  sodium = sodium;
  disk = disk;
  query = query;
  unspecified = row_with [];
  calendar = calendar;
  fresh = fresh;
  parse_origin_form = λ target. some [];
  clock = λ w. 1000;
  disk_of = λ w. w.1;
  with_disk = λ s w. (w.0, s);
}

abbrev pub params : PwhashParams
params = record { opslimit = 2; memlimit = 64 }

abbrev pub config : EnvConfig
config = record {
  host = str "0.0.0.0";
  port = 8080;
  pg_dsn = [];
  pg_pool_size = 10;
  redis_host = str "127.0.0.1";
  redis_port = 6379;
  redis_password = [];
  secret_key = str "key";
  file_upload_limit_size = 100;
  multipart_adapter = str "POCO";
  media_path = str "media";
}

abbrev pub ann : RegisterSerializer
ann = record { username = str "ann"; email = str "ann@example.org"; password = str "secret1" }

abbrev pub nobody : World
nobody = ([], empty)

pub ann_registered :
    register_user query (hash sodium params) fresh ann nobody
    ≡ (ok tt, (before 0 (buffer_of (str "secret1")), empty))
unfolding register_user register_to_entity hash Repository.create Repository.insert_query
    SqlBuilder.insert SqlBuilder.returning stoll magnitude skip_spaces read_sign read_digits
    is_digit is_space str
ann_registered = refl

abbrev pub context : AppContext json_lib http_lib World
context =
    context_of program params config (file_system_options (str "/srv/media") (str "media") 100)

pub context_wired : wire program params config (str "/srv") nobody ≡ (ok context, nobody)
unfolding wire Storage.initialize file_system_options ◌/ₚ◌ has_filename str
context_wired = refl

-- The world with ann and the hash of her password
abbrev pub stored : World
stored = (before 0 (buffer_of (str "secret1")), empty)

-- The request with the login of ann
abbrev pub login_request : Request
login_request = record (request_to post (str "/auth/login")) { body = str "{}" }

pub ann_hashed :
    hash sodium params (str "secret1") nobody ≡ (ok (before 0 (buffer_of (str "secret1"))), nobody)
unfolding hash str
ann_hashed = refl

pub below_31 : 5 < 2 ^ 31
below_31 = omega arith

pub login_parsed : parse_json json_lib login_request ≡ ok login_sample
unfolding parse_json str
login_parsed = refl

pub login_valid :
    from_json_login json_lib login_sample
    ≡ ok (record { email = str "ann@example.org"; password = str "secret1" })
unfolding from_json_login is_email domain_of dotted_rest is_plain is_space find str_eq str
login_valid = refl

abbrev pub answered : Result (Outcome json_lib http_lib) × World
answered = context.login login_request stored

pub in_time : program.clock stored < program.clock answered.1 + 3600
in_time = omega arith

pub five_exists : exists_id program (pos 5) stored ≡ (ok true, stored)
unfolding exists_id Service.exists Repository.exists Repository.exists_query SqlBuilder.exists
    SqlBuilder.where_eq SqlBuilder.select str_eq starts_with str
five_exists = refl
