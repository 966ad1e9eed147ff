-- ===== src/Core/Tests.antt =====
-- Runs of the offloaded call, the OpenAPI builder and the multipart adapter.
use adequate_api_cpp.Base.{
  ℕ, ◌≡◌, refl, any, List, [], ◌∷◌, Option, none, str, ok, ◌==◌, ◌+◌, some, Str, ◌≤◌, ◌<◌, ◌^◌, ◌%◌,
  ◌++◌, throw, std_error, arith, str_eq, if◌then◌else◌,
}
use adequate_api_cpp.Base.Decimal.{ℤ, pos, negsuc, to_string_ℤ, to_string}
use adequate_api_cpp.Base.Decimal.Padded.{value_of}
use adequate_api_cpp.Core.Datetime.{
  Calendar, IsCalendar, parse_pg_timestamp, to_iso_string, negated,
}
use adequate_api_cpp.Core.Datetime.RoundTrip.{six, shown, to_iso-parse}
use adequate_api_cpp.Core.Offload.{OffloadState, initial, cancel, work, run}
use adequate_api_cpp.Core.Offload.Void
use adequate_api_cpp.Core.Offload.Void.{VoidState}
use adequate_api_cpp.Core.Offload.Void.Simulated.{Simulated}
use adequate_api_cpp.Http.Samples.{json_lib, http_lib}
use adequate_api_cpp.Http.Request.{Verb, get, verb_code, find}
use adequate_api_cpp.Router.{RouteEntry}
use adequate_api_cpp.Core.OpenApi.Document.{
  OpenApiMeta, no_meta, find_at, method_name, paths_of, responses_of, to_lower,
}
use adequate_api_cpp.Core.OpenApi.Document.Listed.{
  AreDistinct, documented, paths_of-documented, with_schema, responses_of-with_schema,
}
use adequate_api_cpp.Core.OpenApi.{
  Items, Call, created, with_auth, with_body, with_always, unauthorized, build, has_code,
}
use adequate_api_cpp.Core.OpenApi.Distinct.{codes, all_codes, add_new, Distinct, build-Distinct}
use adequate_api_cpp.Core.Config.{EnvConfig, load}
use adequate_api_cpp.Core.Config.Limits.{load_numbers}

-- Cancelled before the work, with the finishing task behind the abort.
abbrev aborted : OffloadState ℕ
aborted = run (run (work (ok 7) (cancel initial)))

-- A void call that is worked on and completed without a cancellation.
abbrev done : VoidState
done = Void.run (Void.work (ok tt) Void.initial)

-- Names by which methods differ.
abbrev verb_string : Verb → Str
verb_string v = (200 + verb_code v) ∷ []

to_lower-large : (n : ℕ) → to_lower (200 + n) ≡ 200 + n
unfolding to_lower
to_lower-large n = ground arith

verb_string-AreDistinct : AreDistinct json_lib verb_string
unfolding str_eq
verb_string-AreDistinct a b =
    rw (to_lower-large (verb_code a), to_lower-large (verb_code b)) (ground arith)

abbrev health_route : RouteEntry json_lib http_lib ℕ (OpenApiMeta json_lib)
health_route = record {
  regex = [];
  param_names = [];
  methods = (get, λ (q, w). (throw (std_error []), (q, w))) ∷ [];
  original = str "/health";
  allowed_content_types = [];
  openapi_meta = (get, no_meta json_lib) ∷ [];
}

paths_of-documented_example :
    find_at
      (str "/health")
      (method_name verb_string get)
      (paths_of json_lib verb_string (health_route ∷ []) [])
    ≡ documented json_lib (str "/health") get (health_route ∷ [])
paths_of-documented_example =
    paths_of-documented json_lib verb_string (str "/health") get (health_route ∷ [])
      verb_string-AreDistinct

abbrev items : Items
items =
    record { status = 200; description = str "OK"; schema_ref = some (str "UserResponse") }
    ∷ record { status = 204; description = str "No Content"; schema_ref = none }
    ∷ []

responses_of-with_schema_example :
    find (to_string 204) (responses_of json_lib items []) ≡ with_schema json_lib 204 items
responses_of-with_schema_example =
    responses_of-with_schema json_lib 204 items (omega arith) (omega arith, (omega arith, tt))

abbrev calls : List Call
calls =
    created (str "Created") none
    ∷ with_auth
    ∷ with_body
    ∷ unauthorized (str "E") (str "U")
    ∷ with_always
    ∷ []

build-Distinct_example :
    (codes (build calls []) ≡ add_new [] (all_codes calls))
    × Distinct (codes (build calls []))
    × ((k : ℕ) → has_code k (build calls []) ≡ any (λ m. m == k) (all_codes calls))
build-Distinct_example = build-Distinct calls

-- A port above 2^16, and a limit of four GiB.
abbrev environment : Str → Option Str
environment key =
    if str_eq key (str "APP_PORT")
    then some (to_string 73616)
    else if str_eq key (str "REDIS_PORT")
    then some (to_string 6379)
    else if str_eq key (str "FILE_UPLOAD_LIMIT_SIZE")
    then some (to_string (2 ^ 32))
    else none

load_numbers_example :
    (2 ^ 32 < 2 ^ 31
      → (c : EnvConfig) × (load environment ≡ ok c)
        × (c.port ≡ 73616 % 2 ^ 16)
        × (c.redis_port ≡ 6379 % 2 ^ 16)
        × (c.file_upload_limit_size ≡ 2 ^ 32))
    × (2 ^ 31 ≤ 2 ^ 32
        → load environment
          ≡ throw (
              std_error (str "Invalid integer for env variable: " ++ str "FILE_UPLOAD_LIMIT_SIZE")))
unfolding str str_eq
load_numbers_example =
    load_numbers environment 73616 6379 (2 ^ 32) refl refl refl (omega arith) (omega arith)

-- Times are their seconds, and every text is read as the second 100 with all of it left.
abbrev calendar : Calendar
calendar = record {
  Tm = ℤ;
  get_time = λ s. some (pos 100, s);
  timegm = λ tm. tm;
  gmtime = λ t. t;
  format = λ tm. to_string_ℤ tm;
}

abbrev calendar_law : IsCalendar calendar
calendar_law = record { IsNormal = λ tm. Unit; gmtime-timegm = λ tm n. refl }

to_iso-parse_example :
    (tp : ℤ) × (parse_pg_timestamp calendar (str ".25+02") ≡ ok tp)
    × ((t : ℕ)
        → pos 100 ≡ pos t
        → to_iso_string calendar tp
          ≡ to_string_ℤ (pos 100)
            ++ (shown (value_of 0 (six (str ".25+02"))) (six (str ".25+02")) ++ str "Z"))
    × ((t : ℕ)
        → pos 100 ≡ negsuc t
        → 0 < value_of 0 (six (str ".25+02"))
        → to_iso_string calendar tp ≡ to_string_ℤ (negated t) ++ str "Z")
to_iso-parse_example =
    to_iso-parse calendar calendar_law (str ".25+02") (str ".25+02") (pos 100) refl tt
