-- ===== src/Http/Samples.antt =====
-- Concrete libraries and requests, for runs of the modules above them.
use adequate_api_cpp.Base.{
  ℕ, ◌≡◌, refl, Bool, true, false, List, [], ◌∷◌, Option, none, some, Str, str, Result, ok, throw,
  std_error,
}
use adequate_api_cpp.Http.Libraries.{JsonLib, HttpLib}
use adequate_api_cpp.Http.Request.{Request, Verb, find}

-- Texts, other values, and objects one level deep.
pub data Value : Type 0 where
  text : Str → Value
  opaque : Value
  fields : List (Str × Option Str) → Value

abbrev flat : Value → Option Str
flat (text s) = some s
flat opaque = none
flat (fields fs) = none

abbrev flat_fields : List (Str × Value) → List (Str × Option Str)
flat_fields [] = []
flat_fields ((k, v) ∷ fs) = (k, flat v) ∷ flat_fields fs

abbrev of_flat : Option (Option Str) → Value
of_flat none = opaque
of_flat (some none) = opaque
of_flat (some (some s)) = text s

abbrev there : Option (Option Str) → Bool
there none = false
there (some v) = true

abbrev find_in : Value → Str → Option (Option Str)
find_in (fields fs) name = find name fs
find_in _ name = none

abbrev is_text : Value → Bool
is_text (text s) = true
is_text _ = false

abbrev text_of : Value → Result Str
text_of (text s) = ok s
text_of _ = throw (std_error (str "type must be string"))

pub text_of-ok : (v : Value) → is_text v ≡ true → (s : Str) × (text_of v ≡ ok s)
text_of-ok (text s) h = (s, refl)
text_of-ok opaque h = cc h
text_of-ok (fields fs) h = cc h

pub text_of-throws :
    (v : Value) → is_text v ≡ false → (msg : Str) × (text_of v ≡ throw (std_error msg))
text_of-throws (text s) h = cc h
text_of-throws opaque h = (str "type must be string", refl)
text_of-throws (fields fs) h = (str "type must be string", refl)

abbrev pub login_sample : Value
login_sample =
    fields
      ((str "email", some (str "ann@example.org")) ∷ (str "password", some (str "secret1")) ∷ [])

-- A body of two characters is a login, a longer or shorter one an email and a username that are no
-- texts, and an empty one does not parse.
abbrev parse_sample : Str → Result Value
parse_sample [] = throw (std_error (str "unexpected end of input"))
parse_sample (c ∷ c' ∷ []) = ok login_sample
parse_sample (c ∷ s) = ok (fields ((str "email", none) ∷ (str "username", none) ∷ []))

abbrev pub json_lib : JsonLib
json_lib = record {
  Json = Value;
  parse = parse_sample;
  dump = λ v indent. [];
  null = opaque;
  string = text;
  number = λ n. opaque;
  boolean = λ b. opaque;
  array = λ vs. opaque;
  object = λ fs. fields (flat_fields fs);
  contains = λ v name. there (find_in v name);
  at = λ v name. of_flat (find_in v name);
  is_string = is_text;
  get_string = text_of;
  get_string_ok = text_of-ok;
  get_string_throws = text_of-throws;
}

-- A response is its status, its body and whether the connection stays open.
abbrev pub http_lib : HttpLib
http_lib = record {
  Response = ℕ × Str × Bool;
  make = λ status version. (status, [], true);
  status = λ r. r.0;
  body = λ r. r.1;
  keep_alive = λ r. r.2;
  set = λ field value r. r;
  erase = λ field r. r;
  set_body = λ s r. (r.0, s, r.2);
  set_keep_alive = λ k r. (r.0, r.1, k);
  content_length = λ n r. r;
  prepare_payload = λ r. r;
  status-make = λ s v. refl;
  status-set = λ f v r. refl;
  status-erase = λ f r. refl;
  status-set_body = λ s r. refl;
  status-set_keep_alive = λ k r. refl;
  status-content_length = λ n r. refl;
  status-prepare_payload = λ r. refl;
  body-set_body = λ s r. refl;
  body-set = λ f v r. refl;
  body-erase = λ f r. refl;
  body-content_length = λ n r. refl;
  body-prepare_payload = λ r. refl;
}

-- A request to a path without headers.
abbrev pub request_to : Verb → Str → Request
request_to method target = record {
  method = method;
  target = target;
  version = 11;
  keep_alive = true;
  content_type_header = none;
  authorization_header = none;
  body = [];
  absolute_host = [];
  path_params = [];
  user_id = none;
  multipart = none;
}
