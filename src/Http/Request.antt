-- ===== src/Http/Request.antt =====
-- core/request/Request.h. The raw request is what the program reads of it: the results of its header
-- lookups, its method, target, version and body.
use adequate_api_cpp.Base.{
  ℕ, ◌+◌, Bool, true, false, if◌then◌else◌, ◌==◌, List, [], ◌∷◌, Option, none, some, Str, str,
  str_eq, Result, ok, throw, Exception, db_error, multipart_error, validation_error,
  file_validation_error, file_security_error, file_io_error, jwt_exception, std_error, foreign,
  is_empty, ◌++◌, bind_result,
}
use adequate_api_cpp.Base.Decimal.{ℤ}
use adequate_api_cpp.Http.Libraries.{JsonLib}

pub data Verb : Type 0 where
  get head post put patch delete_ options : Verb
  other : ℕ → Verb

abbrev pub verb_code : Verb → ℕ
verb_code get = 0
verb_code head = 1
verb_code post = 2
verb_code put = 3
verb_code patch = 4
verb_code delete_ = 5
verb_code options = 6
verb_code (other n) = 7 + n

abbrev pub verb_eq : Verb → Verb → Bool
verb_eq a b = verb_code a == verb_code b

pub record Part : Type 0 where
  pub name : Str
  pub filename : Str
  pub content_type : Str
  pub bytes : Str

pub record MultipartForm : Type 0 where
  pub files : List (Str × Part)
  pub fields : List (Str × Str)

pub record Request : Type 0 where
  pub method : Verb
  pub target : Str
  pub version : ℕ
  pub keep_alive : Bool
  pub content_type_header : Option Str
  pub authorization_header : Option Str
  pub body : Str
  pub absolute_host : Str
  pub path_params : List (Str × Str)
  pub user_id : Option ℤ
  pub multipart : Option MultipartForm

-- std::unordered_map over texts: operator[] assignment, and find.
module _ {V : Type 0} where
  unfoldable pub assign : Str → V → List (Str × V) → List (Str × V)
  assign k v [] = (k, v) ∷ []
  assign k v ((j, w) ∷ m) = if str_eq j k then (k, v) ∷ m else (j, w) ∷ assign k v m

  unfoldable pub find : Str → List (Str × V) → Option V
  find k [] = none
  find k ((j, v) ∷ m) = if str_eq j k then some v else find k m

abbrev pub value_or : Option Str → Str → Str
value_or none d = d
value_or (some s) d = s

unfoldable pub content_type : Request → Str
content_type r = value_or r.content_type_header []

-- Request::query over boost::urls::parse_origin_form: of a key that occurs twice the first value
-- counts, as for `find`.
unfoldable pub query : (Str → Option (List (Str × Str))) → Request → List (Str × Str)
query parse_origin_form q = elim (parse_origin_form q.target) [ none ↦ [] | some params ↦ params ]

-- e.what()
unfoldable pub what : Exception → Str
what (db_error code msg) = msg
what (multipart_error msg) = msg
what (validation_error msg) = msg
what (file_validation_error msg) = msg
what (file_security_error msg) = msg
what (file_io_error msg) = msg
what (jwt_exception code msg) = msg
what (std_error msg) = msg
what foreign = []

-- Whether catch (const std::exception&) takes it.
unfoldable pub is_std : Exception → Bool
is_std foreign = false
is_std _ = true

abbrev pub rewrap : {A : Type 0} → Str → Result A → Result A
rewrap prefix (ok a) = ok a
rewrap prefix (throw e) = if is_std e then throw (std_error (prefix ++ what e)) else throw e

module _ (J : JsonLib) where
  -- Request::json
  unfoldable pub json : Request → Result J.Json
  json r = rewrap (str "Invalid JSON: ") (J.parse r.body)

  unfoldable pub ensure_json_valid : Request → Result (Unit {0})
  ensure_json_valid r = bind_result (rewrap (str "Invalid JSON: ") (J.parse r.body)) (λ _. ok tt)

-- The loop of Request::parseMultipart over the parts.
unfoldable pub sort_parts : List Part → MultipartForm → MultipartForm
unfolding assign
sort_parts [] form = form
sort_parts (p ∷ ps) form = sort_parts ps (
    if is_empty p.filename
    then record form { fields = assign p.name p.bytes form.fields }
    else record form { files = assign p.name p form.files })

-- MultipartAdapterFactory::create: the parser of the adapter named in the configuration.
abbrev pub Parser : Type 0
Parser = Str → Str → Result (List Part)

unfoldable pub create_adapter : Parser → Str → Result Parser
unfolding str_eq str
create_adapter poco name =
    if str_eq name (str "POCO")
    then ok poco
    else throw (std_error (str "Unsupported adapter: " ++ name))

unfoldable pub parse_multipart : Parser → Str → Request → Result Request
unfolding create_adapter sort_parts content_type
parse_multipart poco adapter r = bind_result (create_adapter poco adapter) λ parse.
    bind_result (parse (content_type r) r.body) λ parts.
      ok (record r { multipart = some (sort_parts parts (record { files = []; fields = [] })) })
