-- ===== src/Http/Libraries.antt =====
-- nlohmann::json and boost::beast::http::response, as the program uses them: operations with the
-- documented laws that proofs rely on.
use adequate_api_cpp.Base.{ℕ, ◌≡◌, Bool, true, false, List, Str, Result, ok, throw, std_error}
use adequate_api_cpp.Base.Decimal.{ℤ}

pub record JsonLib : Type 1 where
  pub Json : Type 0
  -- json::parse; json::dump with an indent, -1 for none
  pub parse : Str → Result Json
  pub dump : Json → ℤ → Str
  pub null : Json
  pub string : Str → Json
  pub number : ℤ → Json
  pub boolean : Bool → Json
  pub array : List Json → Json
  pub object : List (Str × Json) → Json
  pub contains : Json → Str → Bool
  pub at : Json → Str → Json
  pub is_string : Json → Bool
  -- get<std::string>(): throws json::type_error on any other value
  pub get_string : Json → Result Str
  pub get_string_ok : (j : Json) → is_string j ≡ true → (s : Str) × (get_string j ≡ ok s)
  pub get_string_throws :
      (j : Json) → is_string j ≡ false → (msg : Str) × (get_string j ≡ throw (std_error msg))

pub record HttpLib : Type 1 where
  pub Response : Type 0
  pub make : (status version : ℕ) → Response
  pub status : Response → ℕ
  pub body : Response → Str
  pub keep_alive : Response → Bool
  pub set : (field value : Str) → Response → Response
  pub erase : (field : Str) → Response → Response
  pub set_body : Str → Response → Response
  pub set_keep_alive : Bool → Response → Response
  pub content_length : ℕ → Response → Response
  pub prepare_payload : Response → Response
  pub status-make : (s v : ℕ) → status (make s v) ≡ s
  pub status-set : (f v : Str) (r : Response) → status (set f v r) ≡ status r
  pub status-erase : (f : Str) (r : Response) → status (erase f r) ≡ status r
  pub status-set_body : (s : Str) (r : Response) → status (set_body s r) ≡ status r
  pub status-set_keep_alive : (k : Bool) (r : Response) → status (set_keep_alive k r) ≡ status r
  pub status-content_length : (n : ℕ) (r : Response) → status (content_length n r) ≡ status r
  pub status-prepare_payload : (r : Response) → status (prepare_payload r) ≡ status r
  pub body-set_body : (s : Str) (r : Response) → body (set_body s r) ≡ s
  pub body-set : (f v : Str) (r : Response) → body (set f v r) ≡ body r
  pub body-erase : (f : Str) (r : Response) → body (erase f r) ≡ body r
  pub body-content_length : (n : ℕ) (r : Response) → body (content_length n r) ≡ body r
  pub body-prepare_payload : (r : Response) → body (prepare_payload r) ≡ body r
