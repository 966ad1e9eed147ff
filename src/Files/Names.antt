-- ===== src/Files/Names.antt =====
-- The types of core/file_system/FileSystemService.h, and the functions of FileSystemService.cpp that
-- make the names and the relative paths of stored files.
use adequate_api_cpp.Base.{
  ℕ, ◌+◌, ◌-◌, Bool, false, not, ◌&&◌, ◌||◌, if◌then◌else◌, ◌==◌, ltb, leb, all, any, List, [], ◌∷◌,
  ◌++◌, map, Str, str, str_eq, is_empty, Result, ok, throw, file_security_error,
}
use adequate_api_cpp.Base.Decimal.{is_digit}
use adequate_api_cpp.Files.Path.{◌/ₚ◌, extension}

pub record IncomingFile : Type 0 where
  pub bytes : Str
  pub original_file_name : Str
  pub content_type : Str

pub record StoredFileInfo : Type 0 where
  pub relative_path : Str
  pub stored_file_name : Str
  pub bytes_written : ℕ

pub record Options : Type 0 where
  pub root_path : Str
  pub media_path : Str
  pub max_bytes : ℕ
  pub allowed_extensions : List Str
  pub allowed_mime : List Str
  pub strict_mime : Bool
  pub preserve_allowed_extension : Bool
  pub allow_non_numeric_entity_id : Bool

-- std::unordered_set::contains
unfoldable pub member : Str → List Str → Bool
member s xs = any (str_eq s) xs

-- std::tolower in the C locale
abbrev lower : ℕ → ℕ
lower c = if leb b'A' c && leb c b'Z' then c + 32 else c

unfoldable pub to_lower : Str → Str
to_lower s = map lower s

-- [a-z0-9_]
unfoldable pub is_name_char : ℕ → Bool
is_name_char c = leb b'a' c && leb c b'z' || is_digit c || c == b'_'

unfoldable pub is_valid_entity_name : Str → Bool
is_valid_entity_name s = not (is_empty s) && all is_name_char s

-- [a-z0-9_-]
unfoldable pub is_id_char : ℕ → Bool
is_id_char c = is_name_char c || c == b'-'

unfoldable pub is_valid_entity_id : Options → Str → Bool
is_valid_entity_id o s =
    if is_empty s
    then false
    else if o.allow_non_numeric_entity_id
    then all is_id_char s
    else all is_digit s

unfoldable pub normalize_entity_name : Str → Result Str
normalize_entity_name input =
    let v = to_lower input in
    if is_valid_entity_name v
    then ok v
    else throw (file_security_error (str "Invalid entity name (allowed: [a-z0-9_]+)"))

unfoldable pub normalize_entity_id : Options → Str → Result Str
normalize_entity_id o input =
    let v = to_lower input in
    if is_valid_entity_id o v then ok v else throw (file_security_error (str "Invalid entity id"))

unfoldable pub build_relative_dir : Str → Str → Str
build_relative_dir name id = name /ₚ id /ₚ str "file"

unfoldable pub build_relative_path : Options → Str → Str → Str → Str
build_relative_path o name id file =
    (o.media_path /ₚ build_relative_dir name id) ++ (str "/" ++ file)

unfoldable pub build_absolute_path : Options → Str → Str → Str → Str → Str
build_absolute_path o host name id file = host ++ build_relative_path o name id file

-- if (ext.front() == '.') ext.erase(ext.begin())
abbrev pub strip_dot : Str → Str
strip_dot [] = []
strip_dot (c ∷ s) = if c == b'.' then s else c ∷ s

abbrev pub pick_from : Options → Str → Str
pick_from o [] = []
pick_from o (c ∷ ext) =
    let e = to_lower (strip_dot (c ∷ ext)) in if member e o.allowed_extensions then e else []

unfoldable pub pick_allowed_extension : Options → Str → Str
pick_allowed_extension o name = if is_empty name then [] else pick_from o (extension name)

-- "0123456789abcdef"[d], for d below 16
abbrev pub hex_digit : ℕ → ℕ
hex_digit d = if ltb d 10 then b'0' + d else b'a' + (d - 10)

abbrev pub chosen_extension : Options → IncomingFile → Str
chosen_extension o file =
    if o.preserve_allowed_extension && not (is_empty o.allowed_extensions)
    then pick_allowed_extension o file.original_file_name
    else []

abbrev pub with_extension : Str → Str → Str
with_extension name ext = if is_empty ext then name else name ++ (str "." ++ ext)
