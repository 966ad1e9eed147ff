-- ===== src/Files/Stored.antt =====
-- The names and the paths under which `store` stores.
use adequate_api_cpp.Base.{
  ℕ, ◌≡◌, Bool, true, ◌&&◌, ◌||◌, [], Str, length, Result, ok, throw, ◌⊎◌, all, leb,
}
use adequate_api_cpp.Base.Decimal.{is_digit}
use adequate_api_cpp.Files.Path.{◌/ₚ◌}
use adequate_api_cpp.Files.Disk.{Disk}
use adequate_api_cpp.Files.Names.{
  Options, StoredFileInfo, to_lower, is_valid_entity_name, is_valid_entity_id, build_relative_dir,
  member, with_extension,
}

module _ {S : Type 0} where
  -- The result, if there is one, satisfies P.
  abbrev Post : {B : Type 0} → (B → Type 0) → Result B × S → Type 0
  Post P (ok b, s) = P b
  Post P (throw e, s) = Unit

-- [0-9a-f]
abbrev pub is_hex : ℕ → Bool
is_hex c = is_digit c || leb b'a' c && leb c b'f'

-- Where a file of an entity was stored: under the lower-case name and id, in the directory "file",
-- by a name of 32 hexadecimal digits, with one of the allowed extensions or without one.
pub record StoredAt (o : Options) (entity_name entity_id : Str) (info : StoredFileInfo)
    : Type 0 where
  pub hex : Str
  pub ext : Str
  pub relative :
      info.relative_path
      ≡ build_relative_dir (to_lower entity_name) (to_lower entity_id) /ₚ info.stored_file_name
  pub stored : info.stored_file_name ≡ with_extension hex ext
  pub name_valid : is_valid_entity_name (to_lower entity_name) ≡ true
  pub id_valid : is_valid_entity_id o (to_lower entity_id) ≡ true
  pub digits : all is_hex hex ≡ true
  pub digits_length : length hex ≡ 32
  pub allowed : (ext ≡ []) ⊎ (member ext o.allowed_extensions ≡ true)

module _ (D : Disk) (o : Options) where
  abbrev info_of : Str → Str → Str → ℕ → StoredFileInfo
  info_of name id stored size = record {
    relative_path = build_relative_dir name id /ₚ stored;
    stored_file_name = stored;
    bytes_written = size;
  }
