-- ===== src/Files/Storage.antt =====
-- FileSystemService of core/file_system/FileSystemService.cpp.
use adequate_api_cpp.Base.{
  ℕ, zero, suc, ◌/◌, ◌%◌, Bool, true, false, ◌&&◌, if◌then◌else◌, ltb, length, List, [], ◌∷◌, ◌++◌,
  Option, none, some, Str, str, str_eq, is_empty, Result, ok, throw, file_validation_error,
  file_security_error, file_io_error, M, ◌>>=◌, ◌>>◌, pure, raise, lift,
}
use adequate_api_cpp.Base.Decimal.{to_string}
use adequate_api_cpp.Http.Request.{is_std, what}
use adequate_api_cpp.Files.Path.{◌/ₚ◌, elements, normal_elements, parent_path}
use adequate_api_cpp.Files.Disk.{Disk}
use adequate_api_cpp.Files.Names.{
  IncomingFile, Options, StoredFileInfo, build_relative_dir, chosen_extension, hex_digit, member,
  normalize_entity_id, normalize_entity_name, with_extension,
}

-- The loop that compares the elements of the root and of the full path.
unfoldable pub within : List Str → List Str → Bool
within [] f = true
within (x ∷ r) [] = false
within (x ∷ r) (y ∷ f) = if str_eq x y then within r f else false

module _ (D : Disk) where
  abbrev pub elements_or : Str → Option Str → List Str
  elements_or path none = normal_elements path
  elements_or path (some canon) = elements canon

  unfoldable pub ensure_within_root : Str → Str → M D.State (Unit {0})
  ensure_within_root root full s =
      let r = elements_or root (D.weakly_canonical root s) in
      let f = elements_or full (D.weakly_canonical full s) in
      if within r f
      then (ok tt, s)
      else (throw (file_security_error (str "Path escapes rootDir: " ++ full)), s)

  unfoldable pub random_hex : ℕ → D.State → Str × D.State
  random_hex zero s = ([], s)
  random_hex (suc n) s =
      let (x, s) = D.random s in
      let (rest, s) = random_hex n s in (hex_digit (x % 256 / 16) ∷ hex_digit (x % 16) ∷ rest, s)

  abbrev pub check_mime : Options → Str → Result (Unit {0})
  check_mime o [] =
      if o.strict_mime
      then throw (file_validation_error (str "Unable to detect MIME type"))
      else ok tt
  check_mime o (c ∷ mime) =
      if member (c ∷ mime) o.allowed_mime
      then ok tt
      else throw (file_validation_error (str "Unsupported MIME type: " ++ (c ∷ mime)))

  abbrev pub of_detected : Options → Result Str × D.State → Result (Unit {0}) × D.State
  of_detected o (ok mime, s) = (check_mime o mime, s)
  of_detected o (throw e, s) =
      if is_std e
      then (
        if o.strict_mime
            then throw (file_validation_error (str "MIME detection failed: " ++ what e))
            else ok tt,
        s,
      )
      else (throw e, s)

  unfoldable pub validate_file : Options → IncomingFile → M D.State (Unit {0})
  validate_file o file s =
      if is_empty file.bytes
      then (throw (file_validation_error (str "File is empty")), s)
      else if ltb 0 o.max_bytes && ltb o.max_bytes (length file.bytes)
      then (
        throw (
            file_validation_error (
              str "File too large: "
              ++ (to_string (length file.bytes) ++ (str " > " ++ to_string o.max_bytes)))),
        s,
      )
      else if is_empty o.allowed_mime
      then (ok tt, s)
      else of_detected o (D.detect_mime file.bytes s)

  abbrev failed : Str → Str → D.State → Result ℕ × D.State
  failed what path s = (throw (file_io_error (what ++ (str "+ " ++ path))), s)

  abbrev pub renamed : Str → Str → ℕ → Option Str × D.State → Result ℕ × D.State
  renamed tmp final size (none, s) = (ok size, s)
  renamed tmp final size (some msg, s) = (
    throw (
        file_io_error (
          str "Rename failed: "
          ++ (tmp ++ (str " -> " ++ (final ++ (str " (" ++ (msg ++ str ")"))))))),
    D.remove tmp s,
  )

  abbrev pub flushed : Str → Str → ℕ → Bool × D.State → Result ℕ × D.State
  flushed tmp final size (false, s) = failed (str "Flush failed") tmp (D.remove tmp s)
  flushed tmp final size (true, s) = renamed tmp final size (D.rename tmp final s)

  abbrev pub written : Str → Str → ℕ → Bool × D.State → Result ℕ × D.State
  written tmp final size (false, s) = failed (str "Write failed") tmp (D.remove tmp s)
  written tmp final size (true, s) = flushed tmp final size (D.flush tmp s)

  -- Of no bytes there is no write.
  abbrev pub opened : Str → Str → Str → Bool × D.State → Result ℕ × D.State
  opened tmp final bytes (false, s) = failed (str "Cannot open temp file for write") tmp s
  opened tmp final [] (true, s) = flushed tmp final 0 (D.flush tmp s)
  opened tmp final (b ∷ bytes) (true, s) =
      written tmp final (length (b ∷ bytes)) (D.write tmp (b ∷ bytes) s)

  -- The number of bytes written.
  unfoldable pub write_file_atomic : Str → Str → M D.State ℕ
  write_file_atomic final bytes s =
      let (hex, s) = random_hex 8 s in
      let tmp = parent_path final /ₚ (str ".tmp_" ++ hex) in
      opened tmp final bytes (D.open_trunc tmp s)

  -- A call with an error code that turns it into an exception.
  abbrev pub or_fail : Str → Str → Option Str × D.State → Result (Unit {0}) × D.State
  or_fail what path (none, s) = (ok tt, s)
  or_fail what path (some msg, s) =
      (throw (file_io_error (what ++ (path ++ (str " (" ++ (msg ++ str ")"))))), s)

  -- The constructor of FileSystemService, up to its logging.
  unfoldable pub initialize : Options → M D.State Options
  initialize o =
      if is_empty o.root_path
      then raise (file_validation_error (str "FilesystemService: rootDir is empty"))
      else (λ s.
          or_fail (str "FilesystemService: cannot create rootPath: ") o.root_path
            (D.create_directories o.root_path s))
        >> pure o

  abbrev pub draw_name : Options → IncomingFile → M D.State Str
  draw_name o file s =
      let (hex, s) = random_hex 16 s in (ok (with_extension hex (chosen_extension o file)), s)

  unfoldable pub store : Options → Str → Str → IncomingFile → M D.State StoredFileInfo
  store o entity_name entity_id file =
      if is_empty file.bytes
      then raise (file_io_error (str "FileSystemService: file is empty"))
      else lift (normalize_entity_name entity_name) >>= λ name.
          lift (normalize_entity_id o entity_id) >>= λ id. validate_file o file >>= λ _.
          let relative = build_relative_dir name id in
          let full = o.root_path /ₚ relative in
          (λ s. or_fail (str "Failed to create directories: ") full (D.create_directories full s))
          >>= λ _. draw_name o file >>= λ stored.
              ensure_within_root o.root_path (full /ₚ stored) >>= λ _.
              write_file_atomic (full /ₚ stored) file.bytes >>= λ size. pure (record {
                relative_path = relative /ₚ stored;
                stored_file_name = stored;
                bytes_written = size;
              })

  unfoldable pub remove : Options → Str → M D.State (Unit {0})
  remove o path =
      if is_empty path
      then pure tt
      else let full = o.root_path /ₚ path in
        ensure_within_root o.root_path full >>= λ _.
        λ s. or_fail (str "Failed to remove file: ") full (D.remove_all full s)

  abbrev found : Option Bool → Bool
  found none = false
  found (some b) = b

  unfoldable pub exists : Options → Str → M D.State Bool
  exists o path =
      if is_empty path
      then pure false
      else let full = o.root_path /ₚ path in
        ensure_within_root o.root_path full >>= λ _. λ s. (ok (found (D.exists full s)), s)
