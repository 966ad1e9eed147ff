-- ===== src/Files/Tests.antt =====
-- Runs of the file system service on a small disk.
use adequate_api_cpp.Base.{
  ◌≡◌, refl, ◌⊎◌, true, false, if◌then◌else◌, List, [], ◌∷◌, ◌++◌, Option, none, some, Str, str,
  str_eq, str_eq_refl, ok, throw, file_security_error,
}
use adequate_api_cpp.Files.Path.{◌/ₚ◌, parent_path, split_last, has_filename}
use adequate_api_cpp.Files.Disk.{Disk}
use adequate_api_cpp.Files.Names.{Options, IncomingFile, StoredFileInfo}
use adequate_api_cpp.Files.Storage.{remove, write_file_atomic, elements_or, or_fail}
use adequate_api_cpp.Files.Root.{remove_confined}
use adequate_api_cpp.Files.Atomic.{Replaced, write_file_atomic-Replaced}

-- The contents of the files.
abbrev Contents : Type 0
Contents = Str → Option Str

abbrev put : Str → Option Str → Contents → Contents
put p v s q = if str_eq q p then v else s q

pub put-apart : (p q : Str) (v : Option Str) (s : Contents) → str_eq q p ≡ false → put p v s q ≡ s q
put-apart p q v s h = rw h refl

pub put-same : (p : Str) (v : Option Str) (s : Contents) → put p v s p ≡ v
put-same p v s = rw (str_eq_refl p) refl

abbrev pub disk : Disk
disk = record {
  State = Contents;
  create_directories = λ p s. (none, s);
  weakly_canonical = λ p s. some p;
  exists = λ p s. some false;
  remove_all = λ p s. (none, put p none s);
  remove = λ p s. put p none s;
  open_trunc = λ p s. (true, put p (some []) s);
  write = λ p bytes s. (true, put p (some bytes) s);
  flush = λ p s. (true, s);
  rename = λ p q s. (none, put q (s p) s);
  random = λ s. (0, s);
  detect_mime = λ bytes s. (ok (str "image/png"), s);
  content = λ p s. s p;
  Apart = λ q p. str_eq q p ≡ false;
  content-remove = λ p q s h. put-apart p q none s h;
  content-open = λ p q s h. put-apart p q (some []) s h;
  content-write = λ p q bytes s h. put-apart p q (some bytes) s h;
  content-flush = λ p q s h. refl;
  content-random = λ q s. refl;
  content-written = λ p bytes s a b c. put-same p (some bytes) (put p (some []) s);
  content-renamed = λ p q s h. put-same q (s p) s;
  content-rename_failed = λ p q r msg s h. cc h;
}

abbrev pub empty : Contents
empty p = none

write_file_atomic-Replaced_example :
    Replaced disk
      (str "/srv/a")
      (str "hi")
      empty
      (write_file_atomic disk (str "/srv/a") (str "hi") empty)
unfolding parent_path split_last ◌/ₚ◌ has_filename str str_eq
write_file_atomic-Replaced_example =
    write_file_atomic-Replaced disk (str "/srv/a") b'h' (b'i' ∷ []) empty (λ hex. refl)

abbrev options : Options
options = record {
  root_path = str "/srv";
  media_path = str "media";
  max_bytes = 100;
  allowed_extensions = str "png" ∷ [];
  allowed_mime = [];
  strict_mime = true;
  preserve_allowed_extension = true;
  allow_non_numeric_entity_id = false;
}

abbrev file : IncomingFile
file = record { bytes = str "hi"; original_file_name = str "a.PNG"; content_type = [] }

abbrev info : StoredFileInfo
info = record {
  relative_path = str "users/7/file/00000000000000000000000000000000.png";
  stored_file_name = str "00000000000000000000000000000000.png";
  bytes_written = 2;
}

remove_confined_example :
    ((rest : List Str) × (elements_or disk (str "/srv" /ₚ str "a") (some (str "/srv" /ₚ str "a"))
        ≡ elements_or disk (str "/srv") (some (str "/srv")) ++ rest)
      × (remove disk options (str "a") empty
          ≡ or_fail disk
              (str "Failed to remove file: ")
              (str "/srv" /ₚ str "a")
              (none, put (str "/srv" /ₚ str "a") none empty)))
    ⊎ (((rest : List Str)
          → ¬ (
              elements_or disk (str "/srv" /ₚ str "a") (some (str "/srv" /ₚ str "a"))
              ≡ elements_or disk (str "/srv") (some (str "/srv")) ++ rest))
        × (remove disk options (str "a") empty ≡ (
          throw (file_security_error (str "Path escapes rootDir: " ++ (str "/srv" /ₚ str "a"))),
          empty,
        )))
unfolding str
remove_confined_example = remove_confined disk options b'a' [] empty
