-- ===== src/Files/Path.antt =====
-- std::filesystem::path on POSIX, as far as FileSystemService uses it: a path is its text.
use adequate_api_cpp.Base.{
  ◌≡◌, refl, Bool, true, false, not, if◌then◌else◌, ◌==◌, List, [], ◌∷◌, ◌++◌, Option, none, some,
  Str, str, str_eq, is_empty,
}

abbrev pub is_absolute : Str → Bool
is_absolute [] = false
is_absolute (c ∷ p) = c == b'/'

-- Whether the path is not empty and ends without a separator.
unfoldable pub has_filename : Str → Bool
has_filename [] = false
has_filename (c ∷ []) = not (c == b'/')
has_filename (c ∷ d ∷ p) = has_filename (d ∷ p)

-- operator/
infixl 6 ◌/ₚ◌
unfoldable pub ◌/ₚ◌ : Str → Str → Str
p /ₚ q = if is_absolute q then q else if has_filename p then p ++ b'/' ∷ q else p ++ q

-- The elements of an iteration, from the text behind the current element: names between runs of
-- separators, and an empty one for a separator at the end.
unfoldable pub names_from : Str → Str → List Str
names_from cur [] = cur ∷ []
names_from cur (c ∷ p) =
    let closed = names_from [] p in
    let longer = names_from (cur ++ c ∷ []) p in
    if c == b'/' then if is_empty cur then closed else cur ∷ closed else longer

abbrev relative_elements : Str → List Str
relative_elements [] = []
relative_elements (c ∷ p) = names_from [] (c ∷ p)

-- The root directory is an element of its own.
abbrev drop_slashes : Str → Str
drop_slashes [] = []
drop_slashes (c ∷ p) = if c == b'/' then drop_slashes p else c ∷ p

unfoldable pub elements : Str → List Str
unfolding names_from
elements [] = []
elements (c ∷ p) =
    if c == b'/' then str "/" ∷ relative_elements (drop_slashes p) else names_from [] (c ∷ p)

-- lexically_normal: the elements in reverse, where .. takes back a name.
abbrev normal_step : Str → List Str → List Str
normal_step e [] = if is_empty e then [] else if str_eq e (str ".") then [] else e ∷ []
normal_step e (top ∷ stack) =
    if is_empty e
    then top ∷ stack
    else if str_eq e (str ".")
    then top ∷ stack
    else if str_eq e (str "..")
    then if str_eq top (str "/")
      then top ∷ stack
      else if str_eq top (str "..")
      then e ∷ top ∷ stack
      else stack
    else e ∷ top ∷ stack

unfoldable pub normal_stack : List Str → List Str → List Str
normal_stack [] stack = stack
normal_stack (e ∷ es) stack = normal_stack es (normal_step e stack)

-- Whether the last element makes the path that of a directory.
abbrev ends_open : List Str → Bool
ends_open [] = false
ends_open (e ∷ []) =
    if is_empty e then true else if str_eq e (str ".") then true else str_eq e (str "..")
ends_open (e ∷ f ∷ es) = ends_open (f ∷ es)

abbrev reverse_onto : List Str → List Str → List Str
reverse_onto [] acc = acc
reverse_onto (e ∷ es) acc = reverse_onto es (e ∷ acc)

abbrev close_stack : Bool → List Str → List Str
close_stack opened [] = str "." ∷ []
close_stack opened (top ∷ stack) =
    let plain = reverse_onto (top ∷ stack) [] in
    if str_eq top (str "/")
    then plain
    else if str_eq top (str "..")
    then plain
    else if opened
    then plain ++ [] ∷ []
    else plain

-- The elements of lexically_normal(); of an empty path it is empty.
unfoldable pub normal_elements : Str → List Str
unfolding elements normal_stack
normal_elements [] = []
normal_elements (c ∷ p) =
    close_stack (ends_open (elements (c ∷ p))) (normal_stack (elements (c ∷ p)) [])

-- The text behind the last separator, and that before it.
unfoldable pub split_last : Str → Option (Str × Str)
split_last [] = none
split_last (c ∷ p) = elim (split_last p) [
  | none ↦ if c == b'/' then some ([], p) else none
  | some (dir, name) ↦ some (c ∷ dir, name)
]

abbrev of_split : Str → Option (Str × Str) → Str
of_split p none = p
of_split p (some (dir, name)) = name

unfoldable pub filename : Str → Str
filename p = of_split p (split_last p)

abbrev dir_of : Option (Str × Str) → Str
dir_of none = []
dir_of (some (dir, name)) = dir

-- parent_path of a path with one separator before its last name
unfoldable pub parent_path : Str → Str
parent_path p = dir_of (split_last p)

-- The text from the last dot of a name, if there is a dot.
unfoldable pub last_dot : Str → Option Str
last_dot [] = none
last_dot (c ∷ s) = elim (last_dot s) [
  | none ↦ if c == b'.' then some (c ∷ s) else none
  | some ext ↦ some ext
]

abbrev extension_of : Option Str → Str
extension_of none = []
extension_of (some ext) = ext

-- extension(): of a name that starts with its only dot, or is two dots, there is none.
unfoldable pub extension : Str → Str
extension p = elim (filename p) [
  | [] ↦ []
  | c ∷ name ↦ if str_eq (c ∷ name) (str "..") then [] else extension_of (last_dot name)
]

path_tests :
    (elements (str "/a//b/") ≡ str "/" ∷ str "a" ∷ str "b" ∷ [] ∷ [])
    × (normal_elements (str "/a/../../b/./c") ≡ str "/" ∷ str "b" ∷ str "c" ∷ [])
    × (normal_elements (str "a/b/..") ≡ str "a" ∷ [] ∷ [])
    × ((str "root" /ₚ str "x" /ₚ str "y") ≡ str "root/x/y")
    × ((str "a" /ₚ str "/b") ≡ str "/b")
    × (extension (str "x/y.tar.gz") ≡ str ".gz")
    × (extension (str ".bashrc") ≡ [])
    × (parent_path (str "a/b/c") ≡ str "a/b")
unfolding elements normal_elements ◌/ₚ◌ extension parent_path str str_eq has_filename filename
    split_last last_dot
path_tests = (refl, refl, refl, refl, refl, refl, refl, refl)
