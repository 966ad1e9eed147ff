-- ===== src/Core/Multipart.antt =====
-- POCOMultipartAdapter of core/multipart/adapters/POCOMultipartAdapter.cpp over the POCO library.
pub mod Named
use adequate_api_cpp.Base.{
  ℕ, Bool, true, false, not, ◌&&◌, ◌||◌, if◌then◌else◌, ◌==◌, List, [], ◌∷◌, ◌++◌, Option, none,
  some, Str, str, str_eq, is_empty, before, after?, getline, Result, ok, throw, Exception,
  multipart_error, bind_result,
}
use adequate_api_cpp.Base.Decimal.{is_space, skip_spaces}
use adequate_api_cpp.Http.Request.{Part, Parser, assign, find, is_std, what}

-- The characters up to the last one that is no space.
unfoldable pub drop_last_spaces : Str → Str
drop_last_spaces [] = []
drop_last_spaces (c ∷ s) =
    let rest = drop_last_spaces s in if is_empty rest && is_space c then [] else c ∷ rest

unfoldable pub trim_copy : Str → Str
trim_copy s = drop_last_spaces (skip_spaces s)

-- The text without its last character, and that character.
unfoldable pub split_back : ℕ → Str → Str × ℕ
split_back c [] = ([], c)
split_back c (d ∷ s) = let (init, last) = split_back d s in (c ∷ init, last)

abbrev pub is_quote_pair : ℕ → ℕ → Bool
is_quote_pair a b = a == b'"' && b == b'"' || a == 39 && b == 39

-- substr(1, size - 2) between two equal quotes
abbrev pub strip_quotes : Str → Str
strip_quotes [] = []
strip_quotes (a ∷ []) = a ∷ []
strip_quotes (a ∷ b ∷ s) =
    let (init, last) = split_back b s in if is_quote_pair a last then init else a ∷ b ∷ s

unfoldable pub unquote : Str → Str
unquote s = strip_quotes (trim_copy s)

abbrev pub add_param : Option Str → Str → List (Str × Str) → List (Str × Str)
add_param none token out = out
add_param (some value) token out =
    let key = trim_copy (before b'=' token) in
    if is_empty key then out else assign key (unquote value) out

-- The loop of parseHeaderParams over the tokens between semicolons; `first` until a token that is not
-- empty has gone by.
unfoldable pub param_loop : Bool → List Str → List (Str × Str) → List (Str × Str)
param_loop first [] out = out
param_loop first (t ∷ ts) out =
    let token = trim_copy t in
    if is_empty token
    then param_loop first ts out
    else if first
    then param_loop false ts out
    else param_loop first ts (add_param (after? b'=' token) token out)

-- An empty token that find would give behind a last semicolon is skipped, as the loop does not see it.
unfoldable pub parse_header_params : Str → List (Str × Str)
parse_header_params header = param_loop true (getline b';' header) []

-- The parts that MultipartReader gives, one by one: the two headers that are read of each, and the
-- bytes of its stream. Reading can fail at any part.
pub data Parts : Type 0 where
  no_parts : Parts
  failing : Exception → Parts
  part_then : (content_type content_disposition bytes : Str) → Parts → Parts

-- MediaType, with the type and the boundary, empty without one; and MultipartReader of a boundary
-- and a body. display_text is displayText() of a Poco::Exception, `none` for another exception.
pub record PocoLib : Type 0 where
  pub media_type : Str → Result (Str × Str)
  pub read : Str → Str → Parts
  pub display_text : Exception → Option Str

abbrev pub value_of : Option Str → Str
value_of none = []
value_of (some s) = s

abbrev pub part_of : Str → Str → Str → List (Str × Str) → Result Part
part_of content_type bytes name params =
    if is_empty name
    then throw (multipart_error (str "Multipart part missing disposition parameter: name"))
    else ok (record {
      name = name;
      filename = value_of (find (str "filename") params);
      content_type = content_type;
      bytes = bytes;
    })

-- A missing name and an empty one end alike.
unfoldable pub read_part : Str → Str → Str → Result Part
read_part content_type cd bytes =
    if is_empty cd
    then throw (multipart_error (str "Multipart part missing Content-Disposition"))
    else if not (str_eq (trim_copy (before b';' cd)) (str "form-data"))
    then throw (multipart_error (str "Unsupported Content-Disposition: " ++ cd))
    else part_of content_type bytes (value_of (find (str "name") (parse_header_params cd)))
        (parse_header_params cd)

unfoldable pub read_parts : Parts → Result (List Part)
read_parts no_parts = ok []
read_parts (failing e) = throw e
read_parts (part_then ct cd bytes rest) =
    bind_result (read_part ct cd bytes) λ p. bind_result (read_parts rest) λ ps. ok (p ∷ ps)

-- The two handlers: an exception of POCO, or any other of the standard hierarchy, becomes a
-- MultipartError.
abbrev pub or_std : {A : Type 0} → Exception → Option Str → Result A
or_std e (some text) = throw (multipart_error (str "Poco multipart parse failed: " ++ text))
or_std e none =
    if is_std e then throw (multipart_error (str "Multipart parse failed: " ++ what e)) else throw e

abbrev pub rethrown : {A : Type 0} → PocoLib → Result A → Result A
rethrown P (ok a) = ok a
rethrown P (throw e) = or_std e (P.display_text e)

abbrev pub parts_of : PocoLib → Str → Str → Str × Str → Result (List Part)
parts_of P content_type body (type, boundary) =
    if not (str_eq type (str "multipart"))
    then throw (multipart_error (str "Content-Type is not multipart/*: " ++ content_type))
    else if is_empty boundary
    then throw
        (multipart_error (str "Multipart boundary is missing in Content-Type: " ++ content_type))
    else read_parts (P.read boundary body)

-- POCOMultipartAdapter::parse
unfoldable pub parse : PocoLib → Parser
parse P content_type body =
    rethrown P (bind_result (P.media_type content_type) (parts_of P content_type body))
