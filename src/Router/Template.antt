-- ===== src/Router/Template.antt =====
-- Router::compileRoute of core/routers/Router.cpp: a path template becomes a regular expression
-- and the names of its parameters.
pub mod Segments
pub mod Parsing
pub mod Matching
use adequate_api_cpp.Base.{
  ℕ, ◌≡◌, Bool, true, false, ◌&&◌, if◌then◌else◌, ◌==◌, List, [], ◌∷◌, ◌++◌, Option, none, some,
  Str, str, getline, is_empty,
}
use adequate_api_cpp.Router.Regex.{Item, is_special}

unfoldable pub escape_segment : Str → Str
unfolding is_special
escape_segment [] = []
escape_segment (c ∷ s) =
    let rest = c ∷ escape_segment s in if is_special c then b'\\' ∷ rest else rest

-- s.back() of a text with first character c, and s without its last character
unfoldable pub last : ℕ → Str → ℕ
last c [] = c
last c (d ∷ s) = last d s

unfoldable pub pop_back : ℕ → Str → Str
pop_back c [] = []
pop_back c (d ∷ s) = c ∷ pop_back d s

-- seg.substr(1, seg.size() - 2) where seg begins with `{` and ends with `}`
unfoldable pub param_name : Str → Option Str
unfolding last pop_back
param_name [] = none
param_name (c ∷ []) = none
param_name (c ∷ d ∷ s) = if c == b'{' && last d s == b'}' then some (pop_back d s) else none

-- The loop over the segments, with the text and the parameters built so far.
unfoldable pub compile_loop : List Str → Str → List Str → Str × List Str
unfolding param_name escape_segment
compile_loop [] regex params = (regex, params)
compile_loop (seg ∷ segs) regex params =
    let skipped = compile_loop segs regex params in
    let literal = compile_loop segs ((regex ++ str "/") ++ escape_segment seg) params in
    if is_empty seg then skipped else elim (param_name seg) [
      | some name ↦ compile_loop segs ((regex ++ str "/") ++ str "([^/]+)") (params ++ name ∷ [])
      | none ↦ literal
    ]

-- The text of the expression, and the parameter names.
unfoldable pub compile_route : Str → Str × List Str
unfolding compile_loop
compile_route tmpl =
    let (regex, params) = compile_loop (getline b'/' tmpl) (str "^") [] in
    (regex ++ str "$", params)
