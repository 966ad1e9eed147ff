-- ===== src/Router/Template/Parsing.antt =====
-- The text that compileRoute writes is read back as the template's segments, each character of a
-- static segment standing for itself.
use adequate_api_cpp.Base.{
  ℕ, ◌≡◌, refl, sym, ap, ◌∙◌, true, false, ◌==◌, List, [], ◌∷◌, ◌++◌, map, append_assoc, append-nil,
  Option, none, some, Str, str, getline, arith, Bool-cases, Option-cases, inl, inr,
}
use adequate_api_cpp.Router.Regex.{
  Item, char, segment, is_special, parse, parse_body, plain, cons_item, skip,
}
use adequate_api_cpp.Router.Template.{escape_segment, param_name, compile_loop, compile_route}
use adequate_api_cpp.Router.Template.Segments.{Segment, static, param, segments_of, segments, names}

unfoldable pub items : List Segment → List Item
items [] = []
items (static s ∷ segs) = char b'/' ∷ (map char s ++ items segs)
items (param name ∷ segs) = char b'/' ∷ segment ∷ items segs

-- what the loop appends for each segment
segment_text : Segment → Str
segment_text (static s) = str "/" ++ escape_segment s
segment_text (param name) = str "/" ++ str "([^/]+)"

regex_text : List Segment → Str
unfolding segment_text
regex_text [] = []
regex_text (g ∷ segs) = segment_text g ++ regex_text segs

compile_loop-segments :
    (segs : List Str) (regex : Str) (params : List Str)
    → compile_loop segs regex params
      ≡ (regex ++ regex_text (segments_of segs), params ++ names (segments_of segs))
unfolding compile_loop segments_of regex_text names
compile_loop-segments [] regex params = rw (append-nil regex, append-nil params)
compile_loop-segments ([] ∷ segs) regex params = compile_loop-segments segs regex params
compile_loop-segments ((c ∷ seg) ∷ segs) regex params = elim (Option-cases (param_name (c ∷ seg))) [
  | inl e ↦ rw (e, compile_loop) (simp (compile_loop-segments segs, append_assoc))
  | inr (name, e) ↦ rw (e, compile_loop) (simp (compile_loop-segments segs, append_assoc))
]

prepend : List Item → Option (List Item) → Option (List Item)
prepend is none = none
prepend is (some js) = some (is ++ js)

not_special :
    (c : ℕ)
    → is_special c ≡ false
    → ((c == b'$') ≡ false) × ((c == b'\\') ≡ false) × ((b'(' == c) ≡ false)
unfolding is_special str
not_special c h = ground arith

plain_char :
    (c : ℕ) (rest : Str)
    → is_special c ≡ false
    → parse_body plain (c ∷ rest) ≡ cons_item (char c) (parse_body plain rest)
unfolding parse_body
plain_char c rest h = let (a, b, d) = not_special c h in rw (a, b, d, h)

escaped_char :
    (c : ℕ) (rest : Str)
    → is_special c ≡ true
    → parse_body plain (b'\\' ∷ c ∷ rest) ≡ cons_item (char c) (parse_body plain rest)
unfolding parse_body
escaped_char c rest h = rw h

prepend-cons :
    (i : Item) (is : List Item) (o : Option (List Item))
    → prepend (i ∷ is) o ≡ cons_item i (prepend is o)
unfolding prepend
prepend-cons i is none = refl
prepend-cons i is (some js) = refl

prepend-nil : (o : Option (List Item)) → prepend [] o ≡ o
unfolding prepend
prepend-nil none = refl
prepend-nil (some js) = refl

prepend-append :
    (is js : List Item) (o : Option (List Item)) → prepend (is ++ js) o ≡ prepend is (prepend js o)
unfolding prepend
prepend-append is js none = refl
prepend-append is js (some ks) = ap some (append_assoc is js ks)

escape_segment-parse :
    (s rest : Str)
    → parse_body plain (escape_segment s ++ rest) ≡ prepend (map char s) (parse_body plain rest)
unfolding escape_segment
escape_segment-parse [] rest = sym (prepend-nil _)
escape_segment-parse (c ∷ s) rest = elim (Bool-cases (is_special c)) [
  | inl e ↦
      rw (e, escape_segment)
        (escaped_char c _ e
          ∙ ap (cons_item (char c)) (escape_segment-parse s rest)
          ∙ sym (prepend-cons (char c) (map char s) _))
  | inr e ↦
      rw (e, escape_segment)
        (plain_char c _ e
          ∙ ap (cons_item (char c)) (escape_segment-parse s rest)
          ∙ sym (prepend-cons (char c) (map char s) _))
]

skip_zero : (s : Str) → parse_body (skip 0) s ≡ parse_body plain s
unfolding parse_body
skip_zero [] = refl
skip_zero (c ∷ s) = refl

group-parse :
    (rest : Str)
    → parse_body plain (str "([^/]+)" ++ rest) ≡ cons_item segment (parse_body plain rest)
unfolding parse_body
group-parse rest = ap (cons_item segment) (skip_zero rest)

slash-parse :
    (rest : Str)
    → parse_body plain (str "/" ++ rest) ≡ cons_item (char b'/') (parse_body plain rest)
unfolding parse_body is_special
slash-parse rest = refl

end-parse : parse_body plain (str "$") ≡ some []
unfolding parse_body
end-parse = refl

segment_text-parse :
    (g : Segment) (rest : Str)
    → parse_body plain (segment_text g ++ rest) ≡ prepend (items (g ∷ [])) (parse_body plain rest)
unfolding segment_text items
segment_text-parse (static s) rest =
    simp (append_assoc, slash-parse, escape_segment-parse, append-nil, prepend-cons)
segment_text-parse (param name) rest =
    simp (append_assoc, slash-parse, group-parse, prepend-cons, prepend-nil)

items-nil : items [] ≡ []
unfolding items
items-nil = refl

items-cons : (g : Segment) (segs : List Segment) → items (g ∷ segs) ≡ items (g ∷ []) ++ items segs
unfolding items
items-cons (static s) segs = rw append-nil
items-cons (param name) segs = refl

regex_text-parse :
    (segs : List Segment) → parse_body plain (regex_text segs ++ str "$") ≡ some (items segs)
unfolding regex_text prepend
regex_text-parse [] = end-parse ∙ ap some (sym items-nil)
regex_text-parse (g ∷ segs) =
    simp (append_assoc, segment_text-parse, regex_text-parse segs)
      (ap some (sym (items-cons g segs)))

-- For every template the text that compileRoute hands to std::regex is well formed and is read as
-- one slash and its literal characters, or one slash and the group, for each segment that is not
-- empty; and the names are those of the parameter segments, in order.
pub compile_route-parse :
    (tmpl : Str)
    → (parse (compile_route tmpl).0 ≡ some (items (segments tmpl)))
      × ((compile_route tmpl).1 ≡ names (segments tmpl))
unfolding compile_route parse
compile_route-parse tmpl =
    let e = compile_loop-segments (getline b'/' tmpl) (str "^") [] in
    rw e (regex_text-parse (segments tmpl), refl)
