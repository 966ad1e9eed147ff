-- ===== src/Router/Template/Matching.antt =====
-- Which paths the compiled expression matches, and what it captures.
use adequate_api_cpp.Base.{
  ℕ, ◌≡◌, ◌≢◌, refl, sym, ap, ◌∙◌, subst, ◌⊎◌, ◌↔◌, inl, inr, ◌==◌, ==_iff, List, [], ◌∷◌, ◌++◌,
  map, append_assoc, Option, none, some, Str, arith, Bool-cases, All,
}
use adequate_api_cpp.Router.Regex.{
  Item, char, segment, match_group, regex_match, cons_capture, or_else, parse,
}
use adequate_api_cpp.Router.Template.{compile_route}
use adequate_api_cpp.Router.Template.Segments.{
  Segment, static, param, segments, IsPart, Fits, fits_nil, fits_static, fits_param,
}
use adequate_api_cpp.Router.Template.Parsing.{items, compile_route-parse}

abbrev NoSlash : Str → Type 0
NoSlash = All (λ c. c ≢ b'/')

cons_capture-eq-some :
    (w : Str) (o : Option (List Str)) {ws : List Str}
    → cons_capture w o ≡ some ws
    → (ws' : List Str) × (o ≡ some ws') × (ws ≡ w ∷ ws')
cons_capture-eq-some w none h = cc
cons_capture-eq-some w (some ws') h = (ws', refl, cc)

or_else-eq-some :
    (o o' : Option (List Str)) {ws : List Str}
    → or_else o o' ≡ some ws
    → (o ≡ some ws) ⊎ (o' ≡ some ws)
or_else-eq-some (some ws) o' h = inl h
or_else-eq-some none o' h = inr h

-- What the group took, and where the rest of the expression goes on.
record Taken (k : Str → Option (List Str)) (cap s : Str) (ws : List Str) : Type 0 where
  part : Str
  rest : Str
  later : List Str
  split : s ≡ part ++ rest
  is_part : IsPart part
  matched : k rest ≡ some later
  captured : ws ≡ (cap ++ part) ∷ later

match_group_sound :
    (k : Str → Option (List Str)) (cap s : Str) (ws : List Str)
    → match_group k cap s ≡ some ws
    → Taken k cap s ws
unfolding match_group
match_group_sound k cap [] ws h = cc
match_group_sound k cap (c ∷ s) ws h = elim (Bool-cases (c == b'/')) [
  | inl e ↦ cc (rw e at h)
  | inr e ↦ elim (or_else-eq-some (match_group k (cap ++ c ∷ []) s) _ (rw e at h)) [
    | inl longer ↦
        let t = match_group_sound k (cap ++ c ∷ []) s ws longer in
        record {
          part = c ∷ t.part;
          rest = t.rest;
          later = t.later;
          split = ap (λ s. c ∷ s) t.split;
          is_part = ((λ q. cc), ((λ q. cc ((==_iff c b'/').1 q)), t.is_part.1));
          matched = t.matched;
          captured = t.captured ∙ ap (λ w. w ∷ t.later) (append_assoc cap (c ∷ []) t.part);
        }
    | inr stop ↦
        let (later, m, same) = cons_capture-eq-some _ _ stop in
        record {
          part = c ∷ [];
          rest = s;
          later = later;
          split = refl;
          is_part = ((λ q. cc), ((λ q. cc ((==_iff c b'/').1 q)), tt));
          matched = m;
          captured = same;
        }
  ]
]

-- The end of the path or a slash.
abbrev IsBound : Str → Type 0
IsBound rest = (rest ≡ []) ⊎ ((s : Str) × (rest ≡ b'/' ∷ s))

match_group-IsBound :
    (k : Str → Option (List Str)) (cap rest : Str) → IsBound rest → match_group k cap rest ≡ none
unfolding match_group
match_group-IsBound k cap rest (inl e) = rw (e, match_group)
match_group-IsBound k cap rest (inr (s, e)) = rw (e, match_group)

match_group_complete :
    (k : Str → Option (List Str)) (cap : Str) (c : ℕ) (w rest : Str) (ws : List Str)
    → NoSlash (c ∷ w)
    → IsBound rest
    → k rest ≡ some ws
    → match_group k cap ((c ∷ w) ++ rest) ≡ some ((cap ++ c ∷ w) ∷ ws)
unfolding match_group
match_group_complete k cap c [] rest ws ns bound h =
    ground (arith, match_group-IsBound k (cap ++ c ∷ []) rest bound)
match_group_complete k cap c (d ∷ w) rest ws ns bound h = ground (
  arith,
  match_group_complete k (cap ++ c ∷ []) d w rest ws ns.1 bound h,
  append_assoc cap (c ∷ []) (d ∷ w),
)

regex_match-chars :
    (s : Str) (r : List Item) (rest : Str)
    → regex_match (map char s ++ r) (s ++ rest) ≡ regex_match r rest
unfolding regex_match
regex_match-chars [] r rest = refl
regex_match-chars (c ∷ s) r rest = ground (arith, regex_match-chars s r rest)

chars_sound :
    (s : Str) (r : List Item) (path : Str) {caps : List Str}
    → regex_match (map char s ++ r) path ≡ some caps
    → (rest : Str) × (path ≡ s ++ rest) × (regex_match r rest ≡ some caps)
unfolding regex_match
chars_sound [] r path h = (path, refl, h)
chars_sound (c ∷ s) r [] h = cc
chars_sound (c ∷ s) r (d ∷ path) h = elim (Bool-cases (c == d)) [
  | inl e ↦
      let (rest, split, m) = chars_sound s r path (rw e at h) in
      (rest, cc ((==_iff c d).0 e, split), m)
  | inr e ↦ cc (rw e at h)
]

Fits-IsBound :
    {segs : List Segment} {caps : List Str} {path : Str} → Fits segs caps path → IsBound path
Fits-IsBound fits_nil = inl refl
Fits-IsBound (fits_static s f) = inr (_, refl)
Fits-IsBound (fits_param name w p f) = inr (_, refl)

nil_sound : (path : Str) {caps : List Str} → regex_match [] path ≡ some caps → Fits [] caps path
unfolding regex_match
nil_sound [] {caps} h = subst (λ cs. Fits [] cs []) (cc h) fits_nil
nil_sound (c ∷ path) h = cc

slash_sound :
    (r : List Item) (path : Str) {caps : List Str}
    → regex_match (char b'/' ∷ r) path ≡ some caps
    → (rest : Str) × (path ≡ b'/' ∷ rest) × (regex_match r rest ≡ some caps)
slash_sound r path h = chars_sound (b'/' ∷ []) r path h

group_sound :
    (r : List Item) (path : Str) (caps : List Str)
    → regex_match (segment ∷ r) path ≡ some caps
    → Taken (regex_match r) [] path caps
unfolding regex_match
group_sound r path caps h = match_group_sound (regex_match r) [] path caps h

items_sound :
    (segs : List Segment) (path : Str) (caps : List Str)
    → regex_match (items segs) path ≡ some caps
    → Fits segs caps path
unfolding items
items_sound [] path caps h = nil_sound path h
items_sound (static s ∷ segs) path caps h =
    let (after, e, m) = slash_sound (map char s ++ items segs) path h in
    let (rest, e', m') = chars_sound s (items segs) after m in
    rw (e, e') (fits_static s (items_sound segs rest caps m'))
items_sound (param name ∷ segs) path caps h =
    let (after, e, m) = slash_sound (segment ∷ items segs) path h in
    let t = group_sound (items segs) after caps m in
    rw (e, t.split, t.captured)
      (fits_param name t.part t.is_part (items_sound segs t.rest t.later t.matched))

items_complete :
    {segs : List Segment} {caps : List Str} {path : Str}
    → Fits segs caps path
    → regex_match (items segs) path ≡ some caps
unfolding items regex_match
items_complete fits_nil = refl
items_complete (fits_static {segs} {rest = rest} s f) =
    regex_match-chars s (items segs) rest ∙ items_complete f
items_complete (fits_param {segs} {caps} {rest} name [] p f) = absurd (p.0 refl)
items_complete (fits_param {segs} {caps} {rest} name (c ∷ w) p f) =
    match_group_complete (regex_match (items segs)) [] c w rest caps p.1 (Fits-IsBound f)
      (items_complete f)

-- The expression that compileRoute compiles a template to matches a path with the captures `caps`
-- exactly when the path is the template's segments in order, each behind one slash, the static ones
-- letter for letter and each parameter replaced by its capture, which is not empty and has no slash.
pub compiled_matches_iff :
    (tmpl path : Str) (r : List Item) (caps : List Str)
    → parse (compile_route tmpl).0 ≡ some r
    → (regex_match r path ≡ some caps) ↔ Fits (segments tmpl) caps path
compiled_matches_iff tmpl path r caps h =
    let e : items (segments tmpl) ≡ r = cc (sym (compile_route-parse tmpl).0 ∙ h) in
    rw (← e) (items_sound (segments tmpl) path caps, items_complete)
