-- ===== src/Router/Regex.antt =====
-- std::regex in the ECMAScript grammar, as far as Router::compileRoute writes it: anchors,
-- characters, escaped characters and the group `([^/]+)`. Any other text is refused.
use adequate_api_cpp.Base.{
  ℕ, suc, Bool, if◌then◌else◌, ◌==◌, List, [], ◌∷◌, ◌++◌, Option, none, some, Str, str, starts_with,
  any, is_empty,
}

pub data Item : Type 0 where
  char : ℕ → Item
  segment : Item

-- the characters that compileRoute escapes
abbrev pub specials : Str
specials = str "\\.^$|()[]{}*+?!"

unfoldable pub is_special : ℕ → Bool
unfolding str
is_special c = any (λ d. d == c) specials

pub data Mode : Type 0 where
  plain escaped : Mode
  skip : ℕ → Mode

abbrev pub cons_item : Item → Option (List Item) → Option (List Item)
cons_item i none = none
cons_item i (some is) = some (i ∷ is)

-- What stands between the anchors. After the first character of a group its other six are skipped.
unfoldable pub parse_body : Mode → Str → Option (List Item)
unfolding str starts_with
parse_body m [] = none
parse_body (skip (suc k)) (c ∷ s) = parse_body (skip k) s
parse_body escaped (c ∷ s) =
    let rest = parse_body plain s in if is_special c then cons_item (char c) rest else none
parse_body m (c ∷ s) =
    let group = parse_body (skip 6) s in
    let literal = parse_body escaped s in
    let rest = parse_body plain s in
    if c == b'$'
    then if is_empty s then some [] else none
    else if c == b'\\'
    then literal
    else if starts_with (str "([^/]+)") (c ∷ s)
    then cons_item segment group
    else if is_special c
    then none
    else cons_item (char c) rest

-- the constructor std::regex(s)
unfoldable pub parse : Str → Option (List Item)
unfolding parse_body
parse [] = none
parse (c ∷ s) = if c == b'^' then parse_body plain s else none

abbrev pub cons_capture : Str → Option (List Str) → Option (List Str)
cons_capture w none = none
cons_capture w (some ws) = some (w ∷ ws)

abbrev pub or_else : Option (List Str) → Option (List Str) → Option (List Str)
or_else (some ws) o = some ws
or_else none o = o

-- The greedy group: it has taken `cap`, and takes as many more characters as it can so that k
-- matches what is left.
unfoldable pub match_group : (Str → Option (List Str)) → Str → Str → Option (List Str)
match_group k cap [] = none
match_group k cap (c ∷ s) =
    let longer = match_group k (cap ++ c ∷ []) s in
    let stop = cons_capture (cap ++ c ∷ []) (k s) in if c == b'/' then none else or_else longer stop

-- std::regex_match: the captures of a match of the whole text.
unfoldable pub regex_match : List Item → Str → Option (List Str)
unfolding match_group
regex_match [] [] = some []
regex_match [] (c ∷ s) = none
regex_match (char a ∷ r) [] = none
regex_match (char a ∷ r) (c ∷ s) = if a == c then regex_match r s else none
regex_match (segment ∷ r) s = match_group (regex_match r) [] s
