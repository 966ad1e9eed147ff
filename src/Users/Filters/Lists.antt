-- ===== src/Users/Filters/Lists.antt =====
-- Lists of ids that a client joins with commas.
use adequate_api_cpp.Base.{
  ℕ, ◌^◌, ◌<◌, ◌≡◌, ◌≢◌, refl, sym, ap, ◌∙◌, true, false, ◌==◌, List, [], ◌∷◌, ◌++◌, map,
  append_assoc, append-nil, Str, getline, getline_from, All, All-map, arith, is_empty,
}
use adequate_api_cpp.Base.Decimal.{to_string, to_int64, is_digit}
use adequate_api_cpp.Base.Decimal.RoundTrip.{stoull-to_string, to_string-part}
use adequate_api_cpp.Db.SqlBuilder.{join}
use adequate_api_cpp.Users.Filters.{id_tokens, parse_ids}

==_false : (a b : ℕ) → a ≢ b → (a == b) ≡ false
==_false a b h = ground arith

getline_from-nil : getline_from b',' [] [] ≡ []
unfolding getline_from
getline_from-nil = refl

is_empty-false : (s : Str) → s ≢ [] → is_empty s ≡ false
is_empty-false [] h = absurd (h refl)
is_empty-false (c ∷ s) h = refl

-- Texts that std::getline reads as one token: not empty and without the delimiter.
abbrev IsToken : Str → Type 0
IsToken t = (t ≢ []) × All (λ c. c ≢ b',') t

getline_from-token :
    (cur t rest : Str)
    → All (λ c. c ≢ b',') t
    → getline_from b',' cur (t ++ b',' ∷ rest) ≡ (cur ++ t) ∷ getline_from b',' [] rest
unfolding getline_from
getline_from-token cur [] rest h = ap (λ s. s ∷ getline_from b',' [] rest) (sym (append-nil cur))
getline_from-token cur (c ∷ t) rest h =
    rw (==_false c b',' h.0, getline_from-token (cur ++ c ∷ []) t rest h.1)
      (ap (λ s. s ∷ getline_from b',' [] rest) (append_assoc cur (c ∷ []) t))

getline_from-end : (cur : Str) → cur ≢ [] → getline_from b',' cur [] ≡ cur ∷ []
unfolding getline_from
getline_from-end [] n = absurd (n refl)
getline_from-end (c ∷ cur) n = refl

append_cons-nonempty : (cur : Str) (c : ℕ) (t : Str) → (cur ++ c ∷ t) ≢ []
append_cons-nonempty [] c t e = cc e
append_cons-nonempty (a ∷ cur) c t e = cc e

getline_from-last :
    (cur t : Str)
    → All (λ c. c ≢ b',') t
    → (cur ++ t) ≢ []
    → getline_from b',' cur t ≡ (cur ++ t) ∷ []
unfolding getline_from
getline_from-last cur [] h n =
    rw (append-nil cur) (getline_from-end cur (λ e. n (append-nil cur ∙ e)))
getline_from-last cur (c ∷ t) h n =
    rw
      (
        ==_false c b',' h.0,
        getline_from-last (cur ++ c ∷ []) t h.1
            (λ e. append_cons-nonempty cur c t (sym (append_assoc cur (c ∷ []) t) ∙ e)),
      )
      (ap (λ s. s ∷ []) (append_assoc cur (c ∷ []) t))

-- std::getline with the delimiter comma takes apart what was joined with commas.
getline-join : (ts : List Str) → All IsToken ts → getline b',' (join (b',' ∷ []) ts) ≡ ts
unfolding getline join
getline-join [] h = getline_from-nil
getline-join (t ∷ []) h = getline_from-last [] t h.0.1 h.0.0
getline-join (t ∷ u ∷ ts) h =
    getline_from-token [] t (join (b',' ∷ []) (u ∷ ts)) h.0.1
    ∙ ap (λ l. t ∷ l) (getline-join (u ∷ ts) h.1)

digit_ne : (c : ℕ) → is_digit c ≡ true → c ≢ b','
unfolding is_digit
digit_ne c d = ground arith

digit-no_comma : (s : Str) → All (λ c. is_digit c ≡ true) s → All (λ c. c ≢ b',') s
digit-no_comma s h = All-map _ _ s (λ c d. digit_ne c d) h

ids-IsToken : (ids : List ℕ) → All IsToken (map to_string ids)
ids-IsToken [] = tt
ids-IsToken (n ∷ ids) =
    (((to_string-part n).0, digit-no_comma (to_string n) ((to_string-part n).1)), ids-IsToken ids)

id_tokens-to_string :
    (ids : List ℕ) → All (λ n. n < 2 ^ 64) ids → id_tokens (map to_string ids) ≡ map to_int64 ids
unfolding id_tokens
id_tokens-to_string [] h = refl
id_tokens-to_string (n ∷ ids) h =
    rw (is_empty-false (to_string n) ((to_string-part n).0), stoull-to_string n h.0)
      (ap (λ l. to_int64 n ∷ l) (id_tokens-to_string ids h.1))

-- A list of ids below 2^64 that is printed with commas is read back as those ids, each as the 64-bit
-- integer of its bits: from 2^63 on the id becomes negative.
parse_ids-join :
    (ids : List ℕ)
    → All (λ n. n < 2 ^ 64) ids
    → parse_ids (join (b',' ∷ []) (map to_string ids)) ≡ map to_int64 ids
unfolding parse_ids
parse_ids-join ids h =
    rw (getline-join (map to_string ids) (ids-IsToken ids)) (id_tokens-to_string ids h)
