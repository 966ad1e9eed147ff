-- ===== src/Core/Datetime/RoundTrip.antt =====
-- A timestamp of the database that is printed again.
use adequate_api_cpp.Base.{
  ℕ, zero, suc, ◌+◌, ◌-◌, ◌*◌, ◌/◌, ◌%◌, ◌^◌, ◌<◌, ◌≡◌, refl, sym, ap, ◌∙◌, subst, [], ◌∷◌, ◌++◌,
  length, some, Str, str, ok, arith, Bool-cases, inl, inr, lt→ltb, ◌==◌,
}
use adequate_api_cpp.Base.Decimal.{ℤ, pos, negsuc, to_string, is_digit}
use adequate_api_cpp.Base.Decimal.Padded.{
  padded, value_of, AreDigits, padded-value_of, stoi-value_of, scale, value_of-scale,
}
use adequate_api_cpp.Core.Datetime.{
  Calendar, IsCalendar, take_digits, fraction, resized, read_int, micros_of, time_point, negated,
  seconds_of, positive_rest, printed_rest, parse_pg_timestamp, to_iso_string,
}

take_digits-AreDigits : (s : Str) → AreDigits (take_digits s)
unfolding take_digits
take_digits-AreDigits [] = tt
take_digits-AreDigits (c ∷ s) = elim (Bool-cases (is_digit c)) [
  | inl y ↦ rw y (y, take_digits-AreDigits s)
  | inr n ↦ rw n tt
]

fraction-AreDigits : (s : Str) → AreDigits (fraction s)
unfolding fraction
fraction-AreDigits [] = tt
fraction-AreDigits (c ∷ s) = elim (Bool-cases (c == b'.')) [
  | inl y ↦ rw y (take_digits-AreDigits s)
  | inr n ↦ rw n tt
]

resized-AreDigits : (n : ℕ) (s : Str) → AreDigits s → AreDigits (resized n s)
unfolding resized is_digit
resized-AreDigits zero s k = tt
resized-AreDigits (suc n) [] k = (refl, resized-AreDigits n [] tt)
resized-AreDigits (suc n) (c ∷ s) k = (k.0, resized-AreDigits n s k.1)

length-resized : (n : ℕ) (s : Str) → length (resized n s) ≡ n
unfolding resized
length-resized zero s = refl
length-resized (suc n) [] = ap suc (length-resized n [])
length-resized (suc n) (c ∷ s) = ap suc (length-resized n s)

-- The six digits that a fraction is read as; without one they are zeros.
abbrev pub six : Str → Str
six rest = resized 6 (fraction rest)

six-AreDigits : (rest : Str) → AreDigits (six rest)
six-AreDigits rest = resized-AreDigits 6 (fraction rest) (fraction-AreDigits rest)

six-small : (rest : Str) → value_of 0 (six rest) < 10 ^ 6
six-small rest =
    subst (λ n. value_of 0 (six rest) < scale 1 n) (length-resized 6 (fraction rest))
      (value_of-scale (six rest) (six-AreDigits rest))

read-six :
    (f : Str)
    → AreDigits (resized 6 f)
    → value_of 0 (resized 6 f) < 10 ^ 6
    → micros_of f ≡ ok (value_of 0 (resized 6 f))
unfolding micros_of resized
read-six [] k h = refl
read-six (c ∷ f) k h = ap read_int (stoi-value_of c (resized 5 f) k (omega (arith, h)))

micros_of-six : (rest : Str) → micros_of (fraction rest) ≡ ok (value_of 0 (six rest))
micros_of-six rest = read-six (fraction rest) (six-AreDigits rest) (six-small rest)

padded-digits :
    (n : ℕ) (s : Str)
    → length s ≡ suc n
    → AreDigits s
    → padded (suc n) (to_string (value_of 0 s)) ≡ s
padded-digits n [] h k = cc h
padded-digits n (c ∷ s) h k =
    ap (λ w. padded w (to_string (value_of 0 (c ∷ s)))) (sym h) ∙ padded-value_of c s k

padded-six : (rest : Str) → padded 6 (to_string (value_of 0 (six rest))) ≡ six rest
padded-six rest = padded-digits 5 (six rest) (length-resized 6 (fraction rest)) (six-AreDigits rest)

-- A fraction as it is printed: nothing if it is zero.
abbrev pub shown : ℕ → Str → Str
shown zero digits = []
shown (suc n) digits = str "." ++ digits

printed_rest-shown :
    (m : ℕ) (digits : Str) → padded 6 (to_string m) ≡ digits → printed_rest m ≡ shown m digits
printed_rest-shown zero digits h = refl
printed_rest-shown (suc m) digits h = ap (λ s. str "." ++ s) h

module _ (C : Calendar) (law : IsCalendar C) where
  -- The time point of a timestamp that get_time reads.
  parse-time_point :
      (s rest : Str) (tm : C.Tm)
      → C.get_time s ≡ some (tm, rest)
      → parse_pg_timestamp C s ≡ ok (time_point (C.timegm tm) (value_of 0 (six rest)))
  unfolding parse_pg_timestamp
  parse-time_point s rest tm h = rw (h, micros_of-six rest) refl

  iso-after :
      (tm : C.Tm) (t m : ℕ) (digits : Str)
      → law.IsNormal tm
      → C.timegm tm ≡ pos t
      → m < 10 ^ 6
      → padded 6 (to_string m) ≡ digits
      → to_iso_string C (time_point (C.timegm tm) m) ≡ C.format tm ++ (shown m digits ++ str "Z")
  unfolding to_iso_string time_point seconds_of positive_rest
  iso-after tm t m digits n e h p =
      let second : (t * 10 ^ 6 + m) / 10 ^ 6 ≡ t = omega arith in
      let micros : (t * 10 ^ 6 + m) % 10 ^ 6 ≡ m = omega arith in
      let back : C.gmtime (pos t) ≡ tm = ap C.gmtime (sym e) ∙ law.gmtime-timegm tm n in
      rw (e, second, micros, back, printed_rest-shown m digits p) refl

  iso-before :
      (tm : C.Tm) (t m : ℕ)
      → C.timegm tm ≡ negsuc t
      → 0 < m
      → m < 10 ^ 6
      → to_iso_string C (time_point (C.timegm tm) m) ≡ C.format (C.gmtime (negated t)) ++ str "Z"
  unfolding to_iso_string time_point seconds_of positive_rest
  iso-before tm t m e p h =
      let second : suc (suc t * 10 ^ 6 - m - 1) / 10 ^ 6 ≡ t = omega arith in
      rw (e, lt→ltb m (suc t * 10 ^ 6) (omega arith), second) refl

  -- A timestamp that get_time reads as `tm` is parsed, whatever follows its fraction. From the epoch
  -- on it is printed as `tm` with the fraction in six digits, truncated or with zeros behind it, or
  -- without a fraction if that is zero. Before the epoch, with a fraction that is not zero, it is
  -- printed as the next second, without a fraction.
  pub to_iso-parse :
      (s rest : Str) (tm : C.Tm)
      → C.get_time s ≡ some (tm, rest)
      → law.IsNormal tm
      → (tp : ℤ) × (parse_pg_timestamp C s ≡ ok tp)
        × ((t : ℕ)
            → C.timegm tm ≡ pos t
            → to_iso_string C tp
              ≡ C.format tm ++ (shown (value_of 0 (six rest)) (six rest) ++ str "Z"))
        × ((t : ℕ)
            → C.timegm tm ≡ negsuc t
            → 0 < value_of 0 (six rest)
            → to_iso_string C tp ≡ C.format (C.gmtime (negated t)) ++ str "Z")
  to_iso-parse s rest tm h n = (
    time_point (C.timegm tm) (value_of 0 (six rest)),
    parse-time_point s rest tm h,
    λ t e. iso-after tm t (value_of 0 (six rest)) (six rest) n e (six-small rest) (padded-six rest),
    λ t e p. iso-before tm t (value_of 0 (six rest)) e p (six-small rest),
  )
