-- ===== src/Core/Datetime.antt =====
-- helpers/DatetimeConverter.h over the calendar of the C library. A time point is its number of
-- microseconds from the epoch.
pub mod RoundTrip
use adequate_api_cpp.Base.{
  ℕ, zero, suc, ◌+◌, ◌-◌, ◌*◌, ◌/◌, ◌%◌, ◌^◌, ltb, ◌≡◌, Bool, true, false, if◌then◌else◌, List, [],
  ◌∷◌, ◌++◌, Option, none, some, Str, str, ◌==◌, Result, ok, throw, std_error, bind_result,
}
use adequate_api_cpp.Base.Decimal.{ℤ, pos, negsuc, to_string, is_digit, stoi}
use adequate_api_cpp.Base.Decimal.Padded.{padded}

-- std::get_time with "%Y-%m-%d %H:%M:%S", which leaves what follows; timegm and gmtime_r; and
-- strftime with "%Y-%m-%dT%H:%M:%S".
pub record Calendar : Type 1 where
  pub Tm : Type 0
  pub get_time : Str → Option (Tm × Str)
  pub timegm : Tm → ℤ
  pub gmtime : ℤ → Tm
  pub format : Tm → Str

-- What gmtime gives is what timegm was given, for a broken-down time whose fields are in their
-- ranges.
pub record IsCalendar (C : Calendar) : Type 1 where
  pub IsNormal : C.Tm → Type 0
  pub gmtime-timegm : (tm : C.Tm) → IsNormal tm → C.gmtime (C.timegm tm) ≡ tm

-- The digits that a text starts with.
unfoldable pub take_digits : Str → Str
take_digits [] = []
take_digits (c ∷ s) = let rest = take_digits s in if is_digit c then c ∷ rest else []

-- The digits of the fraction, if there is a point.
unfoldable pub fraction : Str → Str
unfolding take_digits
fraction [] = []
fraction (c ∷ s) = let rest = take_digits s in if c == b'.' then rest else []

-- frac.resize(6) if it is longer, and zeros to six digits if it is shorter
unfoldable pub resized : ℕ → Str → Str
resized zero s = []
resized (suc n) [] = b'0' ∷ resized n []
resized (suc n) (c ∷ s) = c ∷ resized n s

-- The int that std::stoi reads of up to six digits.
abbrev pub read_int : Option ℤ → Result ℕ
read_int (some (pos n)) = ok n
read_int (some (negsuc n)) = throw (std_error (str "stoi"))
read_int none = throw (std_error (str "stoi"))

unfoldable pub micros_of : Str → Result ℕ
unfolding resized
micros_of [] = ok 0
micros_of (c ∷ s) = read_int (stoi (resized 6 (c ∷ s)))

-- system_clock::from_time_t(tt) + microseconds(micros)
unfoldable pub time_point : ℤ → ℕ → ℤ
time_point (pos t) micros = pos (t * 10 ^ 6 + micros)
time_point (negsuc t) micros =
    if ltb micros (suc t * 10 ^ 6)
    then negsuc (suc t * 10 ^ 6 - micros - 1)
    else pos (micros - suc t * 10 ^ 6)

-- time_point_cast<seconds>, which rounds toward zero
abbrev pub negated : ℕ → ℤ
negated zero = pos 0
negated (suc n) = negsuc n

unfoldable pub seconds_of : ℤ → ℤ
seconds_of (pos n) = pos (n / 10 ^ 6)
seconds_of (negsuc n) = negated (suc n / 10 ^ 6)

-- The microseconds that are printed: those that are left, if they are positive.
unfoldable pub positive_rest : ℤ → ℕ
positive_rest (pos n) = n % 10 ^ 6
positive_rest (negsuc n) = 0

abbrev pub printed_rest : ℕ → Str
printed_rest zero = []
printed_rest (suc n) = str "." ++ padded 6 (to_string (suc n))

module _ (C : Calendar) where
  abbrev pub parsed : Str → Option (C.Tm × Str) → Result ℤ
  parsed s none = throw (std_error (str "Failed to parse timestamp: " ++ s))
  parsed s (some (tm, rest)) =
      bind_result (micros_of (fraction rest)) λ micros. ok (time_point (C.timegm tm) micros)

  unfoldable pub parse_pg_timestamp : Str → Result ℤ
  unfolding micros_of fraction time_point
  parse_pg_timestamp s = parsed s (C.get_time s)

  unfoldable pub to_iso_string : ℤ → Str
  unfolding seconds_of positive_rest
  to_iso_string tp =
      C.format (C.gmtime (seconds_of tp)) ++ (printed_rest (positive_rest tp) ++ str "Z")
