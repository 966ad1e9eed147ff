-- ===== src/Base/Decimal.antt =====
-- Decimal numbers of the C++ library: std::to_string, std::stoull, std::stoll and std::stoi.
pub mod RoundTrip
pub mod Padded
use Prim.Native.Nat.{ℕ, zero, suc, ◌+◌, ◌-◌, ◌*◌, ◌/◌, ◌%◌, ◌^◌, ◌≤◌, ◌<◌}
use mathlib.Core.Path.{◌≡◌, refl, sym, ap, ◌∙◌}
use mathlib.Core.Logic.{dite, dif_pos, dif_neg}
use mathlib.Core.WellFounded.{Acc, WellFounded}
use mathlib.Core.Bool.{Bool, true, false, ◌&&◌, ◌||◌}
use mathlib.Core.Option.{Option, none, some}
use mathlib.Core.List.{List, [], ◌∷◌, ◌++◌}
use native.Mathlib.Omega.{arith}
use native.Mathlib.Decide.{dec_lt}
use adequate_api_cpp.Base.Tests.{◌==◌, ltb, leb, if◌then◌else◌}
use adequate_api_cpp.Base.Text.{Str}

pub data ℤ : Type 0 where
  pos : ℕ → ℤ
  negsuc : ℕ → ℤ

Acc-below : (k n : ℕ) → n < k → Acc ◌<◌ n
Acc-below zero n h = elim h [ ]
Acc-below (suc k) n h = Acc.intro n (λ m hm. Acc-below k m (omega arith))

unfoldable pub lt_wf : WellFounded ◌<◌
unfolding Acc-below
lt_wf = record { apply = λ n. Acc-below (suc n) n (omega arith) }

-- The digits of n before those in `out`, by repeated division.
unfoldable pub emit : (n : ℕ) → Acc ◌<◌ n → Str → Str
emit n (Acc.intro _ smaller) out =
    dite (dec_lt 9 n) (λ h. emit (n / 10) (smaller (n / 10) (omega arith)) ((b'0' + n % 10) ∷ out))
      (λ _. (b'0' + n) ∷ out)

unfoldable pub to_string : ℕ → Str
unfolding emit lt_wf dec_lt
to_string n = emit n (lt_wf.apply n) []

unfoldable pub to_string_ℤ : ℤ → Str
to_string_ℤ (pos n) = to_string n
to_string_ℤ (negsuc n) = b'-' ∷ to_string (suc n)

unfoldable pub is_digit : ℕ → Bool
is_digit c = leb b'0' c && leb c b'9'

-- std::isspace in the C locale
unfoldable pub is_space : ℕ → Bool
is_space c = c == 32 || leb 9 c && leb c 13

-- The value of the digits that s starts with, after those read so far, and whether there was one.
unfoldable pub read_digits : Str → ℕ → Bool → Option ℕ
unfolding is_digit
read_digits [] acc seen = if seen then some acc else none
read_digits (c ∷ s) acc seen =
    let more = read_digits s (acc * 10 + (c - b'0')) true in
    if is_digit c then more else if seen then some acc else none

unfoldable pub skip_spaces : Str → Str
unfolding is_space
skip_spaces [] = []
skip_spaces (c ∷ s) = let rest = skip_spaces s in if is_space c then rest else c ∷ s

-- The sign, true for minus, and the text after it.
unfoldable pub read_sign : Str → Bool × Str
read_sign [] = (false, [])
read_sign (c ∷ s) =
    if c == b'-' then (true, s) else if c == b'+' then (false, s) else (false, c ∷ s)

unfoldable pub magnitude : Str → Bool × Option ℕ
unfolding skip_spaces read_sign read_digits
magnitude s = let (minus, rest) = read_sign (skip_spaces s) in (minus, read_digits rest 0 false)

-- std::stoull: `none` where it throws, std::invalid_argument or std::out_of_range. A minus sign
-- negates the result in 64 bits.
abbrev unsigned_of : Bool × Option ℕ → Option ℕ
unsigned_of (minus, none) = none
unsigned_of (minus, some n) =
    if leb (2 ^ 64) n then none else some (if minus then (2 ^ 64 - n) % 2 ^ 64 else n)

unfoldable pub stoull : Str → Option ℕ
unfolding magnitude
stoull s = unsigned_of (magnitude s)

-- std::stoll at 64 bits, and std::stoi at 32.
abbrev signed_of : ℕ → Bool × Option ℕ → Option ℤ
signed_of half (minus, none) = none
signed_of half (false, some n) = if ltb n half then some (pos n) else none
signed_of half (true, some zero) = some (pos 0)
signed_of half (true, some (suc n)) = if ltb n half then some (negsuc n) else none

unfoldable pub stoll : Str → Option ℤ
unfolding magnitude
stoll s = signed_of (2 ^ 63) (magnitude s)

unfoldable pub stoi : Str → Option ℤ
unfolding magnitude
stoi s = signed_of (2 ^ 31) (magnitude s)

-- A 64-bit pattern read as std::int64_t.
unfoldable pub to_int64 : ℕ → ℤ
to_int64 n = if ltb n (2 ^ 63) then pos n else negsuc (2 ^ 64 - 1 - n)

to_string_tests :
    (to_string 0 ≡ b'0' ∷ [])
    × (to_string 907 ≡ b'9' ∷ b'0' ∷ b'7' ∷ [])
    × (stoull (b' ' ∷ b'4' ∷ b'2' ∷ b'x' ∷ []) ≡ some 42)
    × (stoull (b'-' ∷ b'1' ∷ []) ≡ some (2 ^ 64 - 1))
    × (stoi (b'-' ∷ b'7' ∷ []) ≡ some (negsuc 6))
    × (stoi [] ≡ none)
unfolding to_string stoull stoi
to_string_tests = (refl, refl, refl, refl, refl, refl)
