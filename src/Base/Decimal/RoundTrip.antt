-- ===== src/Base/Decimal/RoundTrip.antt =====
-- Numbers that are printed and read back.
use Prim.Native.Nat.{ℕ, ◌+◌, ◌*◌, ◌/◌, ◌%◌, ◌^◌, ◌≤◌, ◌<◌}
use mathlib.Core.Path.{◌≡◌, refl, sym, ap, ◌∙◌}
use mathlib.Core.Logic.{dite}
use mathlib.Core.WellFounded.{Acc}
use mathlib.Core.Bool.{Bool, true, false}
use mathlib.Core.Option.{none, some}
use mathlib.Core.List.{[], ◌∷◌}
use native.Mathlib.Omega.{arith}
use native.Mathlib.Decide.{dec_lt}
use adequate_api_cpp.Base.Tests.{lt→ltb, ≤→ltb, lt→leb}
use mathlib.Core.Logic.{◌≢◌}
use adequate_api_cpp.Base.Text.{Str}
use adequate_api_cpp.Base.Lists.{All}
use adequate_api_cpp.Base.Decimal.{
  pos, lt_wf, emit, to_string, is_digit, read_digits, skip_spaces, read_sign, magnitude, stoull,
  stoll, stoi,
}

read_digits-digit :
    (d acc : ℕ) (s : Str) (seen : Bool)
    → d < 10
    → read_digits ((b'0' + d) ∷ s) acc seen ≡ read_digits s (acc * 10 + d) true
unfolding read_digits
read_digits-digit d acc s seen h = ground arith

read_digits-emit :
    (n : ℕ) (w : Acc ◌<◌ n) (out : Str) (seen : Bool)
    → read_digits (emit n w out) 0 seen ≡ read_digits out n true
unfolding emit
read_digits-emit n (Acc.intro _ smaller) out seen =
    elim (dec_lt 9 n)
      as (λ d.
        read_digits
          (dite d (λ h. emit (n / 10) (smaller (n / 10) (omega arith)) ((b'0' + n % 10) ∷ out))
            (λ _. (b'0' + n) ∷ out))
          0 seen
        ≡ read_digits out n true) [
          | yes h ↦
              read_digits-emit (n / 10) (smaller (n / 10) (omega arith)) ((b'0' + n % 10) ∷ out)
                seen
              ∙ read_digits-digit (n % 10) (n / 10) out true (omega arith)
              ∙ ap (λ k. read_digits out k true) (omega arith)
          | no h ↦
              read_digits-digit n 0 out seen (omega arith)
              ∙ ap (λ k. read_digits out k true) (omega arith)
        ]

-- The first character of a printed number is a digit.
emit-digit :
    (n : ℕ) (w : Acc ◌<◌ n) (out : Str)
    → (c : ℕ) × (rest : Str) × (emit n w out ≡ c ∷ rest) × (is_digit c ≡ true)
unfolding emit is_digit
emit-digit n (Acc.intro _ smaller) out =
    elim (dec_lt 9 n)
      as (λ d.
        (c : ℕ) × (rest : Str) × (dite d
            (λ h. emit (n / 10) (smaller (n / 10) (omega arith)) ((b'0' + n % 10) ∷ out))
            (λ _. (b'0' + n) ∷ out)
          ≡ c ∷ rest)
        × (is_digit c ≡ true)) [
          | yes h ↦ emit-digit (n / 10) (smaller (n / 10) (omega arith)) ((b'0' + n % 10) ∷ out)
          | no h ↦ (b'0' + n, out, refl, ground arith)
        ]

skip_spaces-digit : (c : ℕ) (s : Str) → is_digit c ≡ true → skip_spaces (c ∷ s) ≡ c ∷ s
unfolding skip_spaces is_digit
skip_spaces-digit c s h = ground arith

read_sign-digit : (c : ℕ) (s : Str) → is_digit c ≡ true → read_sign (c ∷ s) ≡ (false, c ∷ s)
unfolding read_sign is_digit
read_sign-digit c s h = ground arith

magnitude-digit :
    (c : ℕ) (s : Str) → is_digit c ≡ true → magnitude (c ∷ s) ≡ (false, read_digits (c ∷ s) 0 false)
unfolding magnitude
magnitude-digit c s h = rw (skip_spaces-digit c s h, read_sign-digit c s h)

-- A text that starts with a digit is read from its first character.
pub magnitude-unsigned :
    (s : Str)
    → (c : ℕ) × (rest : Str) × (s ≡ c ∷ rest) × (is_digit c ≡ true)
    → magnitude s ≡ (false, read_digits s 0 false)
magnitude-unsigned s (c, rest, e, d) = rw e (magnitude-digit c rest d)

magnitude-emit : (n : ℕ) (w : Acc ◌<◌ n) → magnitude (emit n w []) ≡ (false, some n)
unfolding read_digits
magnitude-emit n w =
    magnitude-unsigned (emit n w []) (emit-digit n w [])
    ∙ ap (λ o. (false, o)) (read_digits-emit n w [] false)

magnitude-to_string : (n : ℕ) → magnitude (to_string n) ≡ (false, some n)
unfolding to_string
magnitude-to_string n = magnitude-emit n (lt_wf.apply n)

-- std::stoi reads what std::to_string printed, up to the greatest int.
pub stoi-to_string : (n : ℕ) → n < 2 ^ 31 → stoi (to_string n) ≡ some (pos n)
unfolding stoi
stoi-to_string n h = rw (magnitude-to_string n, lt→ltb n (2 ^ 31) h)

pub stoi-to_string_large : (n : ℕ) → 2 ^ 31 ≤ n → stoi (to_string n) ≡ none
unfolding stoi
stoi-to_string_large n h = rw (magnitude-to_string n, ≤→ltb n (2 ^ 31) h)

-- std::stoull reads every 64-bit number that was printed.
pub stoull-to_string : (n : ℕ) → n < 2 ^ 64 → stoull (to_string n) ≡ some n
unfolding stoull
stoull-to_string n h = rw (magnitude-to_string n, lt→leb n (2 ^ 64) h)

pub stoll-to_string : (n : ℕ) → n < 2 ^ 63 → stoll (to_string n) ≡ some (pos n)
unfolding stoll
stoll-to_string n h = rw (magnitude-to_string n, lt→ltb n (2 ^ 63) h)

-- The characters of a printed number are digits.
emit-digits :
    (n : ℕ) (w : Acc ◌<◌ n) (out : Str)
    → All (λ c. is_digit c ≡ true) out
    → All (λ c. is_digit c ≡ true) (emit n w out)
unfolding emit is_digit
emit-digits n (Acc.intro _ smaller) out h =
    elim (dec_lt 9 n)
      as (λ d.
        All (λ c. is_digit c ≡ true)
          (dite d (λ h. emit (n / 10) (smaller (n / 10) (omega arith)) ((b'0' + n % 10) ∷ out))
            (λ _. (b'0' + n) ∷ out))) [
              | yes big ↦
                  emit-digits (n / 10) (smaller (n / 10) (omega arith)) ((b'0' + n % 10) ∷ out)
                    (ground arith, h)
              | no small ↦ (ground arith, h)
            ]

-- A printed number is not empty.
starts-nonempty : (s : Str) → (c : ℕ) × (rest : Str) × (s ≡ c ∷ rest) × (is_digit c ≡ true) → s ≢ []
starts-nonempty s (c, rest, e, d) n = cc (sym e ∙ n)

pub to_string-part : (n : ℕ) → (to_string n ≢ []) × All (λ c. is_digit c ≡ true) (to_string n)
unfolding to_string
to_string-part n =
    (starts-nonempty _ (emit-digit n (lt_wf.apply n) []), emit-digits n (lt_wf.apply n) [] tt)
