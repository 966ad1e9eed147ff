-- ===== src/Base/Decimal/Padded.antt =====
-- Digits that are read as a number and printed again to a width, as with std::setfill('0') and
-- std::setw.
use Prim.Native.Nat.{ℕ, zero, suc, ◌+◌, ◌-◌, ◌*◌, ◌/◌, ◌%◌, ◌^◌, ◌<◌}
use mathlib.Core.Path.{◌≡◌, refl, sym, ap, ◌∙◌, subst}
use mathlib.Core.Logic.{dite}
use mathlib.Core.WellFounded.{Acc}
use mathlib.Core.Bool.{true, false}
use mathlib.Core.Option.{some}
use mathlib.Core.List.{[], ◌∷◌, ◌++◌, append_assoc, append-nil}
use native.Mathlib.Omega.{arith}
use native.Mathlib.Decide.{dec_lt}
use adequate_api_cpp.Base.Text.{Str}
use adequate_api_cpp.Base.Lists.{All, length, length-append}
use adequate_api_cpp.Base.Decimal.{lt_wf, emit, to_string, is_digit, read_digits, stoi, pos}
use adequate_api_cpp.Base.Decimal.RoundTrip.{magnitude-unsigned}
use adequate_api_cpp.Base.Tests.{lt→ltb}

abbrev pub zeros : ℕ → Str
zeros zero = []
zeros (suc n) = b'0' ∷ zeros n

abbrev pub padded : ℕ → Str → Str
padded width s = zeros (width - length s) ++ s

-- The value of digits behind those read so far.
abbrev pub value_of : ℕ → Str → ℕ
value_of a [] = a
value_of a (c ∷ s) = value_of (a * 10 + (c - b'0')) s

abbrev pub AreDigits : Str → Type 0
AreDigits s = All (λ c. is_digit c ≡ true) s

to_string-emit : (n : ℕ) → to_string n ≡ emit n (lt_wf.apply n) []
unfolding to_string
to_string-emit n = refl

digit-value : (c : ℕ) → is_digit c ≡ true → (d : ℕ) × (c ≡ b'0' + d) × (d < 10)
unfolding is_digit
digit-value c h = (c - b'0', ground arith, ground arith)

emit-append : (n : ℕ) (w w' : Acc ◌<◌ n) (out : Str) → emit n w out ≡ emit n w' [] ++ out
unfolding emit
emit-append n (Acc.intro _ f) (Acc.intro _ g) out =
    elim (dec_lt 9 n)
      as (λ d.
        dite d (λ h. emit (n / 10) (f (n / 10) (omega arith)) ((b'0' + n % 10) ∷ out))
          (λ _. (b'0' + n) ∷ out)
        ≡ dite d (λ h. emit (n / 10) (g (n / 10) (omega arith)) ((b'0' + n % 10) ∷ []))
            (λ _. (b'0' + n) ∷ [])
          ++ out) [
            | yes h ↦
                let c = b'0' + n % 10 in
                let w' = g (n / 10) (omega arith) in
                emit-append (n / 10) (f (n / 10) (omega arith)) (g (n / 10) (omega arith)) (c ∷ out)
                ∙ (sym (append_assoc (emit (n / 10) w' []) (c ∷ []) out)
                    ∙ ap (λ s. s ++ out)
                        (sym (
                          emit-append (n / 10) (g (n / 10) (omega arith)) (g (n / 10) (omega arith))
                            (c ∷ []))))
            | no h ↦ refl
          ]

emit-at : (m a : ℕ) (w : Acc ◌<◌ m) (v : Acc ◌<◌ a) → m ≡ a → emit m w [] ≡ emit a v []
emit-at m a w v e =
    subst (λ k. (u : Acc ◌<◌ k) → emit m w [] ≡ emit k u []) e
      (λ u. emit-append m w u [] ∙ append-nil (emit m u [])) v

emit-big :
    (n : ℕ) (w : Acc ◌<◌ n)
    → 9 < n
    → (v : Acc ◌<◌ (n / 10)) → emit n w [] ≡ emit (n / 10) v [] ++ (b'0' + n % 10) ∷ []
unfolding emit
emit-big n (Acc.intro _ f) =
    elim (dec_lt 9 n)
      as (λ x.
        9 < n
        → (v : Acc ◌<◌ (n / 10))
        → dite x (λ h. emit (n / 10) (f (n / 10) (omega arith)) ((b'0' + n % 10) ∷ []))
            (λ _. (b'0' + n) ∷ [])
          ≡ emit (n / 10) v [] ++ (b'0' + n % 10) ∷ []) [
            | yes big ↦
                λ _ v. emit-append (n / 10) (f (n / 10) (omega arith)) v ((b'0' + n % 10) ∷ [])
            | no small ↦ λ h v. elim (small h) [ ]
          ]

emit-small : (n : ℕ) (w : Acc ◌<◌ n) → n < 10 → emit n w [] ≡ (b'0' + n) ∷ []
unfolding emit
emit-small n (Acc.intro _ f) =
    elim (dec_lt 9 n)
      as (λ x.
        n < 10
        → dite x (λ h. emit (n / 10) (f (n / 10) (omega arith)) ((b'0' + n % 10) ∷ []))
            (λ _. (b'0' + n) ∷ [])
          ≡ (b'0' + n) ∷ []) [ yes big ↦ λ h. absurd (omega arith) | no small ↦ λ h. refl ]

emit-snoc :
    (n a d : ℕ)
    → n ≡ a * 10 + d
    → 0 < a
    → d < 10
    → emit n (lt_wf.apply n) [] ≡ emit a (lt_wf.apply a) [] ++ (b'0' + d) ∷ []
emit-snoc n a d e h k =
    let u = lt_wf.apply (n / 10) in
    let rest = emit-at (n / 10) a u (lt_wf.apply a) (omega arith) in
    let same : n % 10 ≡ d = omega arith in
    emit-big n (lt_wf.apply n) (omega arith) u
    ∙ (ap (λ s. s ++ (b'0' + n % 10) ∷ []) rest
        ∙ ap (λ x. emit a (lt_wf.apply a) [] ++ (b'0' + x) ∷ []) same)

-- One more digit behind a number that is not zero.
to_string-snoc :
    (a d : ℕ) → 0 < a → d < 10 → to_string (a * 10 + d) ≡ to_string a ++ (b'0' + d) ∷ []
to_string-snoc a d h k =
    to_string-emit (a * 10 + d)
    ∙ (emit-snoc (a * 10 + d) a d refl h k
        ∙ ap (λ s. s ++ (b'0' + d) ∷ []) (sym (to_string-emit a)))

to_string-value_of :
    (a : ℕ) (s : Str) → 0 < a → AreDigits s → to_string (value_of a s) ≡ to_string a ++ s
to_string-value_of a [] h k = sym (append-nil (to_string a))
to_string-value_of a (c ∷ s) h k =
    let (d, e, small) = digit-value c k.0 in
    to_string-value_of (a * 10 + (c - b'0')) s (omega arith) k.1
    ∙ (ap (λ t. t ++ s) (snoc d e small) ∙ append_assoc (to_string a) (c ∷ []) s)
  where
    snoc : (d : ℕ) → c ≡ b'0' + d → d < 10 → to_string (a * 10 + (c - b'0')) ≡ to_string a ++ c ∷ []
    snoc d e small =
        ap (λ x. to_string (a * 10 + x)) (omega arith)
        ∙ (to_string-snoc a d h small ∙ ap (λ x. to_string a ++ x ∷ []) (sym e))

to_string-digit : (d : ℕ) → d < 10 → to_string d ≡ (b'0' + d) ∷ []
to_string-digit d h = to_string-emit d ∙ emit-small d (lt_wf.apply d) h

-- Digits are zeros before the printed number.
abbrev Zeroed : Str → Type 0
Zeroed s = (z : ℕ) × (zeros z ++ to_string (value_of 0 s) ≡ s)

last-Zeroed : (c d : ℕ) → c ≡ b'0' + d → d < 10 → Zeroed (c ∷ [])
last-Zeroed c d e small =
    (0, ap to_string (omega arith) ∙ (to_string-digit d small ∙ ap (λ x. x ∷ []) (sym e)))

first-Zeroed : (c d : ℕ) (s : Str) → c ≡ b'0' + d → d < 10 → AreDigits s → Zeroed s → Zeroed (c ∷ s)
first-Zeroed c zero s e small k (z, h) = (
  suc z,
  ap (λ x. b'0' ∷ zeros z ++ to_string (value_of x s)) (omega arith)
      ∙ (ap (λ t. b'0' ∷ t) h ∙ ap (λ x. x ∷ s) (sym e)),
)
first-Zeroed c (suc d) s e small k h = (
  0,
  ap (λ x. to_string (value_of x s)) (omega arith)
      ∙ (to_string-value_of (suc d) s (omega arith) k
          ∙ (ap (λ t. t ++ s) (to_string-digit (suc d) small) ∙ ap (λ x. x ∷ s) (sym e))),
)

digits-Zeroed : (c : ℕ) (s : Str) → AreDigits (c ∷ s) → Zeroed (c ∷ s)
digits-Zeroed c [] k = let (d, e, small) = digit-value c k.0 in last-Zeroed c d e small
digits-Zeroed c (c' ∷ s) k =
    let (d, e, small) = digit-value c k.0 in
    first-Zeroed c d (c' ∷ s) e small k.1 (digits-Zeroed c' s k.1)

length-zeros : (z : ℕ) → length (zeros z) ≡ z
length-zeros zero = refl
length-zeros (suc z) = ap suc (length-zeros z)

-- A number that is read from digits and printed to their width is the digits.
pub padded-value_of :
    (c : ℕ) (s : Str)
    → AreDigits (c ∷ s)
    → padded (length (c ∷ s)) (to_string (value_of 0 (c ∷ s))) ≡ c ∷ s
padded-value_of c s k =
    let (z, h) = digits-Zeroed c s k in
    let printed = to_string (value_of 0 (c ∷ s)) in
    let sizes : length (c ∷ s) ≡ z + length printed =
      ap length (sym h)
      ∙ (length-append (zeros z) printed ∙ ap (λ n. n + length printed) (length-zeros z)) in
    ap (λ n. zeros n ++ printed) (omega (arith, sizes)) ∙ h

-- Digits are read to their value.
pub read_digits-value_of :
    (s : Str) (a : ℕ) → AreDigits s → read_digits s a true ≡ some (value_of a s)
unfolding read_digits
read_digits-value_of [] a k = refl
read_digits-value_of (c ∷ s) a k = rw (k.0) (read_digits-value_of s (a * 10 + (c - b'0')) k.1)

abbrev pub scale : ℕ → ℕ → ℕ
scale m zero = m
scale m (suc n) = scale (m * 10) n

value_of-bound : (s : Str) (a m : ℕ) → AreDigits s → a < m → value_of a s < scale m (length s)
value_of-bound [] a m k h = h
value_of-bound (c ∷ s) a m k h =
    let (d, e, small) = digit-value c k.0 in
    value_of-bound s (a * 10 + (c - b'0')) (m * 10) k.1 (omega arith)

-- Digits have a value below the power of ten with their number.
pub value_of-scale : (s : Str) → AreDigits s → value_of 0 s < scale 1 (length s)
value_of-scale s k = value_of-bound s 0 1 k (omega arith)

-- std::stoi reads digits to their value, up to the greatest int.
pub stoi-value_of :
    (c : ℕ) (s : Str)
    → AreDigits (c ∷ s)
    → value_of 0 (c ∷ s) < 2 ^ 31
    → stoi (c ∷ s) ≡ some (pos (value_of 0 (c ∷ s)))
unfolding stoi read_digits
stoi-value_of c s k h =
    let read : read_digits (c ∷ s) 0 false ≡ some (value_of 0 (c ∷ s)) =
      rw (k.0) (read_digits-value_of s (0 * 10 + (c - b'0')) k.1) in
    rw (magnitude-unsigned (c ∷ s) (c, s, refl, k.0), read, lt→ltb (value_of 0 (c ∷ s)) (2 ^ 31) h)
