-- ===== src/Base/Results.antt =====
-- What a C++ call can end with, and the state monad of code that may throw.
use mathlib.Core.Path.{◌≡◌, refl, ap}
use mathlib.Core.Logic.{◌⊎◌, inl, inr}
use adequate_api_cpp.Base.Text.{Str}

-- core/errors/Errors.h
pub data DbErrorCode : Type 0 where
  unique_violation foreign_key_violation not_null_violation unknown : DbErrorCode

-- services/jwt/JwtService.h
pub data JwtError : Type 0 where
  invalid_signature token_expired invalid_claim decode_error unknown_jwt : JwtError

-- `std_error` stands for any other class derived from std::exception, with its what();
-- `foreign` for a thrown value that is not derived from it.
pub data Exception : Type 0 where
  db_error : DbErrorCode → Str → Exception
  multipart_error validation_error : Str → Exception
  file_validation_error file_security_error file_io_error : Str → Exception
  jwt_exception : JwtError → Str → Exception
  std_error : Str → Exception
  foreign : Exception

pub data Result {ℓ} (A : Type ℓ) : Type ℓ where
  ok : A → Result A
  throw : Exception → Result A

abbrev pub bind_result {ℓ κ} : {A : Type ℓ} {B : Type κ} → Result A → (A → Result B) → Result B
bind_result (ok a) f = f a
bind_result (throw e) f = throw e

pub Result-cases {ℓ} :
    {A : Type ℓ} (r : Result A) → ((a : A) × (r ≡ ok a)) ⊎ ((e : Exception) × (r ≡ throw e))
Result-cases (ok a) = inl (a, refl)
Result-cases (throw e) = inr (e, refl)

-- A call that reads and writes the state S. What it wrote stays written when it throws.
abbrev pub M : Type 0 → Type 0 → Type 0
M S A = S → Result A × S

abbrev pub continue : {S A B : Type 0} → (A → M S B) → Result A × S → Result B × S
continue f (ok a, s) = f a s
continue f (throw e, s) = (throw e, s)

pub ok_inj : {A : Type 0} {a b : A} → ok a ≡ ok b → a ≡ b
ok_inj h = cc h

pub continue-ok :
    {S A B : Type 0} (f : A → M S B) (x : Result A × S) (b : B) (s : S)
    → continue f x ≡ (ok b, s)
    → (a : A) × (s1 : S) × (x ≡ (ok a, s1)) × (f a s1 ≡ (ok b, s))
continue-ok f (ok a, s1) b s h = (a, s1, refl, h)
continue-ok f (throw e, s1) b s h = cc (ap (λ y. y.0) h)

infixl 5 ◌>>=◌ ◌>>◌
abbrev pub ◌>>=◌ : {S A B : Type 0} → M S A → (A → M S B) → M S B
◌>>=◌ m f s = continue f (m s)

abbrev pub ◌>>◌ : {S B : Type 0} → M S (Unit {0}) → M S B → M S B
m >> k = m >>= λ _. k

abbrev pub pure : {S A : Type 0} → A → M S A
pure a s = (ok a, s)

abbrev pub raise : {S A : Type 0} → Exception → M S A
raise e s = (throw e, s)

abbrev pub lift : {S A : Type 0} → Result A → M S A
lift r s = (r, s)

-- try { m } catch (e) { h e }; a handler rethrows what it does not catch.
abbrev pub handled : {S A : Type 0} → (Exception → M S A) → Result A × S → Result A × S
handled h (ok a, s) = (ok a, s)
handled h (throw e, s) = h e s

abbrev pub try_catch : {S A : Type 0} → M S A → (Exception → M S A) → M S A
try_catch m h s = handled h (m s)

-- A handler that rethrows hides no exception.
pub handled-ok :
    {S A : Type 0} (f : Exception → Exception) (x : Result A × S) (a : A) (s : S)
    → handled (λ e. raise (f e)) x ≡ (ok a, s)
    → x ≡ (ok a, s)
handled-ok f (ok a', s') a s h = h
handled-ok f (throw e, s') a s h = cc (ap (λ y. y.0) h)
