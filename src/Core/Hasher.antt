-- ===== src/Core/Hasher.antt =====
-- SodiumPasswordHasher of core/hashers/SodiumPasswordHasher.h over libsodium.
pub mod Verifies
use adequate_api_cpp.Base.{
  ℕ, zero, suc, ◌≡◌, Bool, true, false, not, if◌then◌else◌, Option, none, some, Str, str, before,
  Result, ok, throw, std_error, M,
}
use adequate_api_cpp.Base.Decimal.{ℤ, pos, negsuc}

pub record PwhashParams : Type 0 where
  pub opslimit : ℕ
  pub memlimit : ℕ

-- The limits that sodium.h names.
pub record SodiumLimits : Type 0 where
  pub min : PwhashParams
  pub interactive : PwhashParams
  pub moderate : PwhashParams
  pub sensitive : PwhashParams

-- crypto_pwhash_str, which draws a salt, gives the buffer that it filled, if it returned 0; the other
-- two give what they return. The hash is read up to its NUL byte.
pub record Sodium (W : Type 0) : Type 0 where
  pub pwhash_str : (password : Str) (opslimit memlimit : ℕ) → W → Option Str × W
  pub str_verify : (encoded password : Str) → ℤ
  pub needs_rehash : (encoded : Str) (opslimit memlimit : ℕ) → ℤ

-- What the documentation says of a hash: it verifies its password, and it needs no new one for the
-- limits that it was made with.
pub record IsSodium {W : Type 0} (S : Sodium W) : Type 0 where
  pub verifies :
      (password buffer : Str) (opslimit memlimit : ℕ) (w w' : W)
      → S.pwhash_str password opslimit memlimit w ≡ (some buffer, w')
      → S.str_verify (before 0 buffer) password ≡ pos 0
  pub up_to_date :
      (password buffer : Str) (opslimit memlimit : ℕ) (w w' : W)
      → S.pwhash_str password opslimit memlimit w ≡ (some buffer, w')
      → S.needs_rehash (before 0 buffer) opslimit memlimit ≡ pos 0

-- c_str(), and the std::string of a C string: the bytes up to the first NUL
abbrev pub c_str : Str → Str
c_str s = before 0 s

abbrev is_zero : ℤ → Bool
is_zero (pos zero) = true
is_zero (pos (suc n)) = false
is_zero (negsuc n) = false

-- *needsRehash = b, behind the test that the pointer is not null.
abbrev pub write : Bool → Option Bool → Option Bool
write b none = none
write b (some old) = some b

-- defaultForBuild, with APP_PWHASH_TEST_PROFILE
unfoldable pub default_for_build : SodiumLimits → (test_profile : Bool) → PwhashParams
default_for_build limits test_profile = if test_profile then limits.min else limits.interactive

module _ {W : Type 0} (S : Sodium W) (params : PwhashParams) where
  abbrev hashed : Option Str × W → Result Str × W
  hashed (none, w) = (throw (std_error (str "pwhash: out of memory / failed")), w)
  hashed (some buffer, w) = (ok (c_str buffer), w)

  unfoldable pub hash : (password : Str) → M W Str
  hash password w = hashed (S.pwhash_str password params.opslimit params.memlimit w)

  -- The result, with what the pointer points to, if it is not null.
  unfoldable pub verify : (password encoded : Str) (needs_rehash : Option Bool) → Bool × Option Bool
  verify password encoded needs_rehash =
      if is_zero (S.str_verify (c_str encoded) password)
      then (
        true,
        write (not (is_zero (S.needs_rehash (c_str encoded) params.opslimit params.memlimit)))
            needs_rehash,
      )
      else (false, write false needs_rehash)
