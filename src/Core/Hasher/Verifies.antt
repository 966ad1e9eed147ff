-- ===== src/Core/Hasher/Verifies.antt =====
-- A password hasher verifies what it hashed.
use adequate_api_cpp.Base.{
  ◌≡◌, refl, sym, ap, ◌∙◌, Bool, true, false, [], ◌∷◌, Option, none, some, Str, before, ok, arith,
}
use adequate_api_cpp.Core.Hasher.{PwhashParams, Sodium, IsSodium, hash, hashed, verify, write}

before-before : (s : Str) → before 0 (before 0 s) ≡ before 0 s
unfolding before
before-before [] = refl
before-before (x ∷ s) = ground (arith, before-before s)

-- The buffer that a hash was read from.
hash-buffer :
    {W : Type 0} (S : Sodium W) (params : PwhashParams) (password encoded : Str) (w w' : W)
    → hash S params password w ≡ (ok encoded, w')
    → (buffer : Str) × (S.pwhash_str password params.opslimit params.memlimit w ≡ (some buffer, w'))
      × (before 0 buffer ≡ encoded)
unfolding hash
hash-buffer S params password encoded w w' h =
    go (S.pwhash_str password params.opslimit params.memlimit w) h
  where
    go :
        (x : Option Str × _)
        → hashed S params x ≡ (ok encoded, w')
        → (buffer : Str) × (x ≡ (some buffer, w')) × (before 0 buffer ≡ encoded)
    go (none, v) e = cc (ap (λ y. y.0) e)
    go (some buffer, v) e = (buffer, cc e, cc (ap (λ y. y.0) e))

module _ {W : Type 0} (S : Sodium W) (law : IsSodium S) where
  -- A hash that the hasher made verifies its password, whatever limits the hasher that verifies it
  -- has, whether or not the caller asks if it needs a new hash. With the limits that it was made
  -- with, it needs none.
  pub verify-hash :
      (params params' : PwhashParams) (password encoded : Str) (flag : Option Bool) (w w' : W)
      → hash S params password w ≡ (ok encoded, w')
      → ((verify S params' password encoded flag).0 ≡ true)
        × (verify S params password encoded flag ≡ (true, write false flag))
  unfolding verify
  verify-hash params params' password encoded flag w w' h =
      let (buffer, made, e) = hash-buffer S params password encoded w w' h in
      let twice : before 0 encoded ≡ before 0 buffer =
        ap (before 0) (sym e) ∙ before-before buffer in
      let good = law.verifies password buffer params.opslimit params.memlimit w w' made in
      let kept = law.up_to_date password buffer params.opslimit params.memlimit w w' made in
      (rw (twice, good) refl, rw (twice, good, kept) refl)
