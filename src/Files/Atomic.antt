-- ===== src/Files/Atomic.antt =====
-- FileSystemService::writeFileAtomic: readers of the target see all of the new bytes, or what was
-- there before.
use adequate_api_cpp.Base.{
  ℕ, zero, suc, ◌≡◌, refl, ◌∙◌, Bool, true, false, ◌∷◌, ◌++◌, Option, none, some, Str, str, length,
  Result, ok, throw, Exception,
}
use adequate_api_cpp.Files.Path.{◌/ₚ◌, parent_path}
use adequate_api_cpp.Files.Disk.{Disk}
use adequate_api_cpp.Files.Storage.{
  random_hex, write_file_atomic, opened, written, flushed, renamed,
}

module _ (D : Disk) where
  -- How a write of the bytes to `final` in the state s ended.
  pub data Replaced (final bytes : Str) (s : D.State) : Result ℕ × D.State → Type 0 where
    replaced :
        {n : ℕ} (s' : D.State)
        → n ≡ length bytes
        → D.content final s' ≡ some bytes
        → Replaced final bytes s (ok n, s')
    kept :
        (e : Exception) (s' : D.State)
        → D.content final s' ≡ D.content final s
        → Replaced final bytes s (throw e, s')

  renamed-Replaced :
      (tmp final bytes : Str) (s s1 : D.State)
      → D.Apart final tmp
      → D.content tmp s1 ≡ some bytes
      → D.content final s1 ≡ D.content final s
      → Replaced final bytes s (renamed D tmp final (length bytes) (D.rename tmp final s1))
  renamed-Replaced tmp final bytes s s1 a full same =
      go (D.rename tmp final s1) (D.content-renamed tmp final s1)
        (λ msg. D.content-rename_failed tmp final final msg s1)
    where
      go :
          (x : Option Str × D.State)
          → (x.0 ≡ none → D.content final x.1 ≡ D.content tmp s1)
          → ((msg : Str) → x.0 ≡ some msg → D.content final x.1 ≡ D.content final s1)
          → Replaced final bytes s (renamed D tmp final (length bytes) x)
      go (none, s2) moved stays = replaced s2 refl (moved refl ∙ full)
      go (some msg, s2) moved stays =
          kept _ (D.remove tmp s2) (D.content-remove tmp final s2 a ∙ (stays msg refl ∙ same))

  random_hex-content :
      (n : ℕ) (q : Str) (s : D.State) → D.content q (random_hex D n s).1 ≡ D.content q s
  unfolding random_hex
  random_hex-content zero q s = refl
  random_hex-content (suc n) q s = random_hex-content n q (D.random s).1 ∙ D.content-random q s

  -- From the open call on, in the state s1 that has the content of s at the target.
  opened-Replaced :
      (tmp final : Str) (b : ℕ) (bs : Str) (s s1 : D.State)
      → D.Apart final tmp
      → D.content final s1 ≡ D.content final s
      → Replaced final (b ∷ bs) s (opened D tmp final (b ∷ bs) (D.open_trunc tmp s1))
  opened-Replaced tmp final b bs s s1 a same =
      after_open (D.open_trunc tmp s1) (D.content-open tmp final s1 a ∙ same)
        (D.content-written tmp (b ∷ bs) s1)
    where
      bytes : Str
      bytes = b ∷ bs

      after_flush :
          (z : Bool × D.State)
          → D.content final z.1 ≡ D.content final s
          → (z.0 ≡ true → D.content tmp z.1 ≡ some bytes)
          → Replaced final bytes s (flushed D tmp final (length bytes) z)
      after_flush (false, s4) same4 full =
          kept _ (D.remove tmp s4) (D.content-remove tmp final s4 a ∙ same4)
      after_flush (true, s4) same4 full = renamed-Replaced tmp final bytes s s4 a (full refl) same4

      after_write :
          (y : Bool × D.State)
          → D.content final y.1 ≡ D.content final s
          → (y.0 ≡ true
              → (D.flush tmp y.1).0 ≡ true
              → D.content tmp (D.flush tmp y.1).1 ≡ some bytes)
          → Replaced final bytes s (written D tmp final (length bytes) y)
      after_write (false, s3) same3 full =
          kept _ (D.remove tmp s3) (D.content-remove tmp final s3 a ∙ same3)
      after_write (true, s3) same3 full =
          after_flush (D.flush tmp s3) (D.content-flush tmp final s3 a ∙ same3) (full refl)

      after_open :
          (x : Bool × D.State)
          → D.content final x.1 ≡ D.content final s
          → (x.0 ≡ true
              → (D.write tmp bytes x.1).0 ≡ true
              → (D.flush tmp (D.write tmp bytes x.1).1).0 ≡ true
              → D.content tmp (D.flush tmp (D.write tmp bytes x.1).1).1 ≡ some bytes)
          → Replaced final bytes s (opened D tmp final bytes x)
      after_open (false, s2) same2 full = kept _ s2 same2
      after_open (true, s2) same2 full =
          after_write (D.write tmp bytes s2) (D.content-write tmp final bytes s2 a ∙ same2)
            (full refl)

  -- If the target is another directory entry than each temporary file in its directory, then writing
  -- bytes to it, one at least, either succeeds with their number, and the target holds exactly these
  -- bytes; or it throws, and the target holds what it held before.
  pub write_file_atomic-Replaced :
      (final : Str) (b : ℕ) (bs : Str) (s : D.State)
      → ((hex : Str) → D.Apart final (parent_path final /ₚ (str ".tmp_" ++ hex)))
      → Replaced final (b ∷ bs) s (write_file_atomic D final (b ∷ bs) s)
  unfolding write_file_atomic
  write_file_atomic-Replaced final b bs s a =
      opened-Replaced (parent_path final /ₚ (str ".tmp_" ++ (random_hex D 8 s).0)) final b bs s
        (random_hex D 8 s).1 (a (random_hex D 8 s).0) (random_hex-content 8 final s)
