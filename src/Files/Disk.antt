-- ===== src/Files/Disk.antt =====
-- The calls of std::filesystem, std::ofstream, libmagic and the random generator, as operations on a
-- state, with the documented laws that proofs rely on.
use adequate_api_cpp.Base.{ℕ, ◌≡◌, Bool, true, Option, none, some, Str, Result}

-- Calls with an error code return `some` message on failure. The stream calls return whether the
-- stream is good behind them. `content` is what a reader of the regular file at a path sees.
pub record Disk : Type 1 where
  pub State : Type 0
  pub create_directories : Str → State → Option Str × State
  pub weakly_canonical : Str → State → Option Str
  pub exists : Str → State → Option Bool
  pub remove_all : Str → State → Option Str × State
  pub remove : Str → State → State
  pub open_trunc : Str → State → Bool × State
  pub write : Str → Str → State → Bool × State
  pub flush : Str → State → Bool × State
  pub rename : Str → Str → State → Option Str × State
  pub random : State → ℕ × State
  pub detect_mime : Str → State → Result Str × State
  pub content : Str → State → Option Str
  -- The two paths name different directory entries.
  pub Apart : Str → Str → Type 0
  pub content-remove : (p q : Str) (s : State) → Apart q p → content q (remove p s) ≡ content q s
  pub content-open :
      (p q : Str) (s : State) → Apart q p → content q (open_trunc p s).1 ≡ content q s
  pub content-write :
      (p q bytes : Str) (s : State) → Apart q p → content q (write p bytes s).1 ≡ content q s
  pub content-flush : (p q : Str) (s : State) → Apart q p → content q (flush p s).1 ≡ content q s
  pub content-random : (q : Str) (s : State) → content q (random s).1 ≡ content q s
  -- A flush that succeeds behind a write to a truncated file has put the bytes there.
  pub content-written :
      (p bytes : Str) (s : State)
      → (open_trunc p s).0 ≡ true
      → (write p bytes (open_trunc p s).1).0 ≡ true
      → (flush p (write p bytes (open_trunc p s).1).1).0 ≡ true
      → content p (flush p (write p bytes (open_trunc p s).1).1).1 ≡ some bytes
  -- A rename replaces the target by the file in one step, or leaves the target as it is.
  pub content-renamed :
      (p q : Str) (s : State) → (rename p q s).0 ≡ none → content q (rename p q s).1 ≡ content p s
  pub content-rename_failed :
      (p q r msg : Str) (s : State)
      → (rename p q s).0 ≡ some msg
      → content r (rename p q s).1 ≡ content r s
