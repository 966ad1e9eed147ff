-- ===== src/Base/Text.antt =====
-- std::string as the list of its bytes; a literal goes through `str`, which stays shut in proofs.
use Prim.Native.Nat.{ℕ}
use Prim.Native.Char.{code}
use Prim.Native.String.{String}
use mathlib.Core.Path.{◌≡◌, refl}
use mathlib.Core.Logic.{◌↔◌}
use mathlib.Core.Bool.{Bool, true, false, ◌&&◌}
use mathlib.Core.List.{List, [], ◌∷◌, ◌++◌}
use mathlib.Core.Option.{Option, none, some}
use native.Mathlib.Omega.{arith}
use adequate_api_cpp.Base.Tests.{◌==◌, if◌then◌else◌}

abbrev pub Str : Type 0
Str = List ℕ

unfoldable pub str : String → Str
str String.[] = []
str (String.◌∷◌ c s) = code c ∷ str s

-- operator== of std::string
unfoldable pub str_eq : Str → Str → Bool
str_eq [] [] = true
str_eq (a ∷ s) (b ∷ t) = (a == b) && str_eq s t
str_eq _ _ = false

pub str_eq_iff : (s t : Str) → (str_eq s t ≡ true) ↔ (s ≡ t)
unfolding str_eq
str_eq_iff [] [] = (λ _. refl, λ _. refl)
str_eq_iff [] (b ∷ t) = (λ h. cc, λ h. cc)
str_eq_iff (a ∷ s) [] = (λ h. cc, λ h. cc)
str_eq_iff (a ∷ s) (b ∷ t) = ground (arith, str_eq_iff s t)

pub str_eq_refl : (s : Str) → str_eq s s ≡ true
str_eq_refl s = (str_eq_iff s s).1 refl

-- s.rfind(p, 0) == 0, and starts_with
unfoldable pub starts_with : Str → Str → Bool
starts_with [] s = true
starts_with (a ∷ p) [] = false
starts_with (a ∷ p) (b ∷ s) = (a == b) && starts_with p s

pub starts_with-append : (p s : Str) → starts_with p (p ++ s) ≡ true
unfolding starts_with
starts_with-append [] s = refl
starts_with-append (a ∷ p) s = ground (arith, starts_with-append p s)

-- s.find(p) != npos
unfoldable pub contains_str : Str → Str → Bool
unfolding starts_with
contains_str p [] = starts_with p []
contains_str p (c ∷ s) = let rest = contains_str p s in if starts_with p (c ∷ s) then true else rest

-- s.substr(0, s.find(c)): what stands before the first c
unfoldable pub before : ℕ → Str → Str
before c [] = []
before c (x ∷ s) = let rest = before c s in if x == c then [] else x ∷ rest

-- s.substr(s.find(c) + 1), where there is a c
unfoldable pub after? : ℕ → Str → Option Str
after? c [] = none
after? c (x ∷ s) = let rest = after? c s in if x == c then some s else rest

-- The calls std::getline(stream, token, c) until it fails: a delimiter ends a token, and an empty
-- token after the last delimiter is not read.
unfoldable pub getline_from : ℕ → Str → Str → List Str
getline_from c cur [] = if is_nil cur then [] else cur ∷ []
  where
    is_nil : Str → Bool
    is_nil [] = true
    is_nil (_ ∷ _) = false
getline_from c cur (x ∷ s) =
    let closed = cur ∷ getline_from c [] s in
    let longer = getline_from c (cur ++ x ∷ []) s in if x == c then closed else longer

unfoldable pub getline : ℕ → Str → List Str
unfolding getline_from
getline c s = getline_from c [] s
