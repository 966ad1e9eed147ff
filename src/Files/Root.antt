-- ===== src/Files/Root.antt =====
-- What FileSystemService lets under its root: the prefix test, and what `remove` removes.
use adequate_api_cpp.Base.{
  ℕ, ◌≡◌, refl, sym, ◌∙◌, ◌↔◌, true, List, [], ◌∷◌, ◌++◌, Str, str, str_eq, str_eq_iff, ok, throw,
  file_security_error, Bool-cases, inl, inr, ◌⊎◌,
}
use adequate_api_cpp.Files.Path.{◌/ₚ◌}
use adequate_api_cpp.Files.Disk.{Disk}
use adequate_api_cpp.Files.Names.{Options}
use adequate_api_cpp.Files.Storage.{within, ensure_within_root, elements_or, remove, or_fail}

cons_inj : {A : Type 0} {a b : A} {xs ys : List A} → a ∷ xs ≡ b ∷ ys → (a ≡ b) × (xs ≡ ys)
cons_inj h = (cc h, cc h)

within_iff : (r f : List Str) → (within r f ≡ true) ↔ ((rest : List Str) × (f ≡ r ++ rest))
unfolding within
within_iff [] f = (λ _. (f, refl), λ _. refl)
within_iff (x ∷ r) [] = (λ h. cc h, λ (rest, e). cc e)
within_iff (x ∷ r) (y ∷ f) = (
  λ h. elim (Bool-cases (str_eq x y)) [
    | inl e ↦
        let (rest, e') = (within_iff r f).0 (rw e at h) in
        (rest, rw ((str_eq_iff x y).0 e, e') refl)
    | inr e ↦ cc (rw e at h)
  ],
  λ (rest, e).
      rw ((str_eq_iff x y).1 (cons_inj (sym e)).0) ((within_iff r f).1 (rest, (cons_inj e).1)),
)

module _ (D : Disk) (o : Options) where
  within-cases :
      (root full : Str) (s : D.State)
      → ((rest : List Str) × (elements_or D full (D.weakly_canonical full s)
            ≡ elements_or D root (D.weakly_canonical root s) ++ rest)
          × (ensure_within_root D root full s ≡ (ok tt, s)))
        ⊎ (((rest : List Str)
              → ¬ (
                  elements_or D full (D.weakly_canonical full s)
                  ≡ elements_or D root (D.weakly_canonical root s) ++ rest))
            × (ensure_within_root D root full s
                ≡ (throw (file_security_error (str "Path escapes rootDir: " ++ full)), s)))
  unfolding ensure_within_root
  within-cases root full s =
      let r = elements_or D root (D.weakly_canonical root s) in
      let f = elements_or D full (D.weakly_canonical full s) in
      elim (Bool-cases (within r f)) [
        | inl y ↦ let (rest, e) = (within_iff r f).0 y in inl (rest, e, rw y refl)
        | inr n ↦ inr (λ rest e. cc (sym n ∙ (within_iff r f).1 (rest, e)), rw n refl)
      ]

  -- Removing a path that is not empty removes what is at it under the root, if the canonical
  -- elements of the root are the first elements of the canonical full path; otherwise it throws,
  -- and the disk is unchanged. A path whose canonical form cannot be computed counts as it is
  -- written.
  pub remove_confined :
      (c : ℕ) (path : Str) (s : D.State)
      → ((rest : List Str) × (elements_or D
              (o.root_path /ₚ (c ∷ path))
              (D.weakly_canonical (o.root_path /ₚ (c ∷ path)) s)
            ≡ elements_or D o.root_path (D.weakly_canonical o.root_path s) ++ rest)
          × (remove D o (c ∷ path) s
              ≡ or_fail D
                  (str "Failed to remove file: ")
                  (o.root_path /ₚ (c ∷ path))
                  (D.remove_all (o.root_path /ₚ (c ∷ path)) s)))
        ⊎ (((rest : List Str)
              → ¬ (
                  elements_or D
                    (o.root_path /ₚ (c ∷ path))
                    (D.weakly_canonical (o.root_path /ₚ (c ∷ path)) s)
                  ≡ elements_or D o.root_path (D.weakly_canonical o.root_path s) ++ rest))
            × (remove D o (c ∷ path) s ≡ (
              throw (
                  file_security_error
                    (str "Path escapes rootDir: " ++ (o.root_path /ₚ (c ∷ path)))),
              s,
            )))
  unfolding remove
  remove_confined c path s = elim (within-cases o.root_path (o.root_path /ₚ (c ∷ path)) s) [
    | inl (rest, e, g) ↦ inl (rest, e, rw g refl)
    | inr (n, g) ↦ inr (n, rw g refl)
  ]
