-- ===== src/Db/SqlBuilder/Params.antt =====
-- How the placeholders of a built query meet its parameters.
use adequate_api_cpp.Base.{
  ℕ, ◌+◌, ◌≡◌, refl, List, [], ◌∷◌, Option, none, some, Str, length, length-append, arith,
}
use adequate_api_cpp.Db.SqlBuilder.{
  SqlBuilder, exists, returning, where_eq, where_any, limit, offset, order_by, array_to_pg,
}
use adequate_api_cpp.Base.Decimal.{to_string}

-- One call on the builder, as a query is put together after SELECT, UPDATE, INSERT or DELETE.
pub data Clause : Type 0 where
  where_is : Str → Str → Clause
  where_in : Str → Str → List Str → Clause
  limited skipped : Option ℕ → Clause
  ordered returned : Str → Clause
  existing : Clause

unfoldable pub apply : Clause → SqlBuilder → SqlBuilder
apply (where_is e v) = where_eq e v
apply (where_in e c vs) = where_any e c vs
apply (limited n) = limit n
apply (skipped n) = offset n
apply (ordered f) = order_by f
apply (returned f) = returning f
apply existing = exists

unfoldable pub apply_all : List Clause → SqlBuilder → SqlBuilder
unfolding apply
apply_all [] b = b
apply_all (c ∷ cs) b = apply_all cs (apply c b)

-- Clauses of one kind that differ in the bound values only.
pub data SameShape : Clause → Clause → Type 0 where
  same : (c : Clause) → SameShape c c
  same_where : (e v v' : Str) → SameShape (where_is e v) (where_is e v')
  same_in :
      (e c v v' : Str) (vs vs' : List Str)
      → SameShape (where_in e c (v ∷ vs)) (where_in e c (v' ∷ vs'))
  same_limit : (n n' : ℕ) → SameShape (limited (some n)) (limited (some n'))
  same_offset : (n n' : ℕ) → SameShape (skipped (some n)) (skipped (some n'))

pub data SameShapes : List Clause → List Clause → Type 0 where
  same_nil : SameShapes [] []
  same_cons :
      {c d : Clause} {cs ds : List Clause}
      → SameShape c d
      → SameShapes cs ds
      → SameShapes (c ∷ cs) (d ∷ ds)

-- Two builders that differ in their parameters only.
abbrev pub SameText : SqlBuilder → SqlBuilder → Type 0
SameText b b' = (b.sql ≡ b'.sql) × (b.has_where ≡ b'.has_where) × (b.index ≡ b'.index)

same-SameText : (c : Clause) (b b' : SqlBuilder) → SameText b b' → SameText (apply c b) (apply c b')
unfolding apply where_eq where_any limit offset order_by returning exists
same-SameText (where_in e c []) b b' t = t
same-SameText (limited none) b b' t = t
same-SameText (skipped none) b b' t = t
same-SameText _ b b' t = ground arith

apply-SameText :
    {c d : Clause} (b b' : SqlBuilder)
    → SameShape c d
    → SameText b b'
    → SameText (apply c b) (apply d b')
unfolding apply where_eq where_any limit offset
apply-SameText b b' (same c) t = same-SameText c b b' t
apply-SameText b b' (same_where e v v') t = ground arith
apply-SameText b b' (same_in e c v v' vs vs') t = ground arith
apply-SameText b b' (same_limit n n') t = ground arith
apply-SameText b b' (same_offset n n') t = ground arith

apply_all-SameText :
    {cs ds : List Clause} (b b' : SqlBuilder)
    → SameShapes cs ds
    → SameText b b'
    → SameText (apply_all cs b) (apply_all ds b')
unfolding apply_all
apply_all-SameText b b' same_nil t = t
apply_all-SameText b b' (same_cons {c} {d} s ss) t =
    apply_all-SameText (apply c b) (apply d b') ss (apply-SameText b b' s t)

-- The SQL text never depends on a bound value: two rows of clauses of the same shape, applied to
-- the same builder, build the same text, whatever values they bind.
pub sql-values_free :
    (b : SqlBuilder) {cs ds : List Clause}
    → SameShapes cs ds
    → (apply_all cs b).sql ≡ (apply_all ds b).sql
sql-values_free b s = (apply_all-SameText b b s (refl, refl, refl)).0

-- How many values a clause binds.
abbrev pub binds : Clause → ℕ
binds (where_is e v) = 1
binds (where_in e c []) = 0
binds (where_in e c (v ∷ vs)) = 1
binds (limited none) = 0
binds (limited (some n)) = 1
binds (skipped none) = 0
binds (skipped (some n)) = 1
binds (ordered f) = 0
binds (returned f) = 0
binds existing = 0

abbrev pub bound : List Clause → ℕ
bound [] = 0
bound (c ∷ cs) = binds c + bound cs

apply-counts :
    (c : Clause) (b : SqlBuilder)
    → ((apply c b).index ≡ b.index + binds c)
      × (length (apply c b).params ≡ length b.params + binds c)
unfolding apply where_eq where_any limit offset order_by returning exists
apply-counts (where_is e v) b = (omega arith, length-append b.params (some v ∷ []))
apply-counts (where_in e c []) b = (omega arith, omega arith)
apply-counts (where_in e c (v ∷ vs)) b =
    (omega arith, length-append b.params (some (array_to_pg (v ∷ vs)) ∷ []))
apply-counts (limited none) b = (omega arith, omega arith)
apply-counts (limited (some n)) b = (omega arith, length-append b.params (some (to_string n) ∷ []))
apply-counts (skipped none) b = (omega arith, omega arith)
apply-counts (skipped (some n)) b = (omega arith, length-append b.params (some (to_string n) ∷ []))
apply-counts (ordered f) b = (omega arith, omega arith)
apply-counts (returned f) b = (omega arith, omega arith)
apply-counts existing b = (omega arith, omega arith)

-- Every clause takes as many placeholder indices as it adds parameters, so that the last index and
-- the number of parameters move together through any row of clauses.
apply_all-counts :
    (cs : List Clause) (b : SqlBuilder)
    → ((apply_all cs b).index ≡ b.index + bound cs)
      × (length (apply_all cs b).params ≡ length b.params + bound cs)
unfolding apply_all
apply_all-counts [] b = (omega arith, omega arith)
apply_all-counts (c ∷ cs) b =
    let (i, n) = apply-counts c b in
    let (j, m) = apply_all-counts cs (apply c b) in (omega arith, omega arith)
