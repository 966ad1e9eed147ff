-- ===== src/Router/Access.antt =====
-- Scoped middlewares: which routes they guard.
use adequate_api_cpp.Base.{
  ◌≡◌, ap, subst, inl, inr, true, List, [], ◌∷◌, ◌++◌, some, Str, starts_with, starts_with-append,
  All, Bool-cases,
}
use mathlib.Core.List.{Memᴰ}
use adequate_api_cpp.Http.Libraries.{JsonLib, HttpLib}
use adequate_api_cpp.Router.{
  Middleware, RouteEntry, Router, scoped_for, find_route, collect_middlewares_for,
}
use adequate_api_cpp.Router.Table.{IsCompiled, Finds, find_route-Finds}
use adequate_api_cpp.Router.Template.Segments.{
  Segment, static, segments, Fits, fits_nil, fits_static, fits_param,
}

Memᴰ-append_right {ℓ} : {A : Type ℓ} (x : A) (xs ys : List A) → Memᴰ x ys → Memᴰ x (xs ++ ys)
Memᴰ-append_right x [] ys h = h
Memᴰ-append_right x (y ∷ xs) ys h = Memᴰ.tail (Memᴰ-append_right x xs ys h)

Fits-static :
    {segs segs' : List Segment} {caps : List Str} {path : Str} (s : Str)
    → Fits segs' caps path
    → segs' ≡ static s ∷ segs
    → starts_with (b'/' ∷ s) path ≡ true
Fits-static s fits_nil e = cc e
Fits-static s (fits_static {rest = rest} s' f) e =
    rw (← static_inj e) (starts_with-append (b'/' ∷ s') rest)
  where
    static_inj : {a b : Str} {xs ys : List Segment} → static a ∷ xs ≡ static b ∷ ys → a ≡ b
    static_inj e = cc e
Fits-static s (fits_param name w p f) e = cc e

module _ {J : JsonLib} {H : HttpLib} {W : Type 0} where
  scoped_for-Memᴰ :
      (path prefix : Str) (m : Middleware J H W) (ms : List (Str × Middleware J H W))
      → Memᴰ (prefix, m) ms
      → starts_with prefix path ≡ true
      → Memᴰ m (scoped_for path ms)
  unfolding scoped_for
  scoped_for-Memᴰ path prefix m [] h s = elim h [ ]
  scoped_for-Memᴰ path prefix m ((p, x) ∷ ms) (Memᴰ.head e) s =
      rw (subst (λ y. starts_with y path ≡ true) (ap (λ y. y.0) e) s) (Memᴰ.head (ap (λ y. y.1) e))
  scoped_for-Memᴰ path prefix m ((p, x) ∷ ms) (Memᴰ.tail t) s =
      elim (Bool-cases (starts_with p path)) [
        | inl e ↦ rw e (Memᴰ.tail (scoped_for-Memᴰ path prefix m ms t s))
        | inr e ↦ rw e (scoped_for-Memᴰ path prefix m ms t s)
      ]

module _ {J : JsonLib} {H : HttpLib} {W Meta : Type 0} where
  -- In a compiled table, a middleware that was registered for a slash and a name guards every route
  -- whose template starts with that name as a static segment: it is among the middlewares of every
  -- path that finds such a route.
  pub found_guarded :
      (router : Router J H W Meta) (path : Str) (entry : RouteEntry J H W Meta) (caps : List Str)
      (s : Str) (segs : List Segment) (m : Middleware J H W)
      → All IsCompiled router.table
      → find_route path router.table ≡ some (entry, caps)
      → segments entry.original ≡ static s ∷ segs
      → Memᴰ (b'/' ∷ s, m) router.scoped_middlewares
      → Memᴰ m (collect_middlewares_for router path)
  unfolding collect_middlewares_for
  found_guarded router path entry caps s segs m c found e h =
      let finds = subst (Finds path router.table) found (find_route-Finds path router.table c) in
      Memᴰ-append_right m router.global_middlewares (scoped_for path router.scoped_middlewares)
        (scoped_for-Memᴰ path (b'/' ∷ s) m router.scoped_middlewares h (Fits-static s finds.1 e))
