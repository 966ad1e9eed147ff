-- ===== src/Core/OpenApi/Distinct.antt =====
-- The responses that a chain of calls builds, against a description by their codes.
use adequate_api_cpp.Base.{
  ℕ, ◌≡◌, refl, sym, ap, ◌∙◌, inl, inr, Bool, true, false, ◌||◌, if◌then◌else◌, ◌==◌, List, [], ◌∷◌,
  ◌++◌, map, Option, none, some, Str, any, Bool-cases, arith, ==_iff, subst,
}
use adequate_api_cpp.Core.OpenApi.{
  OpenApiResponseMeta, Items, has_code, add_impl, add_no_body_impl, Call, ok, ok_array, created,
  no_content, bad_request, unauthorized, forbidden, not_found, conflict, too_large,
  unsupported_media, unprocessable_entity, internal, with_auth, with_body, with_always, custom,
  custom_no_body, call, build,
}

abbrev pub codes : Items → List ℕ
codes items = map (λ r. r.status) items

abbrev has : ℕ → List ℕ → Bool
has n ns = any (λ m. m == n) ns

-- The codes that a call asks for, in order.
abbrev pub codes_of : Call → List ℕ
codes_of (ok schema desc) = 200 ∷ []
codes_of (ok_array schema desc) = 200 ∷ []
codes_of (created desc schema) = 201 ∷ []
codes_of (no_content desc) = 204 ∷ []
codes_of (bad_request schema desc) = 400 ∷ []
codes_of (unauthorized schema desc) = 401 ∷ []
codes_of (forbidden schema desc) = 403 ∷ []
codes_of (not_found schema desc) = 404 ∷ []
codes_of (conflict schema desc) = 409 ∷ []
codes_of (too_large schema desc) = 413 ∷ []
codes_of (unsupported_media schema desc) = 415 ∷ []
codes_of (unprocessable_entity schema desc) = 422 ∷ []
codes_of (internal schema desc) = 500 ∷ []
codes_of with_auth = 401 ∷ 403 ∷ []
codes_of with_body = 400 ∷ 413 ∷ 415 ∷ 422 ∷ []
codes_of with_always = 500 ∷ []
codes_of (custom status desc schema) = status ∷ []
codes_of (custom_no_body status desc) = status ∷ []

abbrev pub all_codes : List Call → List ℕ
all_codes [] = []
all_codes (c ∷ cs) = codes_of c ++ all_codes cs

-- Adds the codes that are not there yet, each once, in the order in which they first occur.
abbrev pub add_new : List ℕ → List ℕ → List ℕ
add_new seen [] = seen
add_new seen (n ∷ ns) = add_new (if has n seen then seen else seen ++ n ∷ []) ns

or_assoc : (a b c : Bool) → a || (b || c) ≡ a || b || c
or_assoc true b c = refl
or_assoc false b c = refl

has_code-codes : (n : ℕ) (items : Items) → has_code n items ≡ has n (codes items)
unfolding has_code
has_code-codes n [] = refl
has_code-codes n (r ∷ items) = ap (λ b. (r.status == n) || b) (has_code-codes n items)

map-snoc : (xs : Items) (x : OpenApiResponseMeta) → codes (xs ++ x ∷ []) ≡ codes xs ++ x.status ∷ []
map-snoc [] x = refl
map-snoc (y ∷ xs) x = ap (λ l. y.status ∷ l) (map-snoc xs x)

codes-add_impl :
    (n : ℕ) (desc : Str) (schema : Option Str) (items : Items)
    → codes (add_impl n desc schema items) ≡ add_new (codes items) (n ∷ [])
unfolding add_impl
codes-add_impl n desc schema items = elim (Bool-cases (has_code n items)) [
  | inl y ↦ rw (y, sym (has_code-codes n items) ∙ y) refl
  | inr f ↦ rw (f, sym (has_code-codes n items) ∙ f) (map-snoc items _)
]

codes-add_no_body_impl :
    (n : ℕ) (desc : Str) (items : Items)
    → codes (add_no_body_impl n desc items) ≡ add_new (codes items) (n ∷ [])
unfolding add_no_body_impl add_impl
codes-add_no_body_impl n desc items = codes-add_impl n desc none items

add_new-append : (seen xs ys : List ℕ) → add_new seen (xs ++ ys) ≡ add_new (add_new seen xs) ys
add_new-append seen [] ys = refl
add_new-append seen (x ∷ xs) ys = add_new-append (if has x seen then seen else seen ++ x ∷ []) xs ys

call-codes : (c : Call) (items : Items) → codes (call c items) ≡ add_new (codes items) (codes_of c)
unfolding call
call-codes (ok schema desc) items = codes-add_impl 200 _ _ items
call-codes (ok_array schema desc) items = codes-add_impl 200 _ _ items
call-codes (created desc none) items = codes-add_no_body_impl 201 _ items
call-codes (created desc (some schema)) items = codes-add_impl 201 _ _ items
call-codes (no_content desc) items = codes-add_no_body_impl 204 _ items
call-codes (bad_request schema desc) items = codes-add_impl 400 _ _ items
call-codes (unauthorized schema desc) items = codes-add_impl 401 _ _ items
call-codes (forbidden schema desc) items = codes-add_impl 403 _ _ items
call-codes (not_found schema desc) items = codes-add_impl 404 _ _ items
call-codes (conflict schema desc) items = codes-add_impl 409 _ _ items
call-codes (too_large schema desc) items = codes-add_impl 413 _ _ items
call-codes (unsupported_media schema desc) items = codes-add_impl 415 _ _ items
call-codes (unprocessable_entity schema desc) items = codes-add_impl 422 _ _ items
call-codes (internal schema desc) items = codes-add_impl 500 _ _ items
call-codes with_auth items =
    codes-add_impl 403 _ _ _ ∙ ap (λ l. add_new l (403 ∷ [])) (codes-add_impl 401 _ _ items)
call-codes with_body items =
    codes-add_impl 422 _ _ _
    ∙ ap (λ l. add_new l (422 ∷ []))
        (codes-add_impl 415 _ _ _
          ∙ ap (λ l. add_new l (415 ∷ []))
              (codes-add_impl 413 _ _ _
                ∙ ap (λ l. add_new l (413 ∷ [])) (codes-add_impl 400 _ _ items)))
call-codes with_always items = codes-add_impl 500 _ _ items
call-codes (custom status desc schema) items = codes-add_impl status desc _ items
call-codes (custom_no_body status desc) items = codes-add_no_body_impl status desc items

build-all_codes :
    (cs : List Call) (items : Items) → codes (build cs items) ≡ add_new (codes items) (all_codes cs)
unfolding build
build-all_codes [] items = refl
build-all_codes (c ∷ cs) items =
    build-all_codes cs (call c items)
    ∙ ap (λ l. add_new l (all_codes cs)) (call-codes c items)
    ∙ sym (add_new-append (codes items) (codes_of c) (all_codes cs))

-- Every code occurs once.
abbrev pub Distinct : List ℕ → Type 0
Distinct [] = Unit
Distinct (n ∷ ns) = (has n ns ≡ false) × Distinct ns

has-snoc : (n m : ℕ) (ns : List ℕ) → has n (ns ++ m ∷ []) ≡ has n ns || (m == n)
has-snoc n m [] = ground arith
has-snoc n m (k ∷ ns) = rw (has-snoc n m ns) (or_assoc (k == n) (has n ns) (m == n))

Distinct-snoc : (m : ℕ) (ns : List ℕ) → Distinct ns → has m ns ≡ false → Distinct (ns ++ m ∷ [])
Distinct-snoc m [] d h = (refl, tt)
Distinct-snoc m (k ∷ ns) d h =
    (rw (has-snoc k m ns, d.0) (ground arith), Distinct-snoc m ns d.1 (ground arith))

add_new-Distinct : (seen ns : List ℕ) → Distinct seen → Distinct (add_new seen ns)
add_new-Distinct seen [] d = d
add_new-Distinct seen (n ∷ ns) d = elim (Bool-cases (has n seen)) [
  | inl y ↦ rw y (add_new-Distinct seen ns d)
  | inr f ↦ rw f (add_new-Distinct (seen ++ n ∷ []) ns (Distinct-snoc n seen d f))
]

has-add_new : (k : ℕ) (seen ns : List ℕ) → has k (add_new seen ns) ≡ has k seen || has k ns
has-add_new k seen [] = ground arith
has-add_new k seen (n ∷ ns) = elim (Bool-cases (has n seen)) [
  | inl y ↦ elim (Bool-cases (n == k)) [
    | inl e ↦
        let t : has k seen ≡ true = subst (λ m. has m seen ≡ true) ((==_iff n k).0 e) y in
        rw (y, has-add_new k seen ns, t) refl
    | inr f ↦ rw (y, has-add_new k seen ns, f) refl
  ]
  | inr f ↦
      rw (f, has-add_new k (seen ++ n ∷ []) ns, has-snoc k n seen)
        (sym (or_assoc (has k seen) (n == k) (has k ns)))
]

-- The responses of a chain of calls have the codes that the calls ask for, each once, in the order in
-- which they are first asked for.
pub build-Distinct :
    (cs : List Call)
    → (codes (build cs []) ≡ add_new [] (all_codes cs))
      × Distinct (codes (build cs []))
      × ((k : ℕ) → has_code k (build cs []) ≡ has k (all_codes cs))
build-Distinct cs = (
  build-all_codes cs [],
  rw (build-all_codes cs []) (add_new-Distinct [] (all_codes cs) tt),
  λ k.
      has_code-codes k (build cs [])
      ∙ (ap (has k) (build-all_codes cs []) ∙ has-add_new k [] (all_codes cs)),
)
