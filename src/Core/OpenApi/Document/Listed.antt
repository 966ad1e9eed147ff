-- ===== src/Core/OpenApi/Document/Listed.antt =====
-- Which operations and which responses the document lists.
use adequate_api_cpp.Base.{
  ℕ, ◌≡◌, refl, ◌∙◌, Bool, true, false, ◌&&◌, if◌then◌else◌, ◌==◌, arith, List, [], ◌∷◌, Option,
  none, some, Str, str_eq, str_eq_iff, str_eq_refl, inl, inr, Option-cases, Bool-cases, sym, ap,
  some_inj, ◌^◌, ◌<◌, All, ==_iff,
}
use adequate_api_cpp.Base.Decimal.{ℤ, pos, negsuc, to_string, stoi}
use adequate_api_cpp.Base.Decimal.RoundTrip.{stoi-to_string}
use adequate_api_cpp.Http.Libraries.{JsonLib, HttpLib}
use adequate_api_cpp.Http.Request.{Verb, verb_eq, assign, find}
use adequate_api_cpp.Router.{RouteEntry, find_verb, contains}
use adequate_api_cpp.Core.OpenApi.{Items}
use adequate_api_cpp.Core.OpenApi.Document.{
  OpenApiMeta, members, assign_at, find_at, method_name, add_operation, methods_loop, paths_of,
  operation_of, responses_of, response_object, add_response, Paths,
}

pub find-assign :
    {V : Type 0} (k j : Str) (v : V) (m : List (Str × V))
    → find j (assign k v m) ≡ (if str_eq k j then some v else find j m)
unfolding find assign
find-assign k j v [] = refl
find-assign k j v ((i, w) ∷ m) =
    ground (arith, str_eq_iff k j, str_eq_iff i k, str_eq_iff i j, find-assign k j v m)

find_at-assign_at :
    {V : Type 0} (p q m n : Str) (v : V) (paths : List (Str × List (Str × V)))
    → find_at q n (assign_at p m v paths)
      ≡ (if str_eq p q && str_eq m n then some v else find_at q n paths)
find_at-assign_at p q m n v paths = elim (Bool-cases (str_eq p q)) [
  | inl e ↦
      rw
        (
          find-assign p q (assign m v (members (find p paths))) paths,
          e,
          find-assign m n v (members (find p paths)),
          (str_eq_iff p q).0 e,
        )
        refl
  | inr e ↦ rw (find-assign p q (assign m v (members (find p paths))) paths, e) refl
]

abbrev or_else : {V : Type 0} → Option V → Option V → Option V
or_else (some v) o = some v
or_else none o = o

or_else_assoc : {V : Type 0} (a b c : Option V) → or_else a (or_else b c) ≡ or_else (or_else a b) c
or_else_assoc (some v) b c = refl
or_else_assoc none b c = refl

or_else-none : {V : Type 0} (a : Option V) → or_else a none ≡ a
or_else-none (some v) = refl
or_else-none none = refl

abbrev magnitude_of : ℤ → ℕ
magnitude_of (pos n) = n
magnitude_of (negsuc n) = n

pos_inj : {a b : ℕ} → pos a ≡ pos b → a ≡ b
pos_inj h = ap magnitude_of h

to_string-str_eq :
    (a b : ℕ) → a < 2 ^ 31 → b < 2 ^ 31 → str_eq (to_string a) (to_string b) ≡ (a == b)
to_string-str_eq a b ha hb = elim (Bool-cases (a == b)) [
  | inl e ↦ rw (e, (==_iff a b).0 e) (str_eq_refl (to_string b))
  | inr n ↦ elim (Bool-cases (str_eq (to_string a) (to_string b))) [
    | inr m ↦ m ∙ sym n
    | inl m ↦ cc (
      n,
      (==_iff a b).1 (
          pos_inj (
            some_inj (
              sym (stoi-to_string a ha)
              ∙ (ap stoi ((str_eq_iff (to_string a) (to_string b)).0 m) ∙ stoi-to_string b hb)))),
    )
  ]
]

abbrev when : {V : Type 0} → Bool → Option V → Option V
when true o = o
when false o = none

find_verb-code :
    {V : Type 0} (a b : Verb) (m : List (Verb × V))
    → verb_eq a b ≡ true
    → find_verb a m ≡ find_verb b m
unfolding find_verb
find_verb-code a b [] h = refl
find_verb-code a b ((j, v) ∷ m) h = ground (arith, find_verb-code a b m h)

module _ (J : JsonLib) where
  abbrev described : Option (OpenApiMeta J) → Option J.Json
  described none = none
  described (some meta) = some (operation_of J meta)

  -- The operation that a route documents for a method: that of its metadata, if it has a handler
  -- and metadata for the method.
  abbrev pub operation_for :
      {V : Type 0} → Verb → List (Verb × V) → List (Verb × OpenApiMeta J) → Option J.Json
  operation_for method methods metas =
      when (contains method methods) (described (find_verb method metas))

module _ (J : JsonLib) (verb_string : Verb → Str) where
  -- Different methods have different names, also in lower case.
  abbrev pub AreDistinct : Type 0
  AreDistinct =
      (a b : Verb) → str_eq (method_name verb_string a) (method_name verb_string b) ≡ verb_eq a b

  methods_loop-find_at :
      {V : Type 0} (path path' : Str) (method : Verb) (methods : List (Verb × V))
      (metas : List (Verb × OpenApiMeta J)) (paths : Paths J)
      → AreDistinct
      → find_at path'
          (method_name verb_string method)
          (methods_loop J verb_string path methods metas paths)
        ≡ or_else
            (when (str_eq path path') (operation_for J method methods metas))
            (find_at path' (method_name verb_string method) paths)
  unfolding methods_loop find_verb
  methods_loop-find_at path path' method [] metas paths d = elim (Bool-cases (str_eq path path')) [
    | inl e ↦ rw e refl
    | inr e ↦ rw e refl
  ]
  methods_loop-find_at path path' method ((v, fn) ∷ rest) metas paths d =
      elim (Option-cases (find_verb v metas)) [
        | inl n ↦ rw n (
            ground (
              arith,
              methods_loop-find_at path path' method rest metas paths d,
              find_verb-code v method metas,
            ))
        | inr (meta, s) ↦ rw s (
            ground (
              arith,
              methods_loop-find_at path path' method rest metas
                  (add_operation J verb_string path v (some meta) paths) d,
              find_at-assign_at path path' (method_name verb_string v)
                  (method_name verb_string method) (operation_of J meta) paths,
              d v method,
              find_verb-code v method metas,
            ))
      ]

module _ (J : JsonLib) {H : HttpLib} {W : Type 0} where
  -- What the routes document for a template and a method; the last route with the template counts.
  unfoldable pub documented : Str → Verb → List (RouteEntry J H W (OpenApiMeta J)) → Option J.Json
  documented path method [] = none
  documented path method (route ∷ table) =
      or_else (documented path method table) (
        when (str_eq route.original path) (operation_for J method route.methods route.openapi_meta))

module _ (J : JsonLib) {H : HttpLib} {W : Type 0} (verb_string : Verb → Str) where
  paths_of-find_at_from :
      (path : Str) (method : Verb) (table : List (RouteEntry J H W (OpenApiMeta J)))
      (paths : Paths J)
      → AreDistinct J verb_string
      → find_at path (method_name verb_string method) (paths_of J verb_string table paths)
        ≡ or_else
            (documented J path method table)
            (find_at path (method_name verb_string method) paths)
  unfolding paths_of documented
  paths_of-find_at_from path method [] paths d = refl
  paths_of-find_at_from path method (route ∷ table) paths d =
      rw
        (
          paths_of-find_at_from path method table
              (methods_loop J verb_string route.original route.methods route.openapi_meta paths) d,
          methods_loop-find_at J verb_string route.original path method route.methods
              route.openapi_meta paths d,
        )
        (or_else_assoc (documented J path method table) _ _)

  -- The document has an operation under a template and the lower-case name of a method exactly when
  -- a route of that template has a handler and metadata for the method, and then it is the
  -- operation of the metadata, of the last such route.
  pub paths_of-documented :
      (path : Str) (method : Verb) (table : List (RouteEntry J H W (OpenApiMeta J)))
      → AreDistinct J verb_string
      → find_at path (method_name verb_string method) (paths_of J verb_string table [])
        ≡ documented J path method table
  unfolding find
  paths_of-documented path method table d =
      paths_of-find_at_from path method table [] d ∙ or_else-none (documented J path method table)

module _ (J : JsonLib) where
  abbrev pub object_for : Str → Option Str → Option J.Json
  object_for description none = none
  object_for description (some schema) = some (response_object J description schema)

  -- The last response with the code that has a schema.
  unfoldable pub with_schema : ℕ → Items → Option J.Json
  with_schema code [] = none
  with_schema code (r ∷ rs) =
      or_else (with_schema code rs)
        (when (r.status == code) (object_for r.description r.schema_ref))

  add_response-find :
      (code status : ℕ) (description : Str) (schema : Option Str) (out : List (Str × J.Json))
      → code < 2 ^ 31
      → status < 2 ^ 31
      → find (to_string code) (add_response J status description schema out)
        ≡ or_else
            (when (status == code) (object_for description schema))
            (find (to_string code) out)
  add_response-find code status description none out c h = ground arith
  add_response-find code status description (some schema) out c h = ground (
    arith,
    find-assign (to_string status) (to_string code) (response_object J description schema) out,
    to_string-str_eq status code h c,
  )

  responses_of-find_from :
      (code : ℕ) (items : Items) (out : List (Str × J.Json))
      → code < 2 ^ 31
      → All (λ r. r.status < 2 ^ 31) items
      → find (to_string code) (responses_of J items out)
        ≡ or_else (with_schema code items) (find (to_string code) out)
  unfolding responses_of with_schema
  responses_of-find_from code [] out c h = refl
  responses_of-find_from code (r ∷ rs) out c h =
      rw
        (
          responses_of-find_from code rs (add_response J r.status r.description r.schema_ref out) c
              h.1,
          add_response-find code r.status r.description r.schema_ref out c h.0,
        )
        (or_else_assoc (with_schema code rs) _ _)

  -- An operation lists a response under a code exactly when one of its responses with that code has
  -- a schema: a response without one, such as 204, is not in the document.
  pub responses_of-with_schema :
      (code : ℕ) (items : Items)
      → code < 2 ^ 31
      → All (λ r. r.status < 2 ^ 31) items
      → find (to_string code) (responses_of J items []) ≡ with_schema code items
  unfolding find
  responses_of-with_schema code items c h =
      responses_of-find_from code items [] c h ∙ or_else-none (with_schema code items)
