-- ===== src/Router/Table.antt =====
-- The route table: what `add` registers, and which entry a path finds.
use adequate_api_cpp.Base.{
  ◌≡◌, refl, ◌∙◌, subst, inl, inr, ◌&&◌, if◌then◌else◌, List, [], ◌∷◌, Option, none, some, Str,
  str_eq, str_eq_iff, All, arith, Option-cases, Bool-cases, some_inj,
}
use mathlib.Core.List.{Memᴰ}
use adequate_api_cpp.Http.Libraries.{JsonLib, HttpLib}
use adequate_api_cpp.Http.Request.{Verb, verb_eq}
use adequate_api_cpp.Router.{
  Handler, RouteEntry, assign_verb, find_verb, register, new_entry, add_to, find_route,
}
use adequate_api_cpp.Router.Regex.{parse, regex_match}
use adequate_api_cpp.Router.Template.{compile_route}
use adequate_api_cpp.Router.Template.Segments.{segments, names, Fits}
use adequate_api_cpp.Router.Template.Parsing.{items, compile_route-parse}
use adequate_api_cpp.Router.Template.Matching.{compiled_matches_iff}

find_verb-assign_verb :
    {V : Type 0} (k j : Verb) (v : V) (m : List (Verb × V))
    → find_verb j (assign_verb k v m) ≡ (if verb_eq k j then some v else find_verb j m)
unfolding find_verb assign_verb
find_verb-assign_verb k j v [] = refl
find_verb-assign_verb k j v ((i, w) ∷ m) = ground (arith, find_verb-assign_verb k j v m)

find_verb-nil : {V : Type 0} (k : Verb) → find_verb {V = V} k [] ≡ none
unfolding find_verb
find_verb-nil k = refl

module _ {J : JsonLib} {H : HttpLib} {W Meta : Type 0} where
  -- The handler that the table holds for a template and a method.
  unfoldable pub handler_of : Str → Verb → List (RouteEntry J H W Meta) → Option (Handler J H W)
  handler_of path method [] = none
  handler_of path method (entry ∷ table) =
      if str_eq entry.original path
      then find_verb method entry.methods
      else handler_of path method table

  new_entry-some :
      (path : Str)
      → (e : RouteEntry J H W Meta) × (new_entry path ≡ some e)
        × (e.original ≡ path)
        × (e.methods ≡ [])
        × (parse (compile_route path).0 ≡ some e.regex)
        × (e.param_names ≡ (compile_route path).1)
  unfolding new_entry
  new_entry-some path =
      let (p, q) = compile_route-parse path in
      (
        record {
          regex = items (segments path);
          param_names = (compile_route path).1;
          methods = [];
          original = path;
          allowed_content_types = [];
          openapi_meta = [];
        },
        rw (p, new_entry),
        refl,
        refl,
        p,
        refl,
      )

  -- `add` never fails: std::regex takes the text of every template. In the table that it returns the
  -- given handler stands for the given template and method, and for every other template or method
  -- the table holds what it held before.
  pub add_to-handler_of :
      (method : Verb) (path : Str) (fn : Handler J H W) (allowed : List Str) (meta : Meta)
      (table : List (RouteEntry J H W Meta))
      → (table' : List (RouteEntry J H W Meta)) × (add_to method path fn allowed meta table
          ≡ some table')
        × ((path' : Str) (method' : Verb)
            → handler_of path' method' table' ≡ (
                if str_eq path path' && verb_eq method method'
                then some fn
                else handler_of path' method' table))
  unfolding add_to handler_of register
  add_to-handler_of method path fn allowed meta [] =
      let (e, made, same, empty, _, _) = new_entry-some path in
      (
        register method fn allowed meta e ∷ [],
        rw (made, add_to),
        λ path' method'.
            rw
              (
                same,
                find_verb-assign_verb method method' fn e.methods,
                empty,
                find_verb-nil method',
              )
              (ground arith),
      )
  add_to-handler_of method path fn allowed meta (entry ∷ table) =
      let (table', made, rest) = add_to-handler_of method path fn allowed meta table in
      elim (Bool-cases (str_eq entry.original path)) [
        | inl e ↦ (
          register method fn allowed meta entry ∷ table,
          rw (e, add_to),
          λ path' method'.
              rw
                (
                  find_verb-assign_verb method method' fn entry.methods,
                  (str_eq_iff entry.original path).0 e,
                )
                (ground arith),
        )
        | inr e ↦ (
          entry ∷ table',
          rw (e, made, add_to),
          λ path' method'. ground (
            arith,
            rest path' method',
            str_eq_iff entry.original path',
            str_eq_iff entry.original path,
            str_eq_iff path path',
          ),
        )
      ]

  -- The entry is what compileRoute makes of its template.
  pub record IsCompiled (entry : RouteEntry J H W Meta) : Type 0 where
    pub regex : parse (compile_route entry.original).0 ≡ some entry.regex
    pub named : entry.param_names ≡ names (segments entry.original)

  new_entry-IsCompiled :
      (path : Str) → (e : RouteEntry J H W Meta) × (new_entry path ≡ some e) × IsCompiled e
  new_entry-IsCompiled path =
      let (e, made, orig, _, parsed, named) = new_entry-some path in
      (
        e,
        made,
        record { regex = rw orig parsed; named = rw orig (named ∙ (compile_route-parse path).1) },
      )

  register-IsCompiled :
      (method : Verb) (fn : Handler J H W) (allowed : List Str) (meta : Meta)
      (e : RouteEntry J H W Meta)
      → IsCompiled e
      → IsCompiled (register method fn allowed meta e)
  unfolding register
  register-IsCompiled method fn allowed meta e c = record { regex = c.regex; named = c.named }

  -- Every table that `add` makes from a compiled one is compiled, the new entry included.
  pub add_to-IsCompiled :
      (method : Verb) (path : Str) (fn : Handler J H W) (allowed : List Str) (meta : Meta)
      (table table' : List (RouteEntry J H W Meta))
      → All IsCompiled table
      → add_to method path fn allowed meta table ≡ some table'
      → All IsCompiled table'
  unfolding add_to
  add_to-IsCompiled method path fn allowed meta [] table' c h =
      let (e, made, v) = new_entry-IsCompiled path in
      subst (All IsCompiled) (some_inj (rw (made, add_to) at h))
        (register-IsCompiled method fn allowed meta e v, tt)
  add_to-IsCompiled method path fn allowed meta (entry ∷ table) table' c h =
      elim (Bool-cases (str_eq entry.original path)) [
        | inl e ↦
            subst (All IsCompiled) (some_inj (rw (e, add_to) at h))
              (register-IsCompiled method fn allowed meta entry c.0, c.1)
        | inr e ↦ elim (Option-cases (add_to method path fn allowed meta table)) [
          | inl n ↦ cc (rw (e, n, add_to) at h)
          | inr (rest, made) ↦
              subst (All IsCompiled) (some_inj (rw (e, made, add_to) at h))
                (c.0, add_to-IsCompiled method path fn allowed meta table rest c.1 made)
        ]
      ]

  -- The path finds an entry of the table whose template it fits with these captures, or it fits no
  -- template at all.
  abbrev pub Finds :
      Str → List (RouteEntry J H W Meta) → Option (RouteEntry J H W Meta × List Str) → Type 0
  Finds path table none =
      All (λ entry. (caps : List Str) → ¬ Fits (segments entry.original) caps path) table
  Finds path table (some (entry, caps)) =
      Memᴰ entry table × Fits (segments entry.original) caps path

  Finds-cons :
      (path : Str) (entry : RouteEntry J H W Meta) (table : List (RouteEntry J H W Meta))
      (found : Option (RouteEntry J H W Meta × List Str))
      → IsCompiled entry
      → regex_match entry.regex path ≡ none
      → Finds path table found
      → Finds path (entry ∷ table) found
  Finds-cons path entry table none c m f = (
    (λ caps fits.
        cc (m, (compiled_matches_iff entry.original path entry.regex caps c.regex).1 fits)),
    f,
  )
  Finds-cons path entry table (some (e, caps)) c m f = (Memᴰ.tail f.0, f.1)

  -- In a compiled table the entry that a path finds is one whose template the path fits, with the
  -- captures of its parameters; and where it finds none the path fits no template of the table.
  pub find_route-Finds :
      (path : Str) (table : List (RouteEntry J H W Meta))
      → All IsCompiled table
      → Finds path table (find_route path table)
  unfolding find_route
  find_route-Finds path [] c = tt
  find_route-Finds path (entry ∷ table) c = elim (Option-cases (regex_match entry.regex path)) [
    | inl m ↦
        rw (m, find_route) (Finds-cons path entry table _ c.0 m (find_route-Finds path table c.1))
    | inr (caps, m) ↦
        rw (m, find_route)
          (
            Memᴰ.head refl,
            (compiled_matches_iff entry.original path entry.regex caps c.0.regex).0 m,
          )
  ]
