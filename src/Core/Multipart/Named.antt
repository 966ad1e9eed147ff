-- ===== src/Core/Multipart/Named.antt =====
-- What the adapter returns.
use adequate_api_cpp.Base.{
  ◌≡◌, refl, false, List, [], ◌∷◌, Str, str, str_eq, is_empty, Result, ok, throw, Option, none,
  some, Exception, multipart_error, All, Bool-cases, inl, inr, before, bind_result,
}
use adequate_api_cpp.Http.Request.{Part, is_std, find}
use adequate_api_cpp.Core.Multipart.{
  PocoLib, Parts, no_parts, failing, part_then, read_part, read_parts, parse, part_of,
  parse_header_params, trim_copy, rethrown, or_std, parts_of, value_of,
}

abbrev pub IsNamed : Part → Type 0
IsNamed p = is_empty p.name ≡ false

-- The call returns parts with names, or throws.
abbrev NamedOrThrows : {A : Type 0} → (A → Type 0) → Result A → Type 0
NamedOrThrows P (ok a) = P a
NamedOrThrows P (throw e) = Unit

part_of-IsNamed :
    (ct bytes name : Str) (params : List (Str × Str))
    → NamedOrThrows IsNamed (part_of ct bytes name params)
part_of-IsNamed ct bytes [] params = tt
part_of-IsNamed ct bytes (c ∷ name) params = refl

read_part-IsNamed : (ct cd bytes : Str) → NamedOrThrows IsNamed (read_part ct cd bytes)
unfolding read_part
read_part-IsNamed ct cd bytes = elim (Bool-cases (is_empty cd)) [
  | inl e ↦ rw e tt
  | inr e ↦ elim (Bool-cases (str_eq (trim_copy (before b';' cd)) (str "form-data"))) [
    | inl f ↦
        rw (e, f)
          (part_of-IsNamed ct bytes (value_of (find (str "name") (parse_header_params cd)))
            (parse_header_params cd))
    | inr f ↦ rw (e, f) tt
  ]
]

bind-named :
    {A B : Type 0} (P : A → Type 0) (Q : B → Type 0) (r : Result A) (f : A → Result B)
    → NamedOrThrows P r
    → ((a : A) → P a → NamedOrThrows Q (f a))
    → NamedOrThrows Q (bind_result r f)
bind-named P Q (ok a) f h k = k a h
bind-named P Q (throw e) f h k = tt

read_parts-IsNamed : (ps : Parts) → NamedOrThrows (All IsNamed) (read_parts ps)
unfolding read_parts
read_parts-IsNamed no_parts = tt
read_parts-IsNamed (failing e) = tt
read_parts-IsNamed (part_then ct cd bytes rest) =
    bind-named IsNamed (All IsNamed) (read_part ct cd bytes) _ (read_part-IsNamed ct cd bytes)
      λ p hp.
        bind-named (All IsNamed) (All IsNamed) (read_parts rest) _ (read_parts-IsNamed rest)
          λ qs hqs. (hp, hqs)

parts_of-IsNamed :
    (P : PocoLib) (ct body : Str) (media : Str × Str)
    → NamedOrThrows (All IsNamed) (parts_of P ct body media)
parts_of-IsNamed P ct body (type, boundary) = elim (Bool-cases (str_eq type (str "multipart"))) [
  | inr f ↦ rw f tt
  | inl f ↦ elim (Bool-cases (is_empty boundary)) [
    | inl e ↦ rw (f, e) tt
    | inr e ↦ rw (f, e) (read_parts-IsNamed (P.read boundary body))
  ]
]

-- How a call of the adapter can end.
pub data Parsed : Result (List Part) → Type 0 where
  parsed : (ps : List Part) → All IsNamed ps → Parsed (ok ps)
  refused : (msg : Str) → Parsed (throw (multipart_error msg))
  foreign_failure : (e : Exception) → is_std e ≡ false → Parsed (throw e)

or_std-Parsed : (e : Exception) (text : Option Str) → Parsed (or_std e text)
or_std-Parsed e (some text) = refused _
or_std-Parsed e none = elim (Bool-cases (is_std e)) [
  | inl y ↦ rw y (refused _)
  | inr n ↦ rw n (foreign_failure e n)
]

rethrown-Parsed :
    (P : PocoLib) (r : Result (List Part)) → NamedOrThrows (All IsNamed) r → Parsed (rethrown P r)
rethrown-Parsed P (ok ps) h = parsed ps h
rethrown-Parsed P (throw e) h = or_std-Parsed e (P.display_text e)

-- Whatever the POCO library does with a body, the adapter returns parts that all have a name, or
-- throws a MultipartError; an exception outside the standard hierarchy passes through.
parse-Parsed : (P : PocoLib) (content_type body : Str) → Parsed (parse P content_type body)
unfolding parse
parse-Parsed P content_type body = rethrown-Parsed P _ (
    bind-named (λ _. Unit) (All IsNamed) (P.media_type content_type) (parts_of P content_type body)
      (trivial (P.media_type content_type)) (λ media _. parts_of-IsNamed P content_type body media))
  where
    trivial : {A : Type 0} (r : Result A) → NamedOrThrows (λ _. Unit) r
    trivial (ok a) = tt
    trivial (throw e) = tt
