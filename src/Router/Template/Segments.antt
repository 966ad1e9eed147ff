-- ===== src/Router/Template/Segments.antt =====
-- A template read as a list of segments, and what it means for a path to fit it.
use adequate_api_cpp.Base.{
  ◌≢◌, if◌then◌else◌, List, [], ◌∷◌, ◌++◌, Option, none, some, Str, getline, is_empty, All,
}
use adequate_api_cpp.Router.Template.{param_name}

pub data Segment : Type 0 where
  static : Str → Segment
  param : Str → Segment

abbrev pub of_param : Str → Option Str → Segment
of_param seg none = static seg
of_param seg (some name) = param name

abbrev pub classify : Str → Segment
classify seg = of_param seg (param_name seg)

unfoldable pub segments_of : List Str → List Segment
segments_of [] = []
segments_of (seg ∷ segs) =
    let rest = segments_of segs in if is_empty seg then rest else classify seg ∷ rest

abbrev pub segments : Str → List Segment
segments tmpl = segments_of (getline b'/' tmpl)

unfoldable pub names : List Segment → List Str
names [] = []
names (static s ∷ segs) = names segs
names (param name ∷ segs) = name ∷ names segs

-- A part of a path: not empty, and without a slash.
abbrev pub IsPart : Str → Type 0
IsPart w = (w ≢ []) × All (λ c. c ≢ b'/') w

-- The path is the segments in order, each behind a slash, with the captured parts in the places
-- of the parameters.
pub data Fits : List Segment → List Str → Str → Type 0 where
  fits_nil : Fits [] [] []
  fits_static :
      {segs : List Segment} {caps : List Str} {rest : Str} (s : Str)
      → Fits segs caps rest
      → Fits (static s ∷ segs) caps (b'/' ∷ s ++ rest)
  fits_param :
      {segs : List Segment} {caps : List Str} {rest : Str} (name w : Str)
      → IsPart w
      → Fits segs caps rest
      → Fits (param name ∷ segs) (w ∷ caps) (b'/' ∷ w ++ rest)
