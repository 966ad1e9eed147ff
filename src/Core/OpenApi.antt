-- ===== src/Core/OpenApi.antt =====
-- The builder OpenApiResponses of core/openapi/types/OpenApiResponses.h. Its overloads for lvalues
-- and rvalues do the same.
pub mod Distinct
pub mod Document
use adequate_api_cpp.Base.{
  ℕ, Bool, true, false, ◌||◌, if◌then◌else◌, ◌==◌, List, [], ◌∷◌, ◌++◌, Option, none, some, Str,
  str, starts_with, any,
}

pub record OpenApiResponseMeta : Type 0 where
  pub status : ℕ
  pub description : Str
  pub schema_ref : Option Str

abbrev pub Items : Type 0
Items = List OpenApiResponseMeta

unfoldable pub has_code : ℕ → Items → Bool
has_code status items = any (λ r. r.status == status) items

unfoldable pub add_impl : ℕ → Str → Option Str → Items → Items
add_impl status desc schema items =
    if has_code status items
    then items
    else items ++ record { status = status; description = desc; schema_ref = schema } ∷ []

unfoldable pub add_no_body_impl : ℕ → Str → Items → Items
add_no_body_impl status desc items =
    if has_code status items
    then items
    else items ++ record { status = status; description = desc; schema_ref = none } ∷ []

-- What the groups add, with the default arguments.
abbrev error_response : ℕ → Str → Items → Items
error_response status desc = add_impl status desc (some (str "ErrorResponse"))

-- The calls of the builder.
pub data Call : Type 0 where
  ok ok_array : (schema desc : Str) → Call
  created : (desc : Str) → Option Str → Call
  no_content : (desc : Str) → Call
  bad_request unauthorized forbidden not_found conflict too_large unsupported_media
        unprocessable_entity internal :
      (schema desc : Str) → Call
  with_auth with_body with_always : Call
  custom : (status : ℕ) (desc schema : Str) → Call
  custom_no_body : (status : ℕ) (desc : Str) → Call

unfoldable pub call : Call → Items → Items
call (ok schema desc) items = add_impl 200 desc (some schema) items
call (ok_array schema desc) items = add_impl 200 desc (some (schema ++ str "Array")) items
call (created desc none) items = add_no_body_impl 201 desc items
call (created desc (some schema)) items = add_impl 201 desc (some schema) items
call (no_content desc) items = add_no_body_impl 204 desc items
call (bad_request schema desc) items = add_impl 400 desc (some schema) items
call (unauthorized schema desc) items = add_impl 401 desc (some schema) items
call (forbidden schema desc) items = add_impl 403 desc (some schema) items
call (not_found schema desc) items = add_impl 404 desc (some schema) items
call (conflict schema desc) items = add_impl 409 desc (some schema) items
call (too_large schema desc) items = add_impl 413 desc (some schema) items
call (unsupported_media schema desc) items = add_impl 415 desc (some schema) items
call (unprocessable_entity schema desc) items = add_impl 422 desc (some schema) items
call (internal schema desc) items = add_impl 500 desc (some schema) items
call with_auth items =
    error_response 403 (str "Forbidden") (error_response 401 (str "Unauthorized") items)
call with_body items = error_response 422 (str "Unprocessable entity") (
    error_response 415 (str "Unsupported media type") (
      error_response 413 (str "Payload too large")
        (error_response 400 (str "Bad request / validation error") items)))
call with_always items = error_response 500 (str "Internal server error") items
call (custom status desc schema) items = add_impl status desc (some schema) items
call (custom_no_body status desc) items = add_no_body_impl status desc items

-- A chain of calls, up to build().
unfoldable pub build : List Call → Items → Items
build [] items = items
build (c ∷ cs) items = build cs (call c items)

unfoldable pub ref_of : Str → Str
ref_of s = if starts_with (str "#/") s then s else str "#/components/schemas/" ++ s
