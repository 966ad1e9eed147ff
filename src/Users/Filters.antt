-- ===== src/Users/Filters.antt =====
-- BaseFilter of core/filters/BaseFilter.cpp, and the filters UserFilter and UserListFilter of
-- filters/users. A query is the map from the names to the values of the request's parameters.
pub mod Lists
use adequate_api_cpp.Base.{
  ℕ, Bool, true, false, if◌then◌else◌, List, [], ◌∷◌, Option, none, some, Str, str, getline,
  is_empty, Result, ok, throw, std_error, bind_result, compare, Ordering,
}
use adequate_api_cpp.Base.Decimal.{ℤ, stoull, to_int64}
use adequate_api_cpp.Http.Request.{find}

abbrev pub push_id : Option ℕ → List ℤ → List ℤ
push_id none out = out
push_id (some n) out = to_int64 n ∷ out

-- The loop of parseIds over the tokens: what std::stoull rejects is left out.
unfoldable pub id_tokens : List Str → List ℤ
id_tokens [] = []
id_tokens (t ∷ ts) = if is_empty t then id_tokens ts else push_id (stoull t) (id_tokens ts)

unfoldable pub parse_ids : Str → List ℤ
unfolding id_tokens
parse_ids input = id_tokens (getline b',' input)

unfoldable pub string_tokens : List Str → List Str
string_tokens [] = []
string_tokens (t ∷ ts) = if is_empty t then string_tokens ts else t ∷ string_tokens ts

unfoldable pub parse_strings : Str → List Str
unfolding string_tokens
parse_strings input = string_tokens (getline b',' input)

pub record UserFilter : Type 0 where
  pub id : Option ℤ
  pub username : Option Str
  pub email : Option Str

abbrev pub no_filter : UserFilter
no_filter = record { id = none; username = none; email = none }

pub record UserListFilter : Type 0 where
  pub id : Option ℤ
  pub id_in : Option (List ℤ)
  pub username : Option Str
  pub username_in : Option (List Str)
  pub email : Option Str
  pub limit : Option ℕ
  pub offset : Option ℕ

-- std::stoull where its exceptions leave the function
abbrev pub stoull_or_throw : Str → Result ℕ
stoull_or_throw s = elim (stoull s) [ none ↦ throw (std_error (str "stoull")) | some n ↦ ok n ]

-- if (query.contains(key)) field = read(query[key])
abbrev pub read_query : {A : Type 0} → List (Str × Str) → Str → (Str → Result A) → Result (Option A)
read_query query key read = elim (find key query) [
  | none ↦ ok none
  | some v ↦ bind_result (read v) (λ a. ok (some a))
]

abbrev pub read_id : Str → Result ℤ
read_id s = bind_result (stoull_or_throw s) (λ n. ok (to_int64 n))

unfoldable pub parse_user_filter : List (Str × Str) → Result UserFilter
parse_user_filter query = bind_result (read_query query (str "id") read_id) λ id.
    ok
      (record { id = id; username = find (str "username") query; email = find (str "email") query })

unfoldable pub parse_user_list_filter : List (Str × Str) → Result UserListFilter
parse_user_list_filter query = bind_result (read_query query (str "limit") stoull_or_throw) λ limit.
    bind_result (read_query query (str "offset") stoull_or_throw) λ offset.
      bind_result (read_query query (str "username__in") (λ v. ok (parse_strings v))) λ username_in.
        bind_result (read_query query (str "id__in") (λ v. ok (parse_ids v))) λ id_in.
          bind_result (read_query query (str "id") read_id) λ id. ok (record {
            id = id;
            id_in = id_in;
            username = find (str "username") query;
            username_in = username_in;
            email = find (str "email") query;
            limit = limit;
            offset = offset;
          })

-- std::clamp(limit.value_or(50), 1, 1000)
abbrev pub clamp : ℕ → ℕ → ℕ → ℕ
clamp n lo hi = elim (compare n lo) [
  | Ordering.lt ↦ lo
  | _ ↦ elim (compare hi n) [ Ordering.lt ↦ hi | _ ↦ n ]
]

abbrev pub limit_or : Option ℕ → ℕ
limit_or none = 50
limit_or (some n) = n

unfoldable pub clamp_limit : UserListFilter → UserListFilter
clamp_limit f = record f { limit = some (clamp (limit_or f.limit) 1 1000) }
