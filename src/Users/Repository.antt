-- ===== src/Users/Repository.antt =====
-- UsersRepository of repositories/users/UsersRepository.cpp over PgPool::query and the parser of
-- timestamps, which it takes as parameters. Columns are read by vector's operator[], which does not
-- check its index: a row answers every index, with an unspecified column past its end.
pub mod Update
use adequate_api_cpp.Base.{
  ℕ, Bool, true, false, if◌then◌else◌, List, [], ◌∷◌, ◌++◌, map, Option, none, some, Str, str,
  str_eq, is_empty, Result, ok, throw, std_error, validation_error, bind_result, M, ◌>>=◌, ◌>>◌,
  pure, raise, lift,
}
use adequate_api_cpp.Base.Decimal.{ℤ, to_string_ℤ, stoll}
use adequate_api_cpp.Db.SqlBuilder
use adequate_api_cpp.Db.SqlBuilder.{SqlBuilder, new}
use adequate_api_cpp.Users.Filters.{UserFilter, UserListFilter}
use adequate_api_cpp.Users.Serializers.{UserEntity}

-- core/db/postgres/interfaces/PgTypes.h
pub record PgValue : Type 0 where
  pub data_ : Str
  pub is_null : Bool

abbrev pub PgRow : Type 0
PgRow = ℕ → PgValue

abbrev pub Query : Type 0 → Type 0
Query W = Str → List (Option Str) → M W (List PgRow)

-- if (value.has_value()) step(*value)
abbrev pub when : {A : Type 0} → Option A → (A → SqlBuilder → SqlBuilder) → SqlBuilder → SqlBuilder
when none step b = b
when (some a) step b = step a b

abbrev pub users : SqlBuilder
users = new (str "users")

unfoldable pub list_query : UserListFilter → SqlBuilder
list_query f =
    let fields =
      str "id"
      ∷ str "username"
      ∷ str "picture"
      ∷ str "email"
      ∷ str "created_at"
      ∷ str "updated_at"
      ∷ [] in
    let b = SqlBuilder.select fields users in
    let b = when f.id (λ id. SqlBuilder.where_eq (str "id") (to_string_ℤ id)) b in
    let b =
      when f.id_in (λ ids. SqlBuilder.where_any (str "id") (str "bigint") (map to_string_ℤ ids))
        b in
    let b = when f.username_in (SqlBuilder.where_any (str "username") (str "text")) b in
    let b = when f.username (SqlBuilder.where_eq (str "username")) b in
    let b = when f.email (SqlBuilder.where_eq (str "email")) b in
    let b = SqlBuilder.order_by (str "id") b in
    SqlBuilder.offset f.offset (SqlBuilder.limit f.limit b)

unfoldable pub one_query : UserFilter → SqlBuilder
one_query f =
    let fields =
      str "id"
      ∷ str "username"
      ∷ str "picture"
      ∷ str "email"
      ∷ str "created_at"
      ∷ str "updated_at"
      ∷ str "password"
      ∷ [] in
    SqlBuilder.limit (some 1)
      (when f.email (SqlBuilder.where_eq (str "email")) (SqlBuilder.select fields users))

unfoldable pub exists_query : UserFilter → SqlBuilder
exists_query f =
    let b = SqlBuilder.select (str "1" ∷ []) users in
    let b = when f.id (λ id. SqlBuilder.where_eq (str "id") (to_string_ℤ id)) b in
    SqlBuilder.exists (when f.email (SqlBuilder.where_eq (str "email")) b)

unfoldable pub remove_query : ℤ → SqlBuilder
remove_query id = SqlBuilder.where_eq (str "id") (to_string_ℤ id) (SqlBuilder.remove users)

-- The fields that `update` sets, with their values: those that are there and not empty.
abbrev set_field : Str → Option Str → List (Str × Str) → List (Str × Str)
set_field name none fs = fs
set_field name (some v) fs = if is_empty v then fs else (name, v) ∷ fs

unfoldable pub update_fields : {Time : Type 0} → UserEntity Time → List (Str × Str)
update_fields e = set_field (str "email") e.email (
    set_field (str "username") e.username
      (set_field (str "password") e.password (set_field (str "picture") e.picture [])))

abbrev pub field_params : List (Str × Str) → List (Option Str)
field_params fs = map (λ f. some f.1) fs

unfoldable pub update_query : List (Str × Str) → ℤ → Result SqlBuilder
update_query fs id =
    bind_result (SqlBuilder.update (map (λ f. f.0) fs) users)
      λ b. ok (SqlBuilder.returning (str "id") (SqlBuilder.where_eq (str "id") (to_string_ℤ id) b))

unfoldable pub insert_query : Result SqlBuilder
insert_query =
    bind_result (SqlBuilder.insert (str "username" ∷ str "email" ∷ str "password" ∷ []) users)
      λ b. ok (SqlBuilder.returning (str "id") b)

abbrev pub stoll_or_throw : Str → Result ℤ
stoll_or_throw s = elim (stoll s) [ none ↦ throw (std_error (str "stoll")) | some n ↦ ok n ]

abbrev nullable : PgValue → Option Str
nullable c = if c.is_null then none else some c.data_

module _ {W Time : Type 0} (query : Query W) (parse_time : Str → Result Time) where
  -- The columns that getList and getOne read in common; the password is the caller's.
  unfoldable pub read_user : PgRow → Option Str → Result (UserEntity Time)
  read_user row password = bind_result (stoll_or_throw (row 0).data_) λ id.
      bind_result (parse_time (row 4).data_) λ created.
        bind_result (parse_time (row 5).data_) λ updated. ok (record {
          id = id;
          username = some (row 1).data_;
          email = some (row 3).data_;
          picture = nullable (row 2);
          password = password;
          created_at = created;
          updated_at = updated;
        })

  unfoldable pub read_users : List PgRow → Result (List (UserEntity Time))
  read_users [] = ok []
  read_users (row ∷ rows) =
      bind_result (read_user row none) λ u. bind_result (read_users rows) λ us. ok (u ∷ us)

  unfoldable pub get_list : UserListFilter → M W (List (UserEntity Time))
  get_list f = query (list_query f).sql (list_query f).params >>= λ rows. lift (read_users rows)

  abbrev first_user : List PgRow → Result (UserEntity Time)
  first_user [] = throw (validation_error (str "user_not_found"))
  first_user (row ∷ rows) = read_user row (some (row 6).data_)

  unfoldable pub get_one : UserFilter → M W (UserEntity Time)
  get_one f = query (one_query f).sql (one_query f).params >>= λ rows. lift (first_user rows)

module _ {W : Type 0} (query : Query W) (unspecified : PgRow) where
  -- rows[0]: past the end it is an unspecified row.
  abbrev first_row : List PgRow → PgRow
  first_row [] = unspecified
  first_row (row ∷ rows) = row

  unfoldable pub exists : UserFilter → M W Bool
  exists f = query (exists_query f).sql (exists_query f).params >>= λ rows.
      pure (str_eq (first_row rows 0).data_ (str "t"))

module _ {W Time : Type 0} (query : Query W) where
  abbrev created_id : UserEntity Time → List PgRow → Result (UserEntity Time)
  created_id e [] = ok e
  created_id e (row ∷ rows) =
      if (row 0).is_null
      then ok e
      else bind_result (stoll_or_throw (row 0).data_) (λ id. ok (record e { id = id }))

  -- The entity with the id that the database gave it.
  unfoldable pub create : UserEntity Time → M W (UserEntity Time)
  create e = lift insert_query >>= λ b.
      query b.sql (e.username ∷ e.email ∷ e.password ∷ []) >>= λ rows. lift (created_id e rows)

  unfoldable pub update : UserEntity Time → M W (Unit {0})
  update e = lift (update_query (update_fields e) e.id) >>= λ b.
      query b.sql (field_params (update_fields e) ++ some (to_string_ℤ e.id) ∷ []) >>= λ _. pure tt

module _ {W : Type 0} (query : Query W) where
  unfoldable pub remove : ℤ → M W (Unit {0})
  remove id = query (remove_query id).sql (remove_query id).params >>= λ _. pure tt
