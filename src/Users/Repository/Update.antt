-- ===== src/Users/Repository/Update.antt =====
-- The statement that UsersRepository::update sends, with its parameters.
use adequate_api_cpp.Base.{
  ℕ, suc, ◌≡◌, refl, List, [], ◌∷◌, ◌++◌, map, Option, some, Str, str, length, throw, std_error,
}
use adequate_api_cpp.Base.Decimal.{ℤ, to_string_ℤ}
use adequate_api_cpp.Db.SqlBuilder.{SqlBuilder, join, assignments, placeholder}
use adequate_api_cpp.Db.SqlBuilder
use adequate_api_cpp.Users.Repository.{Query, update_fields, field_params, update_query, update}
use adequate_api_cpp.Users.Serializers.{UserEntity}

abbrev pub field_names : List (Str × Str) → List Str
field_names fs = map (λ f. f.0) fs

abbrev text_with : List (Str × Str) → ℕ → Str
text_with fs n =
    ((str "UPDATE "
        ++ (str "users" ++ (str " SET " ++ join (str ",") (assignments 0 (field_names fs)))))
      ++ (str " WHERE " ++ (str "id" ++ (str " = " ++ placeholder (suc n)))))
    ++ (str " RETURNING " ++ str "id")

-- The text of the statement for the fields, with $1 to $n for their values and $(n+1) for the id.
abbrev pub update_text : List (Str × Str) → Str
update_text fs = text_with fs (length fs)

abbrev pub update_params : List (Str × Str) → ℤ → List (Option Str)
update_params fs id = field_params fs ++ some (to_string_ℤ id) ∷ []

update_query-none :
    (id : ℤ) → update_query [] id ≡ throw (std_error (str "Fields must be provided for UPDATE"))
unfolding update_query SqlBuilder.update
update_query-none id = refl

module _ {W Time : Type 0} (query : Query W) where
  -- If the entity has no field to set, nothing is sent to the database, and `update` throws the
  -- exception of the statement builder, in the world that it began in.
  update_nothing :
      (e : UserEntity Time) (w : W)
      → update_fields e ≡ []
      → update query e w ≡ (throw (std_error (str "Fields must be provided for UPDATE")), w)
  unfolding update
  update_nothing e w h = rw (h, update_query-none e.id) refl
