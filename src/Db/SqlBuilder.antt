-- ===== src/Db/SqlBuilder.antt =====
-- SQLBuilder of core/db/postgres/builder/SQLBuilder.h. The text grows at its end; a placeholder is
-- `$` and the next index. The value types that the program passes are texts and integers.
pub mod Params
use adequate_api_cpp.Base.{
  ℕ, zero, suc, ◌+◌, ◌/◌, ◌%◌, ◌≡◌, Bool, true, false, if◌then◌else◌, ltb, List, [], ◌∷◌, ◌++◌,
  Option, none, some, Str, str, Exception, std_error, Result, ok, throw, length,
}
use adequate_api_cpp.Base.Decimal.{to_string, ℤ, to_string_ℤ}

pub record SqlBuilder : Type 0 where
  pub table_name : Str
  pub sql : Str
  pub has_where : Bool
  pub params : List (Option Str)
  pub index : ℕ

abbrev pub new : Str → SqlBuilder
new table = record { table_name = table; sql = []; has_where = false; params = []; index = 0 }

-- boost::algorithm::join
unfoldable pub join : Str → List Str → Str
join sep [] = []
join sep (x ∷ []) = x
join sep (x ∷ y ∷ xs) = x ++ (sep ++ join sep (y ∷ xs))

abbrev emit : SqlBuilder → Str → SqlBuilder
emit b s = record b { sql = b.sql ++ s }

unfoldable pub select : List Str → SqlBuilder → SqlBuilder
select [] b = emit b (str "SELECT * FROM " ++ b.table_name)
select (f ∷ fs) b =
    emit b (str "SELECT " ++ (join (str ",") (f ∷ fs) ++ (str " FROM " ++ b.table_name)))

unfoldable pub exists : SqlBuilder → SqlBuilder
exists b = record b { sql = str "SELECT EXISTS(" ++ (b.sql ++ str ")") }

-- "$" + std::to_string(i)
unfoldable pub placeholder : ℕ → Str
placeholder i = str "$" ++ to_string i

-- the placeholders with the indices after i, one for each field
unfoldable pub placeholders : ℕ → List Str → List Str
placeholders i [] = []
placeholders i (_ ∷ fs) = placeholder (suc i) ∷ placeholders (suc i) fs

unfoldable pub insert : List Str → SqlBuilder → Result SqlBuilder
unfolding placeholders
insert [] b = throw (std_error (str "Fields must be provided for INSERT"))
insert (f ∷ fs) b =
    let text =
      str "INSERT INTO "
      ++ (b.table_name
          ++ (str "("
              ++ (join (str ",") (f ∷ fs)
                  ++ (str ") VALUES ("
                      ++ (join (str ",") (placeholders b.index (f ∷ fs)) ++ str ")"))))) in
    ok (record b { sql = b.sql ++ text; index = b.index + length (f ∷ fs) })

unfoldable pub assignments : ℕ → List Str → List Str
assignments i [] = []
assignments i (f ∷ fs) = (f ++ (str " = " ++ placeholder (suc i))) ∷ assignments (suc i) fs

unfoldable pub update : List Str → SqlBuilder → Result SqlBuilder
unfolding assignments
update [] b = throw (std_error (str "Fields must be provided for UPDATE"))
update (f ∷ fs) b =
    let text =
      str "UPDATE "
      ++ (b.table_name ++ (str " SET " ++ join (str ",") (assignments b.index (f ∷ fs)))) in
    ok (record b { sql = b.sql ++ text; index = b.index + length (f ∷ fs) })

unfoldable pub remove : SqlBuilder → SqlBuilder
remove b = record b { sql = str "DELETE FROM " ++ b.table_name }

unfoldable pub returning : Str → SqlBuilder → SqlBuilder
returning field b = emit b (str " RETURNING " ++ field)

-- " AND " after the first condition, " WHERE " before it
abbrev pub conjunction : SqlBuilder → Str
conjunction b = if b.has_where then str " AND " else str " WHERE "

abbrev pub bind : SqlBuilder → Str → Str → SqlBuilder
bind b text value = record b {
  sql = b.sql ++ text;
  params = b.params ++ some value ∷ [];
  index = suc b.index;
}

-- `value` is toString(value): of a text the text itself, of a number its decimal digits.
unfoldable pub where_eq : Str → Str → SqlBuilder → SqlBuilder
where_eq expr value b =
    let b' = bind b (conjunction b ++ (expr ++ (str " = " ++ placeholder (suc b.index)))) value in
    record b' { has_where = true }

-- arrayToPg of texts
unfoldable pub array_to_pg : List Str → Str
unfolding join
array_to_pg values = str "{" ++ (join (str ",") values ++ str "}")

unfoldable pub where_any : Str → Str → List Str → SqlBuilder → SqlBuilder
where_any expr cast [] b = b
where_any expr cast (v ∷ vs) b =
    let text =
      conjunction b
      ++ (expr
          ++ (str " = ANY(" ++ (placeholder (suc b.index) ++ (str "::" ++ (cast ++ str "[])"))))) in
    record (bind b text (array_to_pg (v ∷ vs))) { has_where = true }

unfoldable pub limit : Option ℕ → SqlBuilder → SqlBuilder
limit none b = b
limit (some n) b =
    bind b (str " LIMIT " ++ (placeholder (suc b.index) ++ str "::int")) (to_string n)

unfoldable pub offset : Option ℕ → SqlBuilder → SqlBuilder
offset none b = b
offset (some n) b =
    bind b (str " OFFSET " ++ (placeholder (suc b.index) ++ str "::int")) (to_string n)

unfoldable pub order_by : Str → SqlBuilder → SqlBuilder
order_by field b = emit b (str " ORDER BY " ++ field)
