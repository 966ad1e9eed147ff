-- ===== src/Users/Service/Login.antt =====
-- A user who has registered is stored and can log in: the services over the repository, the hasher
-- and the tokens.
use adequate_api_cpp.Base.{
  ◌≡◌, refl, ap, ◌∙◌, Bool, true, false, str_eq_refl, if◌then◌else◌, List, [], ◌∷◌, none, some, Str,
  str, Result, ok, M, ◌>>=◌, continue-ok, handled-ok, lift, pure,
}
use adequate_api_cpp.Base.Decimal.{ℤ}
use adequate_api_cpp.Core.Hasher
use adequate_api_cpp.Core.Hasher.{PwhashParams, Sodium, IsSodium}
use adequate_api_cpp.Core.Hasher.Verifies.{verify-hash}
use adequate_api_cpp.Db.SqlBuilder.{SqlBuilder}
use adequate_api_cpp.Users.Filters.{no_filter, UserFilter}
use adequate_api_cpp.Users.Serializers.{UserEntity, RegisterSerializer, register_to_entity}
use adequate_api_cpp.Users.Repository
use adequate_api_cpp.Users.Repository.{Query, PgRow, stoll_or_throw}
use adequate_api_cpp.Users.Service.{register_user, exists, obtain_tokens, translate, TokenPair}

-- SELECT of the user with an email
abbrev pub by_email : Str → UserFilter
by_email email = record no_filter { email = some email }

module _ {W Time : Type 0} (query : Query W) (parse_time : Str → Result Time) where
  -- A row of users that the database can hold for an id and a password: the id in the first column,
  -- and timestamps where the repository reads them.
  pub record IsUserRow (id : ℤ) (password : Str) (row : PgRow) : Type 0 where
    pub created : Time
    pub updated : Time
    pub has_id : stoll_or_throw (row 0).data_ ≡ ok id
    pub has_password : (row 6).data_ ≡ password
    pub has_created : parse_time (row 4).data_ ≡ ok created
    pub has_updated : parse_time (row 5).data_ ≡ ok updated

  -- What PostgreSQL answers the statements of the repository. In some worlds the user with an email
  -- is stored with an id and a password: behind an insertion that succeeded, and then behind the
  -- statements that only read. There the email's row is found, with the id and the password, and it
  -- exists.
  pub record IsDatabase : Type 1 where
    pub Stores : (id : ℤ) (email password : Str) → W → Type 0
    pub inserted :
        (username email password : Str) (b : SqlBuilder) (rows : List PgRow) (w w' : W)
        → Repository.insert_query ≡ ok b
        → query b.sql (some username ∷ some email ∷ some password ∷ []) w ≡ (ok rows, w')
        → (id : ℤ) × Stores id email password w'
    pub found :
        (id : ℤ) (email password : Str) (w : W)
        → Stores id email password w
        → (row : PgRow) × (rest : List PgRow) × (w' : W) × (query
              (Repository.one_query (by_email email)).sql
              (Repository.one_query (by_email email)).params
              w
            ≡ (ok (row ∷ rest), w'))
          × IsUserRow id password row
    pub there :
        (id : ℤ) (email password : Str) (w : W)
        → Stores id email password w
        → (row : PgRow) × (rest : List PgRow) × (w' : W) × (query
              (Repository.exists_query (by_email email)).sql
              (Repository.exists_query (by_email email)).params
              w
            ≡ (ok (row ∷ rest), w'))
          × ((row 0).data_ ≡ str "t")
          × Stores id email password w'

  read_user-ok :
      (id : ℤ) (password : Str) (row : PgRow)
      → IsUserRow id password row
      → (user : UserEntity Time) × (Repository.read_user query parse_time row (some (row 6).data_)
          ≡ ok user)
        × (user.password ≡ some password)
        × (user.id ≡ id)
  unfolding Repository.read_user
  read_user-ok id password row h =
      let user : UserEntity Time = record {
        id = id;
        username = some (row 1).data_;
        email = some (row 3).data_;
        picture = if (row 2).is_null then none else some (row 2).data_;
        password = some (row 6).data_;
        created_at = h.created;
        updated_at = h.updated;
      } in
      (user, rw (h.has_id, h.has_created, h.has_updated) refl, ap some h.has_password, refl)

  module _ (db : IsDatabase) where
    -- What the repository finds of a user that is stored.
    get_one-stored :
        (id : ℤ) (email password : Str) (w : W)
        → db.Stores id email password w
        → (user : UserEntity Time) × (w' : W) × (Repository.get_one query parse_time
              (by_email email)
              w
            ≡ (ok user, w'))
          × (user.password ≡ some password)
          × (user.id ≡ id)
    unfolding Repository.get_one
    get_one-stored id email password w h =
        let (row, rest, w', found, good) = db.found id email password w h in
        let (user, read, has, same) = read_user-ok id password row good in
        (user, w', rw (found, read) refl, has, same)

    -- A user that is stored exists.
    pub exists-stored :
        (unspecified : PgRow) (id : ℤ) (email password : Str) (w : W)
        → db.Stores id email password w
        → (w' : W) × (exists query unspecified (by_email email) w ≡ (ok true, w'))
          × db.Stores id email password w'
    unfolding exists Repository.exists
    exists-stored unspecified id email password w h =
        let (row, rest, w', there, t, kept) = db.there id email password w h in
        (w', rw (there, t, str_eq_refl (str "t")) refl, kept)

  -- The insertion behind a creation that succeeded.
  create-inserts :
      (e e' : UserEntity Time) (w w' : W)
      → Repository.create query e w ≡ (ok e', w')
      → (b : SqlBuilder) × (rows : List PgRow) × (Repository.insert_query ≡ ok b)
        × (query b.sql (e.username ∷ e.email ∷ e.password ∷ []) w ≡ (ok rows, w'))
  unfolding Repository.create
  create-inserts e e' w w' h =
      let (b, w1, built, h1) = continue-ok _ (lift Repository.insert_query w) e' w' h in
      let (rows, w2, sent, h2) = continue-ok _ (query b.sql _ w1) e' w' h1 in
      (
        b,
        rows,
        ap (λ x. x.0) built,
        ap (query b.sql (e.username ∷ e.email ∷ e.password ∷ [])) (ap (λ x. x.1) built)
            ∙ (sent ∙ ap (λ v. (ok rows, v)) (ap (λ x. x.1) h2)),
      )

  module _ (hash : Str → M W Str) (fresh : UserEntity Time) where
    -- The hash and the insertion behind a registration that succeeded.
    register_user-inserts :
        (data_ : RegisterSerializer) (w w' : W)
        → register_user query hash fresh data_ w ≡ (ok tt, w')
        → (encoded : Str) × (w1 : W) × (e' : UserEntity Time) × (hash data_.password w
            ≡ (ok encoded, w1))
          × (Repository.create query
                (record (register_to_entity fresh data_) { password = some encoded })
                w1
              ≡ (ok e', w'))
    unfolding register_user register_to_entity
    register_user-inserts data_ w w' h =
        let (encoded, w1, made, h1) = continue-ok _ (hash data_.password w) tt w' h in
        let user = record (register_to_entity fresh data_) { password = some encoded } in
        let sent =
          handled-ok (translate none) ((Repository.create query user >>= λ _. pure tt) w1) tt w'
            h1 in
        let (e', w2, created, h2) = continue-ok _ (Repository.create query user w1) tt w' sent in
        (encoded, w1, e', made, created ∙ ap (λ v. (ok e', v)) (ap (λ x. x.1) h2))

module _ {W Time : Type 0} (query : Query W) (parse_time : Str → Result Time) (S : Sodium W)
    (params : PwhashParams) (db : IsDatabase query parse_time) where
  -- Behind a registration that succeeded, the user is stored with the hash of the password.
  pub register_user-stored :
      (fresh : UserEntity Time) (data_ : RegisterSerializer) (w w' : W)
      → register_user query (Hasher.hash S params) fresh data_ w ≡ (ok tt, w')
      → (encoded : Str) × (w1 : W) × (Hasher.hash S params data_.password w ≡ (ok encoded, w1))
        × ((id : ℤ) × db.Stores id data_.email encoded w')
  unfolding register_to_entity
  register_user-stored fresh data_ w w' h =
      let (encoded, w1, e', made, created) =
        register_user-inserts query parse_time (Hasher.hash S params) fresh data_ w w' h in
      let user = record (register_to_entity fresh data_) { password = some encoded } in
      let (b, rows, built, sent) = create-inserts query parse_time user e' w1 w' created in
      (encoded, w1, made, db.inserted data_.username data_.email encoded b rows w1 w' built sent)

  module _ (verify : Str → Str → M W Bool) (encode_id : ℤ → M W Str) where
    abbrev pub pair_of : Str → TokenPair
    pair_of token = record { refresh_token = str "None"; access_token = token }

    -- Where a user is stored with the hash of a password, a login with that password ends as the
    -- making of the token does, for the id of the user.
    pub stored_logs_in :
        (id : ℤ) (email password encoded : Str) (w0 w1 w : W)
        → IsSodium S
        → ((password stored : Str) (v : W)
            → verify password stored v
              ≡ (ok (Hasher.verify S params password stored (some false)).0, v))
        → Hasher.hash S params password w0 ≡ (ok encoded, w1)
        → db.Stores id email encoded w
        → (w' : W) × (obtain_tokens query parse_time verify encode_id
              (record { email = email; password = password })
              w
            ≡ (encode_id id >>= λ token. pure (pair_of token)) w')
    unfolding obtain_tokens
    stored_logs_in id email password encoded w0 w1 w law checks made stored =
        let (user, w', got, has, same) =
          get_one-stored query parse_time db id email encoded w stored in
        let good = (verify-hash S law params params password encoded (some false) w0 w1 made).0 in
        (w', rw (got, has, same, checks password encoded w', good) refl)
