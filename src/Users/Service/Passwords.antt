-- ===== src/Users/Service/Passwords.antt =====
-- Passwords: what reaches the database, and what a token needs.
use adequate_api_cpp.Base.{
  ℕ, ◌≡◌, ap, ◌∙◌, Bool, true, false, if◌then◌else◌, Option, none, some, Str, str, Result, ok, M,
  ◌>>=◌, continue-ok, ok_inj, lift, pure, raise, validation_error,
}
use adequate_api_cpp.Base.Decimal.{ℤ}
use adequate_api_cpp.Users.Filters.{no_filter}
use adequate_api_cpp.Users.Serializers.{UserEntity, LoginSerializer, value}
use adequate_api_cpp.Users.Repository
use adequate_api_cpp.Users.Repository.{Query}
use adequate_api_cpp.Users.Service.{obtain_tokens, TokenPair}
use adequate_api_cpp.Auth.Jwt.{JwtLib, encode}

module _ {W Time : Type 0} (query : Query W) (parse_time : Str → Result Time)
    (verify : Str → Str → M W Bool) (encode_id : ℤ → M W Str) where
  -- Why tokens were given for an email and a password.
  pub record Granted (data_ : LoginSerializer) (w w' : W) (pair : TokenPair) : Type 0 where
    pub user : UserEntity Time
    pub stored : Str
    pub w1 : W
    pub w2 : W
    pub found :
        Repository.get_one query parse_time (record no_filter { email = some data_.email }) w
        ≡ (ok user, w1)
    pub has_password : user.password ≡ some stored
    pub verified : verify data_.password stored w1 ≡ (ok true, w2)
    pub encoded : encode_id user.id w2 ≡ (ok pair.access_token, w')

  value-ok : (o : Option Str) (s : Str) → value o ≡ ok s → o ≡ some s
  value-ok none s h = cc h
  value-ok (some t) s h = ap some (ok_inj h)

  abbrev answer : UserEntity Time → Bool → M W TokenPair
  answer user good =
      if good
      then (encode_id user.id >>= λ token.
          pure (record { refresh_token = str "None"; access_token = token }))
      else raise (validation_error (str "Incorrect credentials"))

  granted :
      (data_ : LoginSerializer) (w w' : W) (pair : TokenPair) (user : UserEntity Time)
      (stored : Str) (w1 w3 : W) (good : Bool)
      → Repository.get_one query parse_time (record no_filter { email = some data_.email }) w
        ≡ (ok user, w1)
      → user.password ≡ some stored
      → verify data_.password stored w1 ≡ (ok good, w3)
      → answer user good w3 ≡ (ok pair, w')
      → Granted data_ w w' pair
  granted data_ w w' pair user stored w1 w3 false found has checked h = cc (ap (λ x. x.0) h)
  granted data_ w w' pair user stored w1 w3 true found has checked h =
      let (token, w4, made, h4) = continue-ok _ (encode_id user.id w3) pair w' h in
      let e : token ≡ pair.access_token = ap (λ p. p.access_token) (ok_inj (ap (λ x. x.0) h4)) in
      record {
        user = user;
        stored = stored;
        w1 = w1;
        w2 = w3;
        found = found;
        has_password = has;
        verified = checked;
        encoded =
            made
            ∙ (ap (λ t. (ok t, w4)) e ∙ ap (λ v. (ok pair.access_token, v)) (ap (λ x. x.1) h4));
      }

  -- Tokens are given only for the password of the user that the repository finds for the email: the
  -- hasher has verified it against the hash of that user, and the access token is made for the id of
  -- that user.
  pub obtain_tokens-Granted :
      (data_ : LoginSerializer) (w w' : W) (pair : TokenPair)
      → obtain_tokens query parse_time verify encode_id data_ w ≡ (ok pair, w')
      → Granted data_ w w' pair
  unfolding obtain_tokens
  obtain_tokens-Granted data_ w w' pair h =
      let filter = record no_filter { email = some data_.email } in
      let (user, w1, found, h1) =
        continue-ok _ (Repository.get_one query parse_time filter w) pair w' h in
      let (stored, w2, read, h2) = continue-ok _ (lift (value user.password) w1) pair w' h1 in
      let (good, w3, checked, h3) = continue-ok _ (verify data_.password stored w2) pair w' h2 in
      granted data_ w w' pair user stored w1 w3 good found
        (value-ok user.password stored (ap (λ x. x.0) read))
        (ap (verify data_.password stored) (ap (λ x. x.1) read) ∙ checked) h3

module _ {W : Type 0} (L : JwtLib) (secret_key : Str) where
  -- JwtService::encode at a time
  abbrev pub issue : ℕ → ℤ → M W Str
  issue now id w = (ok (encode L secret_key id now), w)
