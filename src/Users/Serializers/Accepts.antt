-- ===== src/Users/Serializers/Accepts.antt =====
-- Which JSON documents the serializers accept.
use adequate_api_cpp.Base.{
  ◌≤◌, ◌≡◌, refl, inl, inr, ◌↔◌, true, false, ltb, length, Str, str, is_empty, ok, throw, std_error,
  Bool-cases, arith, ≤→ltb, Result-cases, subst,
}
use adequate_api_cpp.Http.Libraries.{JsonLib}
use adequate_api_cpp.Users.Serializers.{
  UserCreateSerializer, from_json_create, is_email, text, guard, not_email, required,
  required_password,
}

module _ (J : JsonLib) (j : J.Json) where
  -- The document has a text under a name.
  pub record HasText (name s : Str) : Type 0 where
    pub contained : J.contains j name ≡ true
    pub is_text : J.is_string (J.at j name) ≡ true
    pub read : text J j name ≡ ok s

  data Field (name : Str) : Type 0 where
    absent : J.contains j name ≡ false → Field name
    no_text :
        (msg : Str)
        → J.contains j name ≡ true
        → J.is_string (J.at j name) ≡ false
        → text J j name ≡ throw (std_error msg)
        → Field name
    has_text : (s : Str) → HasText name s → Field name

  Field-cases : (name : Str) → Field name
  Field-cases name = elim (Bool-cases (J.contains j name)) [
    | inr c ↦ absent c
    | inl c ↦ elim (Bool-cases (J.is_string (J.at j name))) [
      | inl t ↦
          let (s, g) = J.get_string_ok (J.at j name) t in
          has_text s (record { contained = c; is_text = t; read = g })
      | inr t ↦ let (msg, g) = J.get_string_throws (J.at j name) t in no_text msg c t g
    ]
  ]

  -- What `required` comes to.
  required-ok :
      (name message : Str)
      → required J j name message ≡ ok tt
      → (s : Str) × HasText name s × (is_empty s ≡ false)
  required-ok name message h = elim (Field-cases name) [
    | absent c ↦ cc (rw c at h)
    | no_text msg c t g ↦ cc (rw (c, g) at h)
    | has_text s x ↦ elim (Bool-cases (is_empty s)) [
      | inl e ↦ cc (rw (x.contained, x.is_text, x.read, e) at h)
      | inr e ↦ (s, x, e)
    ]
  ]

  required-accepts :
      (name message s : Str)
      → HasText name s
      → is_empty s ≡ false
      → required J j name message ≡ ok tt
  required-accepts name message s x e = rw (x.contained, x.is_text, x.read, e) refl

  required_password-ok :
      required_password J j ≡ ok tt → (s : Str) × HasText (str "password") s × (6 ≤ length s)
  required_password-ok h = elim (Field-cases (str "password")) [
    | absent c ↦ cc (rw c at h)
    | no_text msg c t g ↦ cc (rw (c, t) at h)
    | has_text s x ↦ elim (Bool-cases (ltb (length s) 6)) [
      | inl e ↦ cc (rw (x.contained, x.is_text, x.read, e) at h)
      | inr e ↦ (s, x, ground arith)
    ]
  ]

  required_password-accepts :
      (s : Str) → HasText (str "password") s → 6 ≤ length s → required_password J j ≡ ok tt
  required_password-accepts s x e = rw (x.contained, x.is_text, x.read, ≤→ltb (length s) 6 e) refl

  email-ok :
      (s : Str)
      → HasText (str "email") s
      → guard (not_email J j (str "email")) (str "Email is invalid") ≡ ok tt
      → is_email s ≡ true
  email-ok s x h = elim (Bool-cases (is_email s)) [ inl e ↦ e | inr e ↦ cc (rw (x.read, e) at h) ]

-- What a document that creates a user holds.
pub record CreatesUser (J : JsonLib) (j : J.Json) (s : UserCreateSerializer) : Type 0 where
  pub username : HasText J j (str "username") s.username
  pub email : HasText J j (str "email") s.email
  pub password : HasText J j (str "password") s.password
  pub named : is_empty s.username ≡ false
  pub addressed : is_empty s.email ≡ false
  pub valid : is_email s.email ≡ true
  pub long_enough : 6 ≤ length s.password

ok_inj : {s t : UserCreateSerializer} → ok s ≡ ok t → s ≡ t
ok_inj h = cc h

module _ (J : JsonLib) (j : J.Json) where
  create_sound : (s : UserCreateSerializer) → from_json_create J j ≡ ok s → CreatesUser J j s
  unfolding from_json_create
  create_sound s h =
      elim (Result-cases (required J j (str "username") (str "Username is required"))) [
        | inr (e, t) ↦ cc (rw t at h)
        | inl (_, u) ↦ elim (Result-cases (required J j (str "email") (str "Email is required"))) [
          | inr (e, t) ↦ cc (rw (u, t) at h)
          | inl (_, m) ↦
              elim (Result-cases (guard (not_email J j (str "email")) (str "Email is invalid"))) [
                | inr (e, t) ↦ cc (rw (u, m, t) at h)
                | inl (_, v) ↦ elim (Result-cases (required_password J j)) [
                  | inr (e, t) ↦ cc (rw (u, m, v, t) at h)
                  | inl (_, p) ↦
                      let (us, hu, nu) =
                        required-ok J j (str "username") (str "Username is required") u in
                      let (es, he, ne) =
                        required-ok J j (str "email") (str "Email is required") m in
                      let (ps, hp, lp) = required_password-ok J j p in
                      subst (CreatesUser J j)
                        (ok_inj (rw (u, m, v, p, hu.read, he.read, hp.read) at h))
                        (record {
                          username = hu;
                          email = he;
                          password = hp;
                          named = nu;
                          addressed = ne;
                          valid = email-ok J j es he v;
                          long_enough = lp;
                        })
                ]
              ]
        ]
      ]

  create_complete : (s : UserCreateSerializer) → CreatesUser J j s → from_json_create J j ≡ ok s
  unfolding from_json_create
  create_complete s c =
      rw
        (
          c.username.contained,
          c.username.is_text,
          c.username.read,
          c.named,
          c.email.contained,
          c.email.is_text,
          c.email.read,
          c.addressed,
          c.valid,
          c.password.contained,
          c.password.is_text,
          c.password.read,
          ≤→ltb (length s.password) 6 c.long_enough,
        )
        refl

  -- A document creates a user with these fields exactly when it holds them as texts under
  -- "username", "email" and "password", the first two not empty, the email of the form that the
  -- expression for emails describes, and the password of six bytes at least.
  pub create_accepts_iff :
      (s : UserCreateSerializer) → (from_json_create J j ≡ ok s) ↔ CreatesUser J j s
  create_accepts_iff s = (create_sound s, create_complete s)
