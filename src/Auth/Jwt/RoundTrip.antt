-- ===== src/Auth/Jwt/RoundTrip.antt =====
-- A token that `encode` made and `decode` reads.
use adequate_api_cpp.Base.{ℕ, ◌+◌, ◌^◌, ◌<◌, ◌≡◌, str, Str, ok}
use adequate_api_cpp.Base.Decimal.{pos, to_string_ℤ, to_string}
use adequate_api_cpp.Base.Decimal.RoundTrip.{stoi-to_string}
use adequate_api_cpp.Auth.Jwt.{JwtLib, encode, decode, issuer}

module _ (L : JwtLib) (secret_key : Str) where
  -- A token made for a user whose id is below 2^31 decodes to that id, for less than an hour from its
  -- issue.
  pub decode-encode :
      (id issued now : ℕ)
      → id < 2 ^ 31
      → now < issued + 3600
      → decode L secret_key (encode L secret_key (pos id) issued) now ≡ ok (pos id)
  unfolding decode encode to_string_ℤ
  decode-encode id issued now h t = rw (
    L.read_subject-create issuer (str "JWS") (to_string id) secret_key issued (issued + 3600) now t,
    stoi-to_string id h,
  )
