-- ===== src/Auth/Jwt.antt =====
-- JwtService of services/jwt/JwtService.cpp over the library jwt-cpp, and mapJwtError of
-- middlewares/AuthenticationMiddleware.h.
pub mod RoundTrip
use adequate_api_cpp.Base.{
  ℕ, ◌+◌, ◌<◌, ◌≡◌, Bool, true, false, List, [], ◌∷◌, Option, none, some, Str, str, Result, ok,
  throw, Exception, jwt_exception, JwtError, invalid_signature, token_expired, invalid_claim,
  decode_error, unknown_jwt,
}
use adequate_api_cpp.Base.Decimal.{ℤ, to_string_ℤ, stoi}

-- What the library calls of `decode` end with: the claim "sub", or an exception of a class that
-- `decode` tells apart, with its what().
pub data Claim : Type 0 where
  subject : Str → Claim
  signature_verification token_verification claim_not_present other_std : Str → Claim
  not_std : Claim

abbrev pub issuer : Str
issuer = str "adequate-api"

-- jwt-cpp with HS256: a token from an issuer, a type, a subject, the times of issue and expiry, and
-- a secret; and jwt::decode, verify and get_payload_claim("sub") at a time. Before its expiry a
-- token verifies under its own secret and issuer.
pub record JwtLib : Type 0 where
  pub create : (issuer type sub : Str) (issued_at expires_at : ℕ) (secret : Str) → Str
  pub read_subject : (secret issuer token : Str) (now : ℕ) → Claim
  pub read_subject-create :
      (issuer type sub secret : Str) (issued_at expires_at now : ℕ)
      → now < expires_at
      → read_subject secret issuer (create issuer type sub issued_at expires_at secret) now
        ≡ subject sub

abbrev of_stoi : Option ℤ → Result ℤ
of_stoi (some id) = ok id
of_stoi none = throw (jwt_exception decode_error (str "stoi"))

abbrev pub of_claim : Claim → Result ℤ
of_claim (subject sub) = of_stoi (stoi sub)
of_claim (signature_verification msg) = throw (jwt_exception invalid_signature msg)
of_claim (token_verification msg) = throw (jwt_exception token_expired msg)
of_claim (claim_not_present msg) = throw (jwt_exception invalid_claim msg)
of_claim (other_std msg) = throw (jwt_exception decode_error msg)
of_claim not_std = throw (jwt_exception unknown_jwt (str "Unknown JWT error"))

module _ (L : JwtLib) (secret_key : Str) where
  -- Times are seconds; the expiry is an hour after the issue.
  unfoldable pub encode : (id : ℤ) (now : ℕ) → Str
  encode id now = L.create issuer (str "JWS") (to_string_ℤ id) now (now + 3600) secret_key

  -- The id of the user that `decode` returns.
  unfoldable pub decode : (token : Str) (now : ℕ) → Result ℤ
  decode token now = of_claim (L.read_subject secret_key issuer token now)

unfoldable pub map_jwt_error : JwtError → Str
map_jwt_error token_expired = str "Token expired"
map_jwt_error invalid_signature = str "Invalid signature"
map_jwt_error invalid_claim = str "Invalid claim"
map_jwt_error _ = str "Your token is shit"
