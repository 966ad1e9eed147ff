-- ===== src/Core/Config/Limits.antt =====
-- What the configuration makes of the numbers in the environment.
use adequate_api_cpp.Base.{
  ℕ, ◌%◌, ◌^◌, ◌≤◌, ◌<◌, ◌≡◌, refl, Option, some, Str, str, ◌++◌, ok, throw, std_error, arith,
}
use adequate_api_cpp.Base.Decimal.{to_string}
use adequate_api_cpp.Base.Decimal.RoundTrip.{stoi-to_string, stoi-to_string_large}
use adequate_api_cpp.Core.Config.{EnvConfig, config_of, load}

limit_mod : (n : ℕ) → n < 2 ^ 31 → n % 2 ^ 64 ≡ n
limit_mod n h = omega arith

-- If the environment gives both ports as printed numbers below 2^31, they are kept modulo 2^16. A
-- printed limit for uploads is then kept as it is below 2^31, and from there on `load` throws, though
-- the limit is a 64-bit number.
pub load_numbers :
    (getenv : Str → Option Str) (port redis limit : ℕ)
    → getenv (str "APP_PORT") ≡ some (to_string port)
    → getenv (str "REDIS_PORT") ≡ some (to_string redis)
    → getenv (str "FILE_UPLOAD_LIMIT_SIZE") ≡ some (to_string limit)
    → port < 2 ^ 31
    → redis < 2 ^ 31
    → (limit < 2 ^ 31
        → (c : EnvConfig) × (load getenv ≡ ok c)
          × (c.port ≡ port % 2 ^ 16)
          × (c.redis_port ≡ redis % 2 ^ 16)
          × (c.file_upload_limit_size ≡ limit))
      × (2 ^ 31 ≤ limit
          → load getenv
            ≡ throw (
                std_error
                  (str "Invalid integer for env variable: " ++ str "FILE_UPLOAD_LIMIT_SIZE")))
unfolding load
load_numbers getenv port redis limit a r l hp hr = (
  λ h. (
    config_of getenv (port % 2 ^ 16) (redis % 2 ^ 16) (limit % 2 ^ 64),
    rw (a, r, l, stoi-to_string port hp, stoi-to_string redis hr, stoi-to_string limit h) refl,
    refl,
    refl,
    limit_mod limit h,
  ),
  λ h.
      rw (a, r, l, stoi-to_string port hp, stoi-to_string redis hr, stoi-to_string_large limit h)
        refl,
)
