-- ===== src/Core/Config.antt =====
-- EnvConfig of core/configs/EnvConfig.h and core/configs/EnvConfig.cpp. The environment is the
-- function std::getenv.
pub mod Limits
use adequate_api_cpp.Base.{
  ℕ, ◌-◌, ◌%◌, ◌^◌, Option, none, some, Str, str, ◌++◌, Result, ok, throw, std_error, bind_result,
}
use adequate_api_cpp.Base.Decimal.{ℤ, pos, negsuc, stoi}

pub record EnvConfig : Type 0 where
  pub host : Str
  pub port : ℕ
  pub pg_dsn : Str
  pub pg_pool_size : ℕ
  pub redis_host : Str
  pub redis_port : ℕ
  pub redis_password : Str
  pub secret_key : Str
  pub file_upload_limit_size : ℕ
  pub multipart_adapter : Str
  pub media_path : Str

abbrev pub get_env_or_default : Option Str → Str → Str
get_env_or_default none default_ = default_
get_env_or_default (some value) default_ = value

-- static_cast of an int to an unsigned type of w bits.
abbrev pub to_unsigned : ℕ → ℤ → ℕ
to_unsigned w (pos n) = n % 2 ^ w
to_unsigned w (negsuc n) = 2 ^ w - 1 - n % 2 ^ w

abbrev pub checked_cast : ℕ → Str → Option ℤ → Result ℕ
checked_cast w key (some z) = ok (to_unsigned w z)
checked_cast w key none = throw (std_error (str "Invalid integer for env variable: " ++ key))

-- getEnvOrDefaultUint16 and getEnvOrDefaultUint64, by their width.
abbrev pub get_env_or_default_uint : ℕ → Str → Option Str → ℕ → Result ℕ
get_env_or_default_uint w key none default_ = ok default_
get_env_or_default_uint w key (some value) default_ = checked_cast w key (stoi value)

-- The configuration with the three numbers; the texts have defaults.
abbrev pub config_of : (Str → Option Str) → ℕ → ℕ → ℕ → EnvConfig
config_of getenv port redis_port limit = record {
  host = get_env_or_default (getenv (str "APP_HOST")) (str "0.0.0.0");
  port = port;
  pg_dsn = get_env_or_default (getenv (str "DATABASE_DSN")) (str "");
  pg_pool_size = 10;
  redis_host = get_env_or_default (getenv (str "REDIS_HOST")) (str "127.0.0.1");
  redis_port = redis_port;
  redis_password = get_env_or_default (getenv (str "REDIS_PASSWORD")) (str "");
  secret_key = get_env_or_default (getenv (str "SECRET_KEY")) (str "");
  file_upload_limit_size = limit;
  multipart_adapter = get_env_or_default (getenv (str "MULTIPART_ADAPTER")) (str "POCO");
  media_path = get_env_or_default (getenv (str "MEDIA_PATH")) (str "media");
}

unfoldable pub load : (Str → Option Str) → Result EnvConfig
load getenv =
    bind_result (get_env_or_default_uint 16 (str "APP_PORT") (getenv (str "APP_PORT")) 8080) λ port.
      bind_result (get_env_or_default_uint 16 (str "REDIS_PORT") (getenv (str "REDIS_PORT")) 6379)
        λ redis_port.
          bind_result
            (get_env_or_default_uint 64 (str "FILE_UPLOAD_LIMIT_SIZE")
              (getenv (str "FILE_UPLOAD_LIMIT_SIZE")) 0)
            λ limit. ok (config_of getenv port redis_port limit)
