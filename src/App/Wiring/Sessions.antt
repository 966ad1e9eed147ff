-- ===== src/App/Wiring/Sessions.antt =====
-- The program's context under use: a user who registers is admitted, and a client without
-- credentials is not.
use adequate_api_cpp.Base.{str}
use adequate_api_cpp.Base.Decimal.{ℤ}
use adequate_api_cpp.Http.Request.{Request, json as parse_json}
use adequate_api_cpp.Router.{Router}
use adequate_api_cpp.Auth.Jwt.{encode}
use adequate_api_cpp.Core.Config.{EnvConfig}
use adequate_api_cpp.Core.Hasher
use adequate_api_cpp.Core.Hasher.{PwhashParams}
use adequate_api_cpp.Users.Service.{TokenPair}
use adequate_api_cpp.App.Wiring.{Externals}

module _ {W : Type 0} (X : Externals W) (params : PwhashParams) where
  -- The tokens that are made for a user at the time of a world.
  abbrev pub tokens_at : EnvConfig → ℤ → W → TokenPair
  tokens_at config id w = record {
    refresh_token = str "None";
    access_token = encode X.jwt config.secret_key id (X.clock w);
  }
