-- ===== src/App/Wiring.antt =====
-- di/AppContext.cpp: the context of the program, with the services that it holds put together from
-- the configuration.
pub mod Sessions
use adequate_api_cpp.Base.{
  ℕ, ◌≡◌, Bool, true, false, not, ◌||◌, if◌then◌else◌, List, [], ◌∷◌, Option, none, some, Str, str,
  Result, ok, throw, std_error, M, ◌>>=◌, pure,
}
use adequate_api_cpp.Base.Decimal.{ℤ}
use adequate_api_cpp.Http.Libraries.{JsonLib, HttpLib}
use adequate_api_cpp.Http.Request.{Request}
use adequate_api_cpp.Http.Renderer.{Outcome}
use adequate_api_cpp.Auth.Jwt.{JwtLib, encode, decode}
use adequate_api_cpp.Auth.Middleware.{authentication}
use adequate_api_cpp.Core.Config.{EnvConfig}
use adequate_api_cpp.Core.Hasher
use adequate_api_cpp.Core.Hasher.{Sodium, PwhashParams}
use adequate_api_cpp.Core.Datetime.{Calendar, parse_pg_timestamp, to_iso_string}
use adequate_api_cpp.Files.Disk.{Disk}
use adequate_api_cpp.Files.Names.{Options, build_absolute_path}
use adequate_api_cpp.Files.Path.{◌/ₚ◌}
use adequate_api_cpp.Files.Storage
use adequate_api_cpp.Users.Filters.{no_filter}
use adequate_api_cpp.Users.Serializers.{UserEntity}
use adequate_api_cpp.Users.Repository.{Query, PgRow}
use adequate_api_cpp.Users.Service
use adequate_api_cpp.Users.Service.{FileStore}
use adequate_api_cpp.Users.Controller
use adequate_api_cpp.App.Controllers.{health_index, swagger_index}
use adequate_api_cpp.App.Routes.{AppContext}

-- The globals g_ctx and g_inited.
pub record Globals (C : Type 0) : Type 0 where
  pub ctx : Option C
  pub inited : Bool

module _ {C : Type 0} where
  -- appctx::init, with a pointer that may be null
  unfoldable pub init : Option C → M (Globals C) (Unit {0})
  init none g =
      if g.inited
      then (throw (std_error (str "AppContext already initialized")), g)
      else (throw (std_error (str "AppContext is null")), g)
  init (some ctx) g =
      if g.inited
      then (throw (std_error (str "AppContext already initialized")), g)
      else (ok tt, record { ctx = some ctx; inited = true })

  abbrev got : Option C → Bool → Result C
  got (some ctx) true = ok ctx
  got (some ctx) false = throw (std_error (str "AppContext not initialized"))
  got none b = throw (std_error (str "AppContext not initialized"))

  -- appctx::get
  unfoldable pub get : M (Globals C) C
  get g = (got g.ctx g.inited, g)

-- FileSystemService::Options of core/file_system/FileSystemService.h, with its defaults.
unfoldable pub file_system_options : (root_path media_path : Str) (max_bytes : ℕ) → Options
file_system_options root_path media_path max_bytes = record {
  root_path = root_path;
  media_path = media_path;
  max_bytes = max_bytes;
  allowed_extensions =
      str "png" ∷ str "jpg" ∷ str "jpeg" ∷ str "webp" ∷ str "gif" ∷ str "pdf" ∷ str "txt" ∷ [];
  allowed_mime =
      str "image/png"
      ∷ str "image/jpeg"
      ∷ str "image/webp"
      ∷ str "application/pdf"
      ∷ str "text/plain"
      ∷ [];
  strict_mime = true;
  preserve_allowed_extension = true;
  allow_non_numeric_entity_id = false;
}

-- What the services stand on, over the world W: the pool, the parts of the standard library and of
-- the libraries that they call, the clock and the disk, which is a part of the world.
pub record Externals (W : Type 0) : Type 1 where
  pub json : JsonLib
  pub http : HttpLib
  pub jwt : JwtLib
  pub sodium : Sodium W
  pub disk : Disk
  pub query : Query W
  pub unspecified : PgRow
  pub calendar : Calendar
  pub fresh : UserEntity ℤ
  pub parse_origin_form : Str → Option (List (Str × Str))
  pub clock : W → ℕ
  pub disk_of : W → disk.State
  pub with_disk : disk.State → W → W

module _ {W : Type 0} (X : Externals W) where
  abbrev pub on_disk : {A : Type 0} → M X.disk.State A → M W A
  on_disk m w = let r = m (X.disk_of w) in (r.0, X.with_disk r.1 w)

  -- The operations of FileSystemService that the users' service is given.
  unfoldable pub file_store : Options → FileStore W
  file_store o = record {
    exists = λ path. on_disk (Storage.exists X.disk o path);
    remove = λ path. on_disk (Storage.remove X.disk o path);
    store = λ entity id file. on_disk (Storage.store X.disk o entity id file);
    absolute_path = build_absolute_path o;
  }

  module _ (secret_key : Str) where
    -- JwtService::encode and JwtService::decode at the time of the clock
    unfoldable pub encode_now : ℤ → M W Str
    encode_now id w = (ok (encode X.jwt secret_key id (X.clock w)), w)

    unfoldable pub decode_now : Str → M W ℤ
    decode_now token w = (decode X.jwt secret_key token (X.clock w), w)

  -- UsersService::exists with the filter of the middleware
  unfoldable pub exists_id : ℤ → M W Bool
  exists_id id = Service.exists X.query X.unspecified (record no_filter { id = some id })

  module _ (params : PwhashParams) where
    unfoldable pub verify_now : Str → Str → M W Bool
    verify_now password stored w =
        (ok (Hasher.verify X.sodium params password stored (some false)).0, w)

  module _ (params : PwhashParams) (config : EnvConfig) where
    -- The services and the controllers over an initialized FileSystemService.
    unfoldable pub context_of : Options → AppContext X.json X.http W
    context_of o =
        let files = file_store o in
        let hash = Hasher.hash X.sodium params in
        record {
          health = health_index X.json X.http;
          registration =
              Controller.registration X.json X.http (Service.register_user X.query hash X.fresh);
          login = Controller.login X.json X.http (Service.exists X.query X.unspecified) (
              Service.obtain_tokens X.query (parse_pg_timestamp X.calendar) (verify_now params)
                (encode_now config.secret_key));
          index = Controller.index X.json X.http X.parse_origin_form (
              Service.list X.query (parse_pg_timestamp X.calendar) (to_iso_string X.calendar)
                files);
          store = Controller.store X.json X.http (Service.create X.query hash X.fresh);
          update = Controller.update X.json X.http (Service.update X.query files hash X.fresh);
          remove = Controller.remove X.json X.http (Service.remove X.query files);
          swagger = swagger_index X.json X.http X.parse_origin_form;
          authentication = authentication (decode_now config.secret_key) exists_id;
        }

    -- appctx::wire, with the file service first: it is the one that can fail.
    abbrev pub opened : (project_root : Str) → M W Options
    opened project_root =
        let root = project_root /ₚ config.media_path in
        on_disk (
          Storage.initialize X.disk
            (file_system_options root config.media_path config.file_upload_limit_size))

    unfoldable pub wire : (project_root : Str) → M W (AppContext X.json X.http W)
    wire project_root = opened project_root >>= λ o. pure (context_of o)
