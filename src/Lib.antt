-- ===== src/Lib.antt =====
-- Verification of the adequate-api-cpp backend.
--
-- The program is an HTTP service in C++20 on Boost.Asio coroutines. A session reads a request and
-- hands it to the router, which compiles its path templates to regular expressions, finds the entry
-- of the path, rejects what the entry does not take, and runs the middlewares around the handler.
-- The handlers of the users call serializers, services and a repository; the repository builds SQL
-- texts and sends them through a pool of PostgreSQL connections behind a circuit breaker. Passwords
-- are hashed on a blocking pool, tokens are made and read by the JWT service, and pictures are kept
-- by the file service.
--
-- Files, and the code they are about (paths from the repository's root):
--   Base            Names shared by all files. Base.Text: std::string as the list of its bytes.
--                   Base.Results: src/core/errors/Errors.h, and the state monad M of code that may
--                   throw. Base.Decimal: std::to_string, std::stoi, std::stoll and std::stoull, with
--                   the ranges of int, long long and unsigned long long written out.
--   Http            Http.Request: Request of src/core/request/Request.h; Http.Raw: its constructor, and
--                   redirect of src/core/response/Response.h. Http.Renderer: JsonResult
--                   and JsonRenderer. Http.Libraries: nlohmann/json and Boost.Beast responses as
--                   records of operations with their documented laws. Http.Samples: instances.
--   Router          src/core/routers/Router.cpp: the table, `add`, `use_global`, `use_scoped`,
--                   `collect_middlewares_for`, `find_route` (the loop of dispatch over the table),
--                   `run_chain` and `run_after`. Router.Template: compileRoute. Router.Regex: the
--                   part of std::regex that compileRoute writes. Router.Dispatch: dispatch and its
--                   error responses, with one function for each stage of it. Router.Methods: the
--                   shorthands for `add` in src/core/routers/Router.h.
--   Auth            Auth.Jwt: src/services/jwt/JwtService.cpp. Auth.Middleware:
--                   src/middlewares/AuthenticationMiddleware.cpp.
--   Db              Db.Breaker: PgPool::CircuitBreaker of src/core/db/postgres/interfaces/PgPool.h.
--                   Db.Pool: PgPool.cpp and Transaction.cpp of src/core/db/postgres. A coroutine is
--                   cut where it suspends: `start`, then `connected` or a received connection.
--                   Db.Pool.Interleaving: these stretches in any order.
--                   Db.Connection: PgConnection.cpp of the same directory, its data and loops;
--                   Db.Connection.Queries its operations; Db.Connection.Waits wait_readable and
--                   wait_writable with their timer, as a step relation.
--                   Db.SqlBuilder: src/core/db/postgres/builder/SQLBuilder.h.
--   Users           Users.Filters: src/core/filters/BaseFilter.cpp and src/filters/users.
--                   Users.Serializers: src/serializers. Users.Repository:
--                   src/repositories/users/UsersRepository.cpp. Users.Service:
--                   src/services/users/UsersService.cpp and
--                   src/services/auth/AuthenticationService.cpp. Users.Controller: src/controllers.
--   Files           src/core/file_system/FileSystemService.cpp: Files.Names its types and names,
--                   Files.Storage its operations. Files.Path: std::filesystem::path on POSIX.
--                   Files.Disk: the disk and the streams as a record of operations with laws.
--   Core            Core.Offload: src/core/helpers/Offload.h, as a step relation over all
--                   interleavings; Core.Offload.Void: its overload for void. Core.OpenApi:
--                   src/core/openapi/types/OpenApiResponses.h; Core.OpenApi.Document:
--                   OpenApiBuilder.h and OpenApiParamBuilder.h of src/core/openapi. Core.Hasher:
--                   src/core/hashers/SodiumPasswordHasher.h. Core.Datetime:
--                   src/helpers/DatetimeConverter.h.
--                   Core.Multipart: src/core/multipart/adapters/POCOMultipartAdapter.cpp.
--                   Core.Config: src/core/configs/EnvConfig.cpp.
--   App             The program put together. App.Routes: src/routes/Routes.cpp, and App.Controllers
--                   the controllers that only it names. App.Wiring: src/di/AppContext.cpp, which
--                   makes the handlers of App.Routes from the models of the services. App.Session:
--                   HttpSession::run of src/core/bootstrap.cpp. App.Schemas: the schemas of the
--                   serializers and of registerOpenApi of the controllers. App.Isolation: the router of the
--                   program under the authentication middleware.
-- A child module holds the lemmas and theorems of what it is named for. The Tests modules hold runs
-- on concrete data, and App.Samples the small program that App.Tests runs.
--
-- Conventions. A member function has its name in snake_case; state that a call reads or writes is an
-- argument and a part of the result. A call that may throw returns a Result, and in the state monad
-- M the state survives the exception, as the objects of the program do. A handler is a call that
-- reads and writes the request, which the program passes by reference, and a world W that stands for
-- all that the services reach. Log lines are left out, except where the text that they log is
-- computed by a call that can throw. An exception carries its class, as far as a handler tells it
-- apart, and its message; `is_std` says whether it belongs to the hierarchy of std::exception.
--
-- Parameters, for code that is not in the repository: nlohmann/json, Boost.Beast, jwt-cpp, libpq, the
-- asynchronous channel of Boost.Asio, POCO's multipart reader, libmagic, libsodium, the random
-- generator, std::filesystem and streams, the calendar of the C library, and the database. Their laws are fields of the records
-- (what a response keeps of what is set in it, that a signed token decodes until its expiry, that a
-- write to one directory entry leaves another alone); each record has a concrete instance among the
-- samples and tests.
--
-- Bounds. Every loop of the models is structural recursion, or recursion on the accessibility of the
-- number that is printed, so there is no fuel. Times are natural numbers; the wrap-around of parsed
-- ids and ports and the ranges of the std::sto functions are written out. Counters of the pool, the
-- breaker and the placeholders are taken not to overflow.
--
-- Not modelled: src/core/file_system/magic_mime (a wrapper of libmagic), the file that the OpenAPI
-- document is written to, the loggers, and the start of the program: src/main.cpp, with the acceptor
-- and the signals of src/core/bootstrap.cpp. A time point is not bounded, as the program's is by its
-- 64 bits of nanoseconds.
pub mod Base
pub mod Db
pub mod Http
pub mod Router
pub mod Auth
pub mod Users
pub mod Files
pub mod Core
pub mod App
