-- ===== src/App/Isolation.antt =====
-- The users' resources of the program, for a client without credentials.
use adequate_api_cpp.Base.{
  ◌≡◌, refl, sym, ◌∙◌, Bool, true, List, some, Str, str, starts_with, M, subst, some_inj,
}
use adequate_api_cpp.Base.Decimal.{ℤ}
use adequate_api_cpp.Http.Libraries.{JsonLib, HttpLib}
use adequate_api_cpp.Http.Request.{Request}
use adequate_api_cpp.Router.{Env, Router, normalize_target}
use adequate_api_cpp.Router.Dispatch.{dispatch}
use adequate_api_cpp.Auth.Middleware.{authentication}
use adequate_api_cpp.Auth.Refusal.{IsRefused, TurnedAway}
use adequate_api_cpp.Auth.Isolation.{dispatch_isolates}
use adequate_api_cpp.Core.OpenApi.Document.{OpenApiMeta}
use adequate_api_cpp.App.Routes.{AppContext, define_routes}
use adequate_api_cpp.App.Routes.Resources.{
  Resource, health, registrations, logins, users, swagger, user, path_of, is_guarded, no_routes,
  app_router, define_routes-app_router,
}

guarded_path : (r : Resource) → is_guarded r ≡ true → starts_with (str "/users") (path_of r) ≡ true
unfolding starts_with str
guarded_path users h = refl
guarded_path (user id) h = refl
guarded_path health h = cc h
guarded_path registrations h = cc h
guarded_path logins h = cc h
guarded_path swagger h = cc h

module _ (J : JsonLib) (H : HttpLib) {W : Type 0} (decode : Str → M W ℤ)
    (exists : ℤ → M W Bool) where
  -- In the router that define_routes makes, with the authentication middleware of the program, a
  -- request for the users or a user whose credentials are refused is turned away, whatever its
  -- method, body and handler: with a 401 response in the world that the refusal left, or before
  -- that in the world as it was.
  pub users_isolated :
      (ctx : AppContext J H W) (headers_json : List (Str × Str) → J.Json) (env : Env)
      (router : Router J H W (OpenApiMeta J)) (r : Resource) (q : Request) (w w' : W)
      → ctx.authentication ≡ authentication decode exists
      → define_routes ctx no_routes ≡ some router
      → is_guarded r ≡ true
      → normalize_target q ≡ path_of r
      → IsRefused decode exists w q.authorization_header w'
      → TurnedAway H q.method w w' (dispatch headers_json router env (q, w))
  users_isolated ctx headers_json env router r q w w' a d g t h =
      let e : app_router ctx ≡ router = some_inj (sym (define_routes-app_router ctx) ∙ d) in
      subst
        (λ (x : Router J H W (OpenApiMeta J)).
          TurnedAway H q.method w w' (dispatch headers_json x env (q, w)))
        e
        (dispatch_isolates J H decode exists headers_json env (app_router ctx) (str "/users") q w w'
          (refl, rw a refl) (rw t (guarded_path r g)) h)
