-- ===== src/Router/Chain.antt =====
-- The default `after` of MiddlewareInterface, and the status of rendered errors.
use adequate_api_cpp.Base.{
  ℕ, ◌≡◌, refl, ◌∙◌, Bool, ◌==◌, List, [], ◌∷◌, Str, All, ok, Bool-cases, inl, inr,
}
use adequate_api_cpp.Base.Decimal.{ℤ}
use adequate_api_cpp.Http.Libraries.{JsonLib, HttpLib}
use adequate_api_cpp.Http.Request.{Request}
use adequate_api_cpp.Http.Renderer
use adequate_api_cpp.Http.Renderer.{render, error}
use adequate_api_cpp.Router.{Middleware, run_after}

module _ {J : JsonLib} {H : HttpLib} {W : Type 0} where
  -- Middlewares that keep the `after` of the base class, which returns its response.
  abbrev pub IsDefaultAfter : Middleware J H W → Type 0
  IsDefaultAfter m = (q : Request) (res : H.Response) (w : W) → m.after q res w ≡ (ok res, w)

  pub run_after-default :
      (ms : List (Middleware J H W)) (res : H.Response) (q : Request) (w : W)
      → All IsDefaultAfter ms
      → run_after ms res (q, w) ≡ (ok res, (q, w))
  unfolding run_after
  run_after-default [] res q w d = refl
  run_after-default (m ∷ ms) res q w d = rw (d.0 q res w) (run_after-default ms res q w d.1)

module _ (J : JsonLib) (H : HttpLib) where
  open H use {
    status, status-make, status-set, status-erase, status-set_body, status-set_keep_alive,
    status-content_length, status-prepare_payload,
  }

  status-set_all :
      (hs : List (Str × Str)) (r : H.Response) → status (Renderer.set_all J H hs r) ≡ status r
  unfolding Renderer.set_all
  status-set_all [] r = refl
  status-set_all ((f, v) ∷ hs) r = status-set_all hs (H.set f v r) ∙ status-set f v r

  -- Whatever the headers and the body, the rendered response has the status that was asked for.
  pub status-render :
      (q : Request) (st : ℕ) (body : J.Json) (ka : Bool) (hs : List (Str × Str)) (ind : ℤ)
      → status (render J H q st body ka hs ind) ≡ st
  unfolding render
  status-render q st body ka hs ind = elim (Bool-cases (st == 204)) [
    | inl e ↦ rw e (
        simp (
          status-erase, status-content_length, status-set_body, status-set_keep_alive, status-set,
          status-set_all, status-make,
        ))
    | inr e ↦ rw e (
        simp (
          status-prepare_payload, status-set_body, status-set_keep_alive, status-set,
          status-set_all, status-make,
        ))
  ]

  pub status-error :
      (q : Request) (st : ℕ) (message : Str) (ka : Bool) (hs : List (Str × Str)) (ind : ℤ)
      → status (error J H q st message ka hs ind) ≡ st
  unfolding error
  status-error q st message ka hs ind = status-render q st _ ka hs ind
