-- ===== src/Router/Methods.antt =====
-- The shorthands of core/routers/Router.h for `add`, one for each method.
use adequate_api_cpp.Base.{List, [], ◌∷◌, Option, Str, str}
use adequate_api_cpp.Http.Libraries.{JsonLib, HttpLib}
use adequate_api_cpp.Http.Request.{get, head, post, put, patch, delete_, options}
use adequate_api_cpp.Router.{Handler, Router, add}

-- The default argument of the methods that have a body.
abbrev pub json_only : List Str
json_only = str "application/json" ∷ []

module _ {J : JsonLib} {H : HttpLib} {W Meta : Type 0} where
  abbrev pub add_get : Str → Handler J H W → Meta → Router J H W Meta → Option (Router J H W Meta)
  add_get path fn meta = add get path fn [] meta

  abbrev pub add_head : Str → Handler J H W → Meta → Router J H W Meta → Option (Router J H W Meta)
  add_head path fn meta = add head path fn [] meta

  abbrev pub add_options :
      Str → Handler J H W → Meta → Router J H W Meta → Option (Router J H W Meta)
  add_options path fn meta = add options path fn [] meta

  abbrev pub add_post :
      Str → Handler J H W → List Str → Meta → Router J H W Meta → Option (Router J H W Meta)
  add_post path fn allowed meta = add post path fn allowed meta

  abbrev pub add_put :
      Str → Handler J H W → List Str → Meta → Router J H W Meta → Option (Router J H W Meta)
  add_put path fn allowed meta = add put path fn allowed meta

  abbrev pub add_patch :
      Str → Handler J H W → List Str → Meta → Router J H W Meta → Option (Router J H W Meta)
  add_patch path fn allowed meta = add patch path fn allowed meta

  abbrev pub add_delete :
      Str → Handler J H W → List Str → Meta → Router J H W Meta → Option (Router J H W Meta)
  add_delete path fn allowed meta = add delete_ path fn allowed meta
