-- ===== src/Auth/Gate.antt =====
-- The authentication middleware as a gate: who passes, and what everyone else gets.
use adequate_api_cpp.Base.{
  ◌≡◌, refl, ◌⊎◌, inl, inr, Bool, true, false, Option, none, some, Str, str, starts_with, Result,
  ok, throw, Exception, M, Bool-cases, Option-cases,
}
use adequate_api_cpp.Base.Decimal.{ℤ}
use adequate_api_cpp.Http.Libraries.{JsonLib, HttpLib}
use adequate_api_cpp.Http.Request.{Request}
use adequate_api_cpp.Http.Renderer.{Outcome}
use adequate_api_cpp.Router.{Handler}
use adequate_api_cpp.Auth.Middleware.{
  Checked, admitted, unauthorized, check, of_exists, of_decode, drop7, bearer, jwt_message,
  validation_message, Authenticated, handle, unauthorized_outcome,
}

module _ {W : Type 0} where
  abbrev Refused : Result Checked × W → Type 0
  Refused x =
      ((message : Str) × (w' : W) × (x ≡ (ok (unauthorized message), w')))
      ⊎ ((e : Exception) × (w' : W) × (x ≡ (throw e, w')))

  of_exists-cases :
      (id : ℤ) (x : Result Bool × W)
      → ((w' : W) × (x ≡ (ok true, w')) × (of_exists id x ≡ (ok (admitted id), w')))
        ⊎ Refused (of_exists id x)
  of_exists-cases id (ok true, w) = inl (w, refl, refl)
  of_exists-cases id (ok false, w) = inr (inl (_, w, refl))
  of_exists-cases id (throw e, w) = elim (Option-cases (validation_message e)) [
    | inl n ↦ inr (inr (e, w, rw n refl))
    | inr (m, s) ↦ inr (inl (m, w, rw s refl))
  ]

module _ {W : Type 0} (decode : Str → M W ℤ) (exists : ℤ → M W Bool) where
  of_decode-cases :
      (x : Result ℤ × W)
      → ((id : ℤ) × (w1 w' : W) × (x ≡ (ok id, w1))
          × (exists id w1 ≡ (ok true, w'))
          × (of_decode exists x ≡ (ok (admitted id), w')))
        ⊎ Refused (of_decode exists x)
  of_decode-cases (ok id, w) = elim (of_exists-cases id (exists id w)) [
    | inl (w', e, a) ↦ inl (id, w, w', refl, e, a)
    | inr r ↦ inr r
  ]
  of_decode-cases (throw e, w) = elim (Option-cases (jwt_message e)) [
    | inl n ↦ inr (inr (e, w, rw n refl))
    | inr (m, s) ↦ inr (inl (m, w, rw s refl))
  ]

  check-cases :
      (header : Option Str) (w : W)
      → ((id : ℤ) × (w' : W) × Authenticated decode exists header w id w'
          × (check decode exists header w ≡ (ok (admitted id), w')))
        ⊎ Refused (check decode exists header w)
  unfolding check
  check-cases none w = inr (inl (_, w, refl))
  check-cases (some auth) w = elim (Bool-cases (starts_with bearer auth)) [
    | inl b ↦ elim (of_decode-cases (decode (drop7 auth) w)) [
      | inl (id, w1, w', d, x, a) ↦ inl (
        id,
        w',
        record {
          auth = auth;
          decoded = w1;
          has_header = refl;
          is_bearer = b;
          decodes = d;
          user_exists = x;
        },
        rw b a,
      )
      | inr r ↦ inr (rw b r)
    ]
    | inr b ↦ inr (inl (str "Invalid Authorization format", w, rw b refl))
  ]

module _ {J : JsonLib} {H : HttpLib} {W : Type 0} (decode : Str → M W ℤ)
    (exists : ℤ → M W Bool) where
  -- The middleware runs the rest of the chain only for a request whose header "Authorization" holds,
  -- after "Bearer ", a token that decodes to the id of an existing user, and hands it the request with
  -- that id. Any other request ends with a 401 response with a message, or with an exception, whatever
  -- the rest of the chain is.
  pub handle_gates :
      (q : Request) (w : W)
      → ((id : ℤ) × (w' : W) × Authenticated decode exists q.authorization_header w id w'
          × ((next : Handler J H W)
              → handle decode exists next (q, w) ≡ next (record q { user_id = some id }, w')))
        ⊎ ((r : Result (Outcome J H)) × (w' : W) × (((message : Str) × (r
                  ≡ ok (unauthorized_outcome J H message)))
              ⊎ ((e : Exception) × (r ≡ throw e)))
            × ((next : Handler J H W) → handle decode exists next (q, w) ≡ (r, (q, w'))))
  unfolding handle
  handle_gates q w = elim (check-cases decode exists q.authorization_header w) [
    | inl (id, w', a, c) ↦ inl (id, w', a, λ next. rw c refl)
    | inr (inl (m, w', c)) ↦
        inr (ok (unauthorized_outcome J H m), w', inl (m, refl), λ next. rw c refl)
    | inr (inr (e, w', c)) ↦ inr (throw e, w', inr (e, refl), λ next. rw c refl)
  ]
