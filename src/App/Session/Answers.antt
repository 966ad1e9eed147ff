-- ===== src/App/Session/Answers.antt =====
-- What a session answers, against the dispatch of its requests in order.
use adequate_api_cpp.Base.{
  ℕ, ◌≡◌, refl, ap, if◌then◌else◌, List, [], ◌∷◌, none, length, ≤→ltb, Str, Result, ok, throw, M,
  inl, inr, Bool-cases,
}
use adequate_api_cpp.Http.Libraries.{JsonLib, HttpLib}
use adequate_api_cpp.Http.Request.{Request, Verb}
use adequate_api_cpp.Http.Raw.{RawRequest, request_of}
use adequate_api_cpp.Router.{Env, Handler, Middleware}
use adequate_api_cpp.Router.Dispatch.{
  checked, unsupported, respond, make415, after_check, check_body,
}
use adequate_api_cpp.App.Session.{HttpReader, Exchange, Session, run, dispatched}

module _ (R : HttpReader) (H : HttpLib) {W : Type 0} (limit : ℕ)
    (dispatch : M (Request × W) H.Response) where
  abbrev with_rest : Result H.Response × (Request × W) → (W → List H.Response) → List H.Response
  with_rest (ok res, (q, w)) rest = res ∷ rest w
  with_rest (throw e, (q, w)) rest = []

  -- The responses of `dispatch` to the requests, in order, up to the first that throws.
  unfoldable pub answers : List RawRequest → W → List H.Response
  answers [] w = []
  answers (raw ∷ raws) w = with_rest (dispatch (request_of raw, w)) (answers raws)

  -- The responses up to the first that closes the connection, with it.
  unfoldable pub until_closed : List H.Response → List H.Response
  until_closed [] = []
  until_closed (res ∷ rest) =
      let more = until_closed rest in if H.keep_alive res then res ∷ more else res ∷ []

  -- The client sends these requests, each is read, and the responses are written.
  abbrev pub Sends : List (Exchange R H limit dispatch) → List RawRequest → Type 0
  Sends [] [] = Unit
  Sends (x ∷ xs) (raw ∷ raws) =
      (R.read limit x.wire ≡ ok raw) × (x.write_error ≡ none) × Sends xs raws
  Sends _ _ = ⊥

  dispatched-answers :
      (d : Result H.Response × (Request × W)) (next : W → Session R H limit dispatch)
      (rest : W → List H.Response)
      → ((w : W) → (next w).responses ≡ until_closed (rest w))
      → (dispatched R H limit dispatch d none next).responses ≡ until_closed (with_rest d rest)
  unfolding until_closed
  dispatched-answers (throw e, (q, w)) next rest ih = refl
  dispatched-answers (ok res, (q, w)) next rest ih = elim (Bool-cases (H.keep_alive res)) [
    | inl k ↦ rw k (ap (λ rs. res ∷ rs) (ih w))
    | inr k ↦ rw k refl
  ]

  -- A session whose reads and writes succeed writes the responses of `dispatch` to its requests, in
  -- order and each in the world that the one before left, up to the first that throws, which gets
  -- no response, or closes the connection, which is the last; later requests are not looked at.
  pub run-answers :
      (xs : List (Exchange R H limit dispatch)) (raws : List RawRequest) (w : W)
      → Sends xs raws
      → (run R H limit dispatch xs w).responses ≡ until_closed (answers raws w)
  unfolding run answers until_closed
  run-answers [] [] w h = refl
  run-answers [] (raw ∷ raws) w h = absurd h
  run-answers (x ∷ xs) [] w h = absurd h
  run-answers (x ∷ xs) (raw ∷ raws) w h =
      rw (h.0, h.1)
        (dispatched-answers (dispatch (request_of raw, w)) (run R H limit dispatch xs)
          (answers raws) λ w'. run-answers xs raws w' h.2)

module _ (R : HttpReader) (J : JsonLib) (H : HttpLib) {W : Type 0} where
  -- A request that the session reads is never answered with 413: the router and the reader have the
  -- same limit, and the reader ends the session without a response first. Its body is rejected for
  -- the content type or goes on to be parsed.
  checked_within_limit :
      (env : Env) (wire : R.Wire) (raw : RawRequest) (mm : List (Verb × Handler J H W))
      (allowed : List Str) (ms : List (Middleware J H W)) (fn : Handler J H W) (w : W)
      → R.read env.file_upload_limit_size wire ≡ ok raw
      → checked env mm allowed ms fn (request_of raw, w) ≡ (
          if unsupported allowed (request_of raw)
          then respond ms (λ q. make415 J H q mm) (request_of raw, w)
          else after_check ms fn (check_body J H env (request_of raw)) (request_of raw, w))
  unfolding checked request_of
  checked_within_limit env wire raw mm allowed ms fn w h =
      rw
        (≤→ltb env.file_upload_limit_size (length raw.body)
          (R.read_limit env.file_upload_limit_size wire raw h))
        refl
