-- ===== src/App/Session.antt =====
-- HttpSession::run of core/bootstrap.cpp: the loop of reading a request, dispatching it and writing
-- the response. What the client sends, and whether each write succeeds, is the script of the session.
pub mod Answers
use adequate_api_cpp.Base.{
  ℕ, ◌≤◌, ◌≡◌, Bool, true, false, if◌then◌else◌, List, [], ◌∷◌, Option, none, some, length, Result,
  ok, throw, Exception, M,
}
use adequate_api_cpp.Http.Libraries.{HttpLib}
use adequate_api_cpp.Http.Request.{Request, is_std}
use adequate_api_cpp.Http.Raw.{RawRequest, request_of}

-- http::async_read with a parser whose body_limit is set: a longer body is an error.
pub record HttpReader : Type 1 where
  pub Wire : Type 0
  pub read : ℕ → Wire → Result RawRequest
  pub read_limit :
      (limit : ℕ) (wire : Wire) (raw : RawRequest)
      → read limit wire ≡ ok raw
      → length raw.body ≤ limit

-- How the coroutine ends, or that it waits for the client.
pub data Ended : Type 0 where
  waiting : Ended
  shut_down : Ended
  logged : Exception → Ended
  escaped : Exception → Ended

abbrev pub ended_by : Exception → Ended
ended_by e = if is_std e then logged e else escaped e

module _ (R : HttpReader) (H : HttpLib) {W : Type 0} (limit : ℕ)
    (dispatch : M (Request × W) H.Response) where
  pub record Exchange : Type 0 where
    pub wire : R.Wire
    pub write_error : Option Exception

  pub record Session : Type 0 where
    pub responses : List H.Response
    pub ended : Ended
    pub world : W

  abbrev pub stopped : Exception → W → Session
  stopped e w = record { responses = []; ended = ended_by e; world = w }

  abbrev pub closed_with : H.Response → W → Session
  closed_with res w = record { responses = res ∷ []; ended = shut_down; world = w }

  abbrev pub then_next : H.Response → Session → Session
  then_next res next = record next { responses = res ∷ next.responses }

  -- Behind co_await async_write.
  abbrev pub written : H.Response → Option Exception → W → (W → Session) → Session
  written res (some e) w next = stopped e w
  written res none w next = if H.keep_alive res then then_next res (next w) else closed_with res w

  abbrev pub dispatched :
      Result H.Response × (Request × W) → Option Exception → (W → Session) → Session
  dispatched (throw e, (q, w)) write_error next = stopped e w
  dispatched (ok res, (q, w)) write_error next = written res write_error w next

  abbrev pub received : Result RawRequest → Option Exception → W → (W → Session) → Session
  received (throw e) write_error w next = stopped e w
  received (ok raw) write_error w next = dispatched (dispatch (request_of raw, w)) write_error next

  unfoldable pub run : List Exchange → W → Session
  run [] w = record { responses = []; ended = waiting; world = w }
  run (x ∷ xs) w = received (R.read limit x.wire) x.write_error w (run xs)
