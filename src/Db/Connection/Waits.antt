-- ===== src/Db/Connection/Waits.antt =====
-- wait_readable and wait_writable of core/db/postgres/PgConnection.cpp: a wait for the socket beside
-- a timer, with the completions that the executor runs in any order.
pub mod Stale
use adequate_api_cpp.Base.{
  ◌≡◌, refl, sym, ap, ◌∙◌, ◌≢◌, ◌⊎◌, inl, inr, Bool, true, false, if◌then◌else◌, Option, none, some,
  Str, str, ◌++◌, Result, ok, throw, std_error, Exception,
}

-- An error_code of the wait: none, operation_aborted, or another with its message.
pub data ErrorCode : Type 0 where
  no_error : ErrorCode
  operation_aborted : ErrorCode
  other_error : Str → ErrorCode

-- The timer's handler: armed, queued with success since the deadline has passed, queued as aborted,
-- or run.
pub data Timer : Type 0 where
  armed expired aborted fired : Timer

-- The wait for the descriptor: under way, or complete with the coroutine queued to go on.
pub data Ready : Type 0 where
  waiting : Ready
  complete : ErrorCode → Ready

-- A call with what its timer's handler did behind its end: `stray` says that it wrote to the local
-- timed_out of the ended call and cancelled what then waited for the descriptor.
pub record Wait : Type 0 where
  pub timer : Timer
  pub ready : Ready
  pub timed_out : Bool
  pub ended : Option (Result (Unit {0}))
  pub stray : Bool

abbrev pub initial : Wait
initial = record { timer = armed; ready = waiting; timed_out = false; ended = none; stray = false }

-- timer.cancel() reaches a handler that is not yet queued.
abbrev pub cancel_timer : Timer → Timer
cancel_timer armed = aborted
cancel_timer expired = expired
cancel_timer aborted = aborted
cancel_timer fired = fired

-- stream_descriptor_->cancel()
abbrev pub cancel_wait : Ready → Ready
cancel_wait waiting = complete operation_aborted
cancel_wait (complete ec) = complete ec

-- The tests behind the wait; `name` is wait_readable or wait_writable.
abbrev pub outcome : (name : Str) → (timed_out : Bool) → ErrorCode → Result (Unit {0})
outcome name true ec = throw (std_error (str "postgres " ++ name ++ str " timeout"))
outcome name false no_error = ok tt
outcome name false operation_aborted = ok tt
outcome name false (other_error message) =
    throw (std_error (str "postgres " ++ name ++ str " failed: " ++ message))

-- The timer's handler with success, in a call that goes on or has ended.
abbrev pub fire_in : Option (Result (Unit {0})) → Wait → Wait
fire_in none st = record st { timer = fired; timed_out = true; ready = cancel_wait st.ready }
fire_in (some r) st = record st { timer = fired; stray = true }

unfoldable pub fire : Wait → Wait
fire st = fire_in st.ended st

-- The coroutine behind the wait.
unfoldable pub resume : (name : Str) → ErrorCode → Wait → Wait
resume name ec st = record st {
  timer = cancel_timer st.timer;
  ended = some (outcome name st.timed_out ec);
}

pub data Step (name : Str) : Wait → Wait → Type 0 where
  expires : (st : Wait) → st.timer ≡ armed → Step name st (record st { timer = expired })
  becomes_ready :
      (st : Wait) (ec : ErrorCode)
      → st.ready ≡ waiting
      → ec ≢ operation_aborted
      → Step name st (record st { ready = complete ec })
  fires : (st : Wait) → st.timer ≡ expired → Step name st (fire st)
  resumes :
      (st : Wait) (ec : ErrorCode)
      → st.ready ≡ complete ec
      → st.ended ≡ none
      → Step name st (resume name ec st)

pub data Reaches (name : Str) : Wait → Type 0 where
  start : Reaches name initial
  next : {st st' : Wait} → Reaches name st → Step name st st' → Reaches name st'
