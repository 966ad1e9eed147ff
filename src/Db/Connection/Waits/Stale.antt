-- ===== src/Db/Connection/Waits/Stale.antt =====
-- When the timer of a wait for the socket runs behind the end of the wait.
use adequate_api_cpp.Base.{◌≡◌, ◌≢◌, ◌⊎◌, true, false, none, some, Str}
use adequate_api_cpp.Db.Connection.Waits.{
  ErrorCode, expired, aborted, fired, complete, Wait, initial, outcome, fire, resume,
}

module _ (name : Str) where
  -- Where a wait can be: under way or over, each with its timer's handler run or not.
  pub data Phase (st : Wait) : Type 0 where
    under_way :
        st.ended ≡ none → st.stray ≡ false → st.timed_out ≡ false → st.timer ≢ fired → Phase st
    timing_out :
        st.ended ≡ none → st.stray ≡ false → st.timed_out ≡ true → st.timer ≡ fired → Phase st
    over :
        (ec : ErrorCode)
        → st.ended ≡ some (outcome name false ec)
        → st.stray ≡ false
        → st.timed_out ≡ false
        → (st.timer ≡ expired) ⊎ (st.timer ≡ aborted)
        → Phase st
    over_late :
        (ec : ErrorCode)
        → st.ended ≡ some (outcome name true ec)
        → st.stray ≡ false
        → st.timed_out ≡ true
        → st.timer ≡ fired
        → Phase st
    strayed :
        (ec : ErrorCode)
        → st.ended ≡ some (outcome name false ec)
        → st.stray ≡ true
        → st.timed_out ≡ false
        → st.timer ≡ fired
        → Phase st

  -- What the timer's handler meets when it strays.
  abbrev pub RanLate : Wait → Type 0
  RanLate st =
      (st.timer ≡ fired)
      × ((ec : ErrorCode) × (st.ended ≡ some (outcome name false ec)))
      × (st.timed_out ≡ false)

  -- The descriptor is ready, the deadline passes before the coroutine has gone on, and then the
  -- coroutine is the first to run.
  abbrev pub late : ErrorCode → Wait
  late ec = fire (resume name ec (record initial { ready = complete ec; timer = expired }))
