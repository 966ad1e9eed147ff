-- ===== src/Core/Offload.antt =====
-- async_offload of core/helpers/Offload.h: the work on the blocking pool, the completions that are
-- posted to the executor of the caller, and the cancellation, for a function with a result.
pub mod Once
pub mod Void
pub mod Drained
use adequate_api_cpp.Base.{
  ℕ, suc, ◌≡◌, Bool, true, false, if◌then◌else◌, List, [], ◌∷◌, ◌++◌, Option, none, some, Result,
  ok, throw, Exception, std_error, str,
}

-- make_operation_aborted_ep
abbrev pub operation_aborted : Exception
operation_aborted = std_error (str "Operation canceled")

-- The two functions that are posted to the caller's executor.
pub data Task : Type 0 where
  abort finish : Task

-- OffloadState, with the posted tasks, whether the blocking pool still has the work, and what the
-- handler was called with, in order.
pub record OffloadState (R : Type 0) : Type 0 where
  pub handler : Bool
  pub cancelled : Bool
  pub completed : Bool
  pub ep : Option Exception
  pub result : Option R
  pub queue : List Task
  pub working : Bool
  pub calls : List (Option Exception × Option R)

module _ {R : Type 0} where
  -- behind async_initiate
  abbrev pub initial : OffloadState R
  initial = record {
    handler = true;
    cancelled = false;
    completed = false;
    ep = none;
    result = none;
    queue = [];
    working = true;
    calls = [];
  }

  -- The cancellation slot.
  unfoldable pub cancel : OffloadState R → OffloadState R
  cancel st = record st { cancelled = true; queue = st.queue ++ abort ∷ [] }

  abbrev pub ep_of : Result R → Option Exception → Option Exception
  ep_of (ok a) ep = ep
  ep_of (throw e) ep = some e

  abbrev pub result_of : Result R → Option R → Option R
  result_of (ok a) result = some a
  result_of (throw e) result = result

  -- The function on the blocking pool, where func() ends with `r`.
  unfoldable pub work : Result R → OffloadState R → OffloadState R
  work r st = record st {
    ep = if st.cancelled then some operation_aborted else ep_of r st.ep;
    result = if st.cancelled then st.result else result_of r st.result;
    queue = st.queue ++ finish ∷ [];
    working = false;
  }

  abbrev pub call_handler : Option Exception → Option R → OffloadState R → OffloadState R
  call_handler ep result st = record st { handler = false; calls = st.calls ++ (ep, result) ∷ [] }

  abbrev pub abort_with : Bool → OffloadState R → OffloadState R
  abort_with true st = call_handler (some operation_aborted) none st
  abort_with false st = st

  -- What a posted task does behind its exchange of `completed`.
  abbrev pub run_task : Task → OffloadState R → OffloadState R
  run_task abort st = abort_with st.handler st
  run_task finish st = call_handler st.ep st.result st

  -- The task with what the exchange returned: true if the call has completed before.
  abbrev pub run_exchanged : Bool → Task → OffloadState R → OffloadState R
  run_exchanged true t st = st
  run_exchanged false t st = run_task t st

  abbrev pub run_next : List Task → OffloadState R → OffloadState R
  run_next [] st = st
  run_next (t ∷ ts) st = run_exchanged st.completed t (record st { queue = ts; completed = true })

  -- The caller's executor runs its next task, if there is one.
  unfoldable pub run : OffloadState R → OffloadState R
  run st = run_next st.queue st

  -- The end of the coroutine: the exception is rethrown, and the result is what was emplaced.
  -- *resultOpt on an empty optional is undefined.
  abbrev pub outcome : Option Exception × Option R → Option (Result R)
  outcome (some e, result) = some (throw e)
  outcome (none, some r) = some (ok r)
  outcome (none, none) = none

-- The steps of an offloaded call whose function ends with `r`, in any order: the pool takes the work
-- once, and the slot may be called while the work or a task holds the state.
pub data Step {R : Type 0} (r : Result R) : OffloadState R → OffloadState R → Type 0 where
  cancels : (st : OffloadState R) → Step r st (cancel st)
  works : (st : OffloadState R) → st.working ≡ true → Step r st (work r st)
  runs : (st : OffloadState R) → Step r st (run st)

pub data Reaches {R : Type 0} (r : Result R) : OffloadState R → Type 0 where
  start : Reaches r initial
  next : {st st' : OffloadState R} → Reaches r st → Step r st st' → Reaches r st'
