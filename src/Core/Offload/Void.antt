-- ===== src/Core/Offload/Void.antt =====
-- The overload of async_offload (core/helpers/Offload.h) for a function that returns void: the
-- handler takes an exception only, and the result in the state is never written.
pub mod Simulated
use adequate_api_cpp.Base.{
  ◌≡◌, Bool, true, false, if◌then◌else◌, List, [], ◌∷◌, ◌++◌, Option, none, some, Result, ok, throw,
  Exception,
}
use adequate_api_cpp.Core.Offload.{Task, abort, finish, operation_aborted}

-- OffloadState<H, int>, with the posted tasks, whether the pool still has the work, and what the
-- handler was called with.
pub record VoidState : Type 0 where
  pub handler : Bool
  pub cancelled : Bool
  pub completed : Bool
  pub ep : Option Exception
  pub queue : List Task
  pub working : Bool
  pub calls : List (Option Exception)

abbrev pub initial : VoidState
initial = record {
  handler = true;
  cancelled = false;
  completed = false;
  ep = none;
  queue = [];
  working = true;
  calls = [];
}

-- The cancellation slot.
unfoldable pub cancel : VoidState → VoidState
cancel st = record st { cancelled = true; queue = st.queue ++ abort ∷ [] }

abbrev pub ep_of : Result (Unit {0}) → Option Exception → Option Exception
ep_of (ok _) ep = ep
ep_of (throw e) ep = some e

-- The function on the blocking pool, where func() ends with `r`.
unfoldable pub work : Result (Unit {0}) → VoidState → VoidState
work r st = record st {
  ep = if st.cancelled then some operation_aborted else ep_of r st.ep;
  queue = st.queue ++ finish ∷ [];
  working = false;
}

abbrev pub call_handler : Option Exception → VoidState → VoidState
call_handler ep st = record st { handler = false; calls = st.calls ++ ep ∷ [] }

abbrev pub abort_with : Bool → VoidState → VoidState
abort_with true st = call_handler (some operation_aborted) st
abort_with false st = st

abbrev pub run_task : Task → VoidState → VoidState
run_task abort st = abort_with st.handler st
run_task finish st = call_handler st.ep st

abbrev pub run_exchanged : Bool → Task → VoidState → VoidState
run_exchanged true t st = st
run_exchanged false t st = run_task t st

abbrev pub run_next : List Task → VoidState → VoidState
run_next [] st = st
run_next (t ∷ ts) st = run_exchanged st.completed t (record st { queue = ts; completed = true })

-- The caller's executor runs its next task, if there is one.
unfoldable pub run : VoidState → VoidState
run st = run_next st.queue st

-- The end of the coroutine: the exception is rethrown if there is one.
abbrev pub outcome : Option Exception → Result (Unit {0})
outcome (some e) = throw e
outcome none = ok tt

-- The steps of a call whose function ends with `r`, in any order.
pub data Step (r : Result (Unit {0})) : VoidState → VoidState → Type 0 where
  cancels : (st : VoidState) → Step r st (cancel st)
  works : (st : VoidState) → st.working ≡ true → Step r st (work r st)
  runs : (st : VoidState) → Step r st (run st)

pub data Reaches (r : Result (Unit {0})) : VoidState → Type 0 where
  start : Reaches r initial
  next : {st st' : VoidState} → Reaches r st → Step r st st' → Reaches r st'
