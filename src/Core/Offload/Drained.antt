-- ===== src/Core/Offload/Drained.antt =====
-- An offloaded call comes to its end: the work and as many tasks as are posted are enough.
use adequate_api_cpp.Base.{ℕ, zero, suc, ◌≡◌, Bool, true, false, List, Result, length}
use adequate_api_cpp.Core.Offload.{OffloadState, Task, work, run}

module _ {R : Type 0} (r : Result R) where
  -- The pool does the work if it still has it.
  abbrev pub worked : Bool → OffloadState R → OffloadState R
  worked true st = work r st
  worked false st = st

  -- The caller's executor runs as many tasks as `n`.
  abbrev pub run_tasks : ℕ → OffloadState R → OffloadState R
  run_tasks zero st = st
  run_tasks (suc n) st = run_tasks n (run st)

  -- The work, and then the tasks that are posted.
  abbrev pub drain : OffloadState R → OffloadState R
  drain st = let done = worked st.working st in run_tasks (length done.queue) done

  -- What is left of the queue and of the work behind a task.
  abbrev Rests : List Task → OffloadState R → Type 0
  Rests ts st = (st.queue ≡ ts) × (st.working ≡ false)
