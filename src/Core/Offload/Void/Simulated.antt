-- ===== src/Core/Offload/Void/Simulated.antt =====
-- The overload of async_offload for void is the general one with a result of one value that is left
-- out.
use adequate_api_cpp.Base.{◌≡◌, ◌⊎◌, List, [], ◌∷◌, Option, Result, throw, Exception}
use adequate_api_cpp.Core.Offload.{OffloadState, operation_aborted}
use adequate_api_cpp.Core.Offload
use adequate_api_cpp.Core.Offload.Void.{VoidState, outcome, Reaches}

abbrev pub exception_of : Option Exception × Option (Unit {0}) → Option Exception
exception_of (ep, result) = ep

abbrev exceptions : List (Option Exception × Option (Unit {0})) → List (Option Exception)
exceptions [] = []
exceptions (c ∷ cs) = c.0 ∷ exceptions cs

-- The general state without its result.
abbrev pub forget : OffloadState (Unit {0}) → VoidState
forget st = record {
  handler = st.handler;
  cancelled = st.cancelled;
  completed = st.completed;
  ep = st.ep;
  queue = st.queue;
  working = st.working;
  calls = exceptions st.calls;
}

module _ (r : Result (Unit {0})) where
  -- A reachable state of the general overload that a state of this one is the forgetting of.
  abbrev pub Simulated : VoidState → Type 0
  Simulated v = (st : OffloadState (Unit {0})) × Offload.Reaches r st × (forget st ≡ v)

  -- What the coroutine of this overload ends with when its handler is called with `ep`: the abort
  -- or what the function ended with.
  abbrev pub Ends : Option Exception → Type 0
  Ends ep = (outcome ep ≡ throw operation_aborted) ⊎ (outcome ep ≡ r)

  abbrev pub CalledOnce : VoidState → Type 0
  CalledOnce v = (v.calls ≡ []) ⊎ ((ep : Option Exception) × (v.calls ≡ ep ∷ []) × Ends ep)
