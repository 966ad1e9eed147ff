-- ===== src/Core/Offload/Once.antt =====
-- The handler of an offloaded call is called once.
use adequate_api_cpp.Base.{
  ◌≡◌, ◌⊎◌, Bool, true, false, List, [], ◌∷◌, Option, none, some, Result, throw, Exception,
}
use adequate_api_cpp.Core.Offload.{OffloadState, Task, abort, finish, operation_aborted, outcome}

module _ {R : Type 0} (r : Result R) where
  -- Whether the finishing task is still to run, posted or to be posted by the pool.
  abbrev has_finish : List Task → Bool
  has_finish [] = false
  has_finish (finish ∷ ts) = true
  has_finish (abort ∷ ts) = has_finish ts

  -- What a call of the handler can carry: the abort, or what the function ended with.
  abbrev pub Carries : Option Exception × Option R → Type 0
  Carries c = (outcome c ≡ some (throw operation_aborted)) ⊎ (outcome c ≡ some r)

  pub record Inv (st : OffloadState R) : Type 0 where
    pub fresh :
        st.working ≡ true → (st.ep ≡ none) × (st.result ≡ none) × (has_finish st.queue ≡ false)
    pub settled : st.working ≡ false → Carries (st.ep, st.result)
    pub uncalled :
        st.completed ≡ false
        → (st.handler ≡ true) × (st.calls ≡ []) × (st.working ≡ false → has_finish st.queue ≡ true)
    pub called :
        st.completed ≡ true
        → (st.handler ≡ false) × (c : Option Exception × Option R) × (st.calls ≡ c ∷ []) × Carries c
