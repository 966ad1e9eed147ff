-- ===== src/Db/Pool/Capacity.antt =====
-- How many connections the pool owns.
use adequate_api_cpp.Base.{
  ℕ, ◌+◌, ◌≤◌, ◌<◌, ◌≡◌, refl, Bool, false, List, [], ◌∷◌, All, length, arith, Result, ok,
}
use adequate_api_cpp.Db.Breaker.{closed, allow}
use adequate_api_cpp.Db.Pool.{
  Channel, Pool, connecting, start, connected, make_or_wait, release, shutdown, finish_query,
}
use adequate_api_cpp.Db.Pool.Admission.{starts}

-- The operations of a pool that is used by one coroutine at a time.
pub data Event (A : Type 0) : Type 0 where
  acquired : (now end : ℕ) → Result ℕ → Event A
  released : ℕ → Bool → Event A
  queried : (c : ℕ) → (healthy : Bool) → (now : ℕ) → Result A → Event A
  shut_down : Event A

module _ {C : Channel} where
  unfoldable pub step : {A : Type 0} → Pool C → Event A → Pool C
  step p (acquired now end r) = (make_or_wait p now end r).1
  step p (released c healthy) = release p c healthy
  step p (queried c healthy now r) = (finish_query p c healthy now r).1
  step p shut_down = shutdown p

  unfoldable pub run : {A : Type 0} → Pool C → List (Event A) → Pool C
  run p [] = p
  run p (e ∷ es) = run (step p e) es

  make_or_wait-bounded :
      (p : Pool C) (now end : ℕ) (r : Result ℕ)
      → p.created_at ≤ p.size
      → let q = (make_or_wait p now end r).1 in (q.created_at ≤ p.size) × (q.size ≡ p.size)
  unfolding make_or_wait
  make_or_wait-bounded p now end r h = ground arith

  release-bounded :
      (p : Pool C) (c : ℕ) (healthy : Bool)
      → p.created_at ≤ p.size
      → let q = release p c healthy in (q.created_at ≤ p.size) × (q.size ≡ p.size)
  unfolding release
  release-bounded p c healthy h = ground arith

  finish_query-bounded :
      (A : Type 0) (p : Pool C) (c : ℕ) (healthy : Bool) (now : ℕ) (r : Result A)
      → p.created_at ≤ p.size
      → let q = (finish_query p c healthy now r).1 in (q.created_at ≤ p.size) × (q.size ≡ p.size)
  unfolding finish_query
  finish_query-bounded A p c healthy now r h = ground arith

  step-bounded :
      (A : Type 0) (p : Pool C) (e : Event A)
      → p.created_at ≤ p.size
      → ((step p e).created_at ≤ p.size) × ((step p e).size ≡ p.size)
  unfolding step shutdown
  step-bounded A p (acquired now end r) h = make_or_wait-bounded p now end r h
  step-bounded A p (released c healthy) h = release-bounded p c healthy h
  step-bounded A p (queried c healthy now r) h = finish_query-bounded A p c healthy now r h
  step-bounded A p shut_down h = ground arith

  -- Used by one coroutine at a time, the pool never owns more connections than its size, whatever
  -- its requests, queries and releases end with.
  pub run-created-le-size :
      (A : Type 0) (p : Pool C) (es : List (Event A))
      → p.created_at ≤ p.size
      → (run p es).created_at ≤ p.size
  unfolding run
  run-created-le-size A p [] h = h
  run-created-le-size A p (e ∷ es) h =
      let (b, s) = step-bounded A p e h in
      omega (arith, run-created-le-size A (step p e) es (omega arith))

  unfoldable pub connects : Pool C → List (ℕ × ℕ) → Pool C
  connects p [] = p
  connects p ((now, c) ∷ cs) = connects (connected p now (ok c)).1 cs

  connects-created_at :
      (p : Pool C) (cs : List (ℕ × ℕ)) → (connects p cs).created_at ≡ p.created_at + length cs
  unfolding connects connected
  connects-created_at p [] = omega arith
  connects-created_at p ((now, c) ∷ cs) =
      omega (arith, connects-created_at (connected p now (ok c)).1 cs)

  starts-connecting :
      (p : Pool C) (times : List ℕ)
      → p.stopping ≡ false
      → p.breaker.state ≡ closed
      → p.idle ≡ []
      → p.created_at < p.size
      → All (λ answer. answer ≡ connecting) (starts p times).0 × ((starts p times).1 ≡ p)
  unfolding starts start allow
  starts-connecting p [] s b i h = (tt, refl)
  starts-connecting p (now ∷ times) s b i h = ground (arith, starts-connecting p times s b i h)

  -- In a running pool with a closed breaker, no idle connection and fewer connections than its
  -- size, the requests that begin before any has connected all pass the capacity test: whatever
  -- their number, each begins to connect, and once all have connected the pool owns that many
  -- more connections.
  pub starts_overcommit :
      (p : Pool C) (times : List ℕ) (cs : List (ℕ × ℕ))
      → p.stopping ≡ false
      → p.breaker.state ≡ closed
      → p.idle ≡ []
      → p.created_at < p.size
      → length cs ≡ length times
      → All (λ answer. answer ≡ connecting) (starts p times).0
        × ((connects (starts p times).1 cs).created_at ≡ p.created_at + length times)
  starts_overcommit p times cs s b i h e =
      let (all, same) = starts-connecting p times s b i h in
      (all, rw same (omega (arith, connects-created_at p cs)))
