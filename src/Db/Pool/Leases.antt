-- ===== src/Db/Pool/Leases.antt =====
-- Where a connection goes when its lease ends, and the leases that never end.
use adequate_api_cpp.Base.{
  ℕ, suc, ◌+◌, ◌-◌, ◌<◌, ◌≡◌, ◌⊎◌, Bool, true, false, List, [], ◌∷◌, length, arith, ok, throw,
  Exception,
}
use adequate_api_cpp.Db.Breaker.{closed, allow, on_success}
use adequate_api_cpp.Db.Pool.{
  Channel, Pool, receiving, start, connected, make_or_wait, release, begin,
}

module _ {C : Channel} where
  -- A connection that is broken, or comes back to a pool that is stopping, is dropped: the count
  -- falls by one, if it is not 0, and neither the idle list nor the channel gets it.
  pub release_dropped :
      (p : Pool C) (c : ℕ) (healthy : Bool)
      → (p.stopping ≡ true) ⊎ (healthy ≡ false)
      → let q = release p c healthy in
        (q.created_at ≡ p.created_at - 1) × (q.idle ≡ p.idle) × (q.channel ≡ p.channel)
  unfolding release
  release_dropped p c healthy h = ground arith

  -- A transaction for each entry: it gets a new connection c at the given time, and BEGIN throws e.
  unfoldable pub failed_begins : Pool C → List (ℕ × ℕ × Exception) → Pool C
  failed_begins p [] = p
  failed_begins p ((now, c, e) ∷ fs) =
      failed_begins (begin (make_or_wait p now now (ok c)).1 c (throw e)).1 fs

  abbrev IsFresh : Pool C → Type 0
  IsFresh p = (p.stopping ≡ false) × (p.breaker.state ≡ closed) × (p.idle ≡ [])

  make_or_wait-IsFresh :
      (p : Pool C) (now c : ℕ)
      → IsFresh p
      → p.created_at < p.size
      → let q = (make_or_wait p now now (ok c)).1 in
        IsFresh q × (q.created_at ≡ suc p.created_at) × (q.size ≡ p.size)
  unfolding make_or_wait start allow connected on_success
  make_or_wait-IsFresh p now c f h = ground arith

  failed_begins-full :
      (p : Pool C) (fs : List (ℕ × ℕ × Exception))
      → IsFresh p
      → p.created_at + length fs ≡ p.size
      → let q = failed_begins p fs in IsFresh q × (q.created_at ≡ q.size)
  unfolding failed_begins begin
  failed_begins-full p [] f h = (f, omega arith)
  failed_begins-full p ((now, c, e) ∷ fs) f h =
      let (f', more, same) = make_or_wait-IsFresh p now c f (omega arith) in
      failed_begins-full (make_or_wait p now now (ok c)).1 fs f' (omega arith)

  -- A BEGIN that throws never gives its connection back. In a running pool with a closed breaker
  -- and no idle connection, after as many of them as the pool may still make connections, the
  -- next request waits on the channel.
  pub failed_begins_exhaust :
      (p : Pool C) (fs : List (ℕ × ℕ × Exception)) (now : ℕ)
      → (p.stopping ≡ false) × (p.breaker.state ≡ closed) × (p.idle ≡ [])
      → p.created_at + length fs ≡ p.size
      → (start (failed_begins p fs) now).0 ≡ receiving
  unfolding start allow
  failed_begins_exhaust p fs now f h =
      let (fresh, full) = failed_begins-full p fs f h in ground arith
