-- ===== src/Db/Pool/Admission.antt =====
-- How the circuit breaker governs the pool: who is refused, and how the outcome of a query feeds it.
use adequate_api_cpp.Base.{
  ℕ, ◌<◌, ◌≡◌, refl, Bool, true, false, List, [], ◌∷◌, All, arith, ◌∙◌, Result, ok, throw,
}
use adequate_api_cpp.Db.Breaker.{open_state, half_open, allow}
use adequate_api_cpp.Db.Pool.{
  Channel, Pool, Start, refused, reused, start, circuit_open, release, commit,
}

abbrev pub IsUnavailable : Start → Type 0
IsUnavailable answer = answer ≡ refused circuit_open

module _ {C : Channel} where
  -- The answers of a row of `start` calls, and the pool after them.
  unfoldable pub starts : Pool C → List ℕ → List Start × Pool C
  starts p [] = ([], p)
  starts p (now ∷ times) =
      let (answer, p') = start p now in
      let (answers, p'') = starts p' times in (answer ∷ answers, p'')

  -- While the breaker is open, each request of a running pool is refused at once, with the pool as it was.
  open-IsUnavailable :
      (p : Pool C) (times : List ℕ)
      → p.stopping ≡ false
      → p.breaker.state ≡ open_state
      → All (λ now. now < p.breaker.open_until) times
      → All IsUnavailable (starts p times).0 × ((starts p times).1 ≡ p)
  unfolding starts start allow
  open-IsUnavailable p [] s o h = (tt, refl)
  open-IsUnavailable p (now ∷ times) s o h = ground (arith, open-IsUnavailable p times s o h.1)

  probing-IsUnavailable :
      (p : Pool C) (times : List ℕ)
      → p.stopping ≡ false
      → p.breaker.state ≡ half_open
      → p.breaker.half_open_probe_inflight ≡ true
      → All IsUnavailable (starts p times).0 × ((starts p times).1 ≡ p)
  unfolding starts start allow
  probing-IsUnavailable p [] s o h = (tt, refl)
  probing-IsUnavailable p (now ∷ times) s o h = ground (arith, probing-IsUnavailable p times s o h)

  pub release-breaker :
      (p : Pool C) (c : ℕ) (healthy : Bool)
      → ((release p c healthy).breaker ≡ p.breaker) × ((release p c healthy).stopping ≡ p.stopping)
  unfolding release
  release-breaker p c healthy = ground arith

  -- A connection that is handed out when the open time is over is the probe.
  start-probe :
      (p : Pool C) (now c : ℕ)
      → p.breaker.state ≡ open_state
      → (start p now).0 ≡ reused c
      → let q = (start p now).1 in
        (q.stopping ≡ false)
        × (q.breaker.state ≡ half_open)
        × (q.breaker.half_open_probe_inflight ≡ true)
  unfolding start allow
  start-probe p now c o r = ground arith

  -- The breaker is open, and a transaction is admitted as its probe and reuses an idle
  -- connection. Whatever its COMMIT ends with, success included, the probe is never accounted
  -- for: every later request of the pool, at any times, is refused.
  probe_lost_by_transaction :
      (p : Pool C) (now c : ℕ) (healthy : Bool) (res : Result (Unit {0})) (times : List ℕ)
      → p.breaker.state ≡ open_state
      → (start p now).0 ≡ reused c
      → let q = (commit (start p now).1 c healthy res).1 in All IsUnavailable (starts q times).0
  unfolding commit
  probe_lost_by_transaction p now c healthy res times o r =
      let (s, h, i) = start-probe p now c o r in
      let (b, t) = release-breaker (start p now).1 c healthy in
      elim res
        as (λ res. All IsUnavailable (starts (commit (start p now).1 c healthy res).1 times).0) [
          | ok a ↦
              (probing-IsUnavailable (release (start p now).1 c healthy) times (t ∙ s) (rw b h)
                (rw b i)).0
          | throw e ↦ (probing-IsUnavailable (start p now).1 times s h i).0
        ]
