-- ===== src/Db/Pool/Interleaving/Exclusive.antt =====
-- No connection is in two places, whatever the interleaving.
use adequate_api_cpp.Base.{
  ℕ, suc, ◌+◌, ◌≤◌, ◌<◌, ◌≡◌, refl, ap, Bool, false, List, [], ◌∷◌, ◌++◌, length, arith, Result, ok,
  throw, db_error, multipart_error, validation_error, file_validation_error, file_security_error,
  file_io_error, jwt_exception, std_error, foreign, inl, inr, Option-cases,
}
use adequate_api_cpp.Db.Breaker.{CircuitBreaker, allow, on_success, on_failure}
use adequate_api_cpp.Db.Pool.{
  Channel, Pool, Start, reused, connecting, receiving, refused, start, connected, release,
  finish_query, shutdown, pop_back, take_connection,
}
use adequate_api_cpp.Db.Pool.Interleaving.{
  count, remove_one, Holdings, System, Step, requested, requests, connects, connect_fails, receives,
  finishes, releases, shuts_down, IsInitial, Reaches, here, next,
}

count-append : (a : ℕ) (xs ys : List ℕ) → count a (xs ++ ys) ≡ count a xs + count a ys
count-append a [] ys = omega arith
count-append a (x ∷ xs) ys = ground (arith, count-append a xs ys)

length-append : (xs ys : List ℕ) → length (xs ++ ys) ≡ length xs + length ys
length-append [] ys = omega arith
length-append (x ∷ xs) ys = omega (arith, length-append xs ys)

count-remove_one :
    (a b : ℕ) (xs : List ℕ)
    → 0 < count b xs
    → (count a xs ≡ count a (b ∷ remove_one b xs)) × (length xs ≡ suc (length (remove_one b xs)))
count-remove_one a b [] h = absurd (omega arith)
count-remove_one a b (x ∷ xs) h = ground (arith, count-remove_one a b xs)

count-pop_back :
    (a c : ℕ) (cs : List ℕ)
    → (count a (c ∷ cs) ≡ count a ((pop_back c cs).0 ∷ (pop_back c cs).1))
      × (length (pop_back c cs).1 ≡ length cs)
unfolding pop_back
count-pop_back a c [] = (refl, refl)
count-pop_back a c (d ∷ cs) = ground (arith, count-pop_back a d cs)

abbrev given : ℕ → Start → ℕ
given d (reused c) = count d (c ∷ [])
given d _ = 0

abbrev given_length : Start → ℕ
given_length (reused c) = 1
given_length _ = 0

module _ {C : Channel} (L : Holdings C) where
  -- How often the pool has a connection at hand, and how many it has.
  abbrev stock : ℕ → Pool C → ℕ
  stock d p = count d p.idle + count d (L.held p.channel)

  abbrev stock_length : Pool C → ℕ
  stock_length p = length p.idle + length (L.held p.channel)

  -- What `start` gives away it has no more, and it counts and stops nothing.
  abbrev Given : ℕ → Pool C → Start × Pool C → Type 0
  Given d p (a, q) =
      (stock d p ≡ given d a + stock d q)
      × (stock_length p ≡ given_length a + stock_length q)
      × (q.created_at ≡ p.created_at)
      × (q.stopping ≡ p.stopping)

  take_connection-Given :
      (d : ℕ) (p : Pool C) (idle : List ℕ) → p.idle ≡ idle → Given d p (take_connection p idle)
  take_connection-Given d p [] e = ground arith
  take_connection-Given d p (c ∷ cs) e =
      ground (arith, count-pop_back d c cs, ap (count d) e, ap length e)

  start-Given : (d : ℕ) (p : Pool C) (now : ℕ) → Given d p (start p now)
  unfolding start
  start-Given d p now =
      ground (
        arith,
        take_connection-Given d (record p { breaker = (allow p.breaker now).1 }) p.idle refl,
      )

  release-stock :
      (d : ℕ) (p : Pool C) (c : ℕ) (healthy : Bool)
      → let q = release p c healthy in
        (stock d q ≤ stock d p + count d (c ∷ [])) × (q.stopping ≡ p.stopping)
  unfolding release
  release-stock d p c healthy = elim (Option-cases (C.try_send c p.channel)) [
    | inl n ↦ ground (arith, n, count-append d p.idle (c ∷ []))
    | inr (ch, t) ↦ ground (arith, t, L.try_send_held c d p.channel ch t)
  ]

  -- A running pool with one connection at least that is given one back has it in stock or forgets it.
  release_account :
      (p : Pool C) (c : ℕ) (healthy : Bool)
      → p.stopping ≡ false
      → 0 < p.created_at
      → let q = release p c healthy in
        suc (q.created_at + stock_length p) ≡ p.created_at + stock_length q
  unfolding release
  release_account p c healthy s h = elim (Option-cases (C.try_send c p.channel)) [
    | inl n ↦ ground (arith, n, length-append p.idle (c ∷ []))
    | inr (ch, t) ↦ ground (arith, t, L.try_send_held c 0 p.channel ch t)
  ]

  finish_query-release :
      (p : Pool C) (c : ℕ) (healthy : Bool) (now : ℕ) (r : Result (Unit {0}))
      → (b : CircuitBreaker) × ((finish_query p c healthy now r).1
          ≡ release (record p { breaker = b }) c healthy)
  unfolding finish_query
  finish_query-release p c healthy now (ok u) = (on_success p.breaker, refl)
  finish_query-release p c healthy now (throw (db_error code msg)) = (p.breaker, refl)
  finish_query-release p c healthy now (throw (multipart_error m)) =
      (on_failure p.breaker now, refl)
  finish_query-release p c healthy now (throw (validation_error m)) =
      (on_failure p.breaker now, refl)
  finish_query-release p c healthy now (throw (file_validation_error m)) =
      (on_failure p.breaker now, refl)
  finish_query-release p c healthy now (throw (file_security_error m)) =
      (on_failure p.breaker now, refl)
  finish_query-release p c healthy now (throw (file_io_error m)) = (on_failure p.breaker now, refl)
  finish_query-release p c healthy now (throw (jwt_exception e m)) =
      (on_failure p.breaker now, refl)
  finish_query-release p c healthy now (throw (std_error m)) = (on_failure p.breaker now, refl)
  finish_query-release p c healthy now (throw foreign) = (on_failure p.breaker now, refl)

  -- How often a connection is under lease or in stock.
  abbrev places : ℕ → Pool C → List ℕ → ℕ
  places d p leased = count d leased + stock d p

  record Inv (p : Pool C) (leased : List ℕ) (next_id : ℕ) : Type 0 where
    exclusive : (d : ℕ) → places d p leased ≤ 1
    unused : (d : ℕ) → next_id ≤ d → places d p leased ≡ 0
    accounted : p.stopping ≡ false → p.created_at ≡ length leased + stock_length p

  -- A pool with the same stock, which has counted and stopped nothing.
  kept-Inv :
      (p q : Pool C) (leased : List ℕ) (n : ℕ)
      → ((d : ℕ) → Given d p (receiving, q))
      → Inv p leased n
      → Inv q leased n
  kept-Inv p q leased n g v = record {
    exclusive = λ d. ground (arith, v.exclusive d, g d);
    unused = λ d h. ground (arith, v.unused d h, g d);
    accounted = λ h. ground (arith, v.accounted, g 0);
  }

  requested-Inv :
      (p : Pool C) (s : System C) (x : Start × Pool C)
      → ((d : ℕ) → Given d p x)
      → Inv p s.leased s.next_id
      → Inv (requested L x s).pool (requested L x s).leased (requested L x s).next_id
  requested-Inv p s (reused c, q) g v = record {
    exclusive = λ d. ground (arith, v.exclusive d, g d);
    unused = λ d h. ground (arith, v.unused d h, g d);
    accounted = λ h. ground (arith, v.accounted, g 0);
  }
  requested-Inv p s (connecting, q) g v = kept-Inv p q s.leased s.next_id g v
  requested-Inv p s (receiving, q) g v = kept-Inv p q s.leased s.next_id g v
  requested-Inv p s (refused e, q) g v = kept-Inv p q s.leased s.next_id g v

  release-Inv :
      (p : Pool C) (leased : List ℕ) (n c : ℕ) (healthy : Bool)
      → 0 < count c leased
      → Inv p leased n
      → Inv (release p c healthy) (remove_one c leased) n
  release-Inv p leased n c healthy h v = record {
    exclusive = λ d.
        ground (arith, v.exclusive d, release-stock d p c healthy, count-remove_one d c leased);
    unused = λ d k.
        ground (arith, v.unused d k, release-stock d p c healthy, count-remove_one d c leased);
    accounted = λ k. ground (
      arith,
      v.accounted,
      release-stock 0 p c healthy,
      release_account p c healthy,
      count-remove_one c c leased,
    );
  }

  Step-Inv :
      {s t : System C} → Step L s t → Inv s.pool s.leased s.next_id → Inv t.pool t.leased t.next_id
  unfolding connected shutdown
  Step-Inv {s} (requests now) v =
      requested-Inv s.pool s (start s.pool now) (λ d. start-Given d s.pool now) v
  Step-Inv {s} (connects n now e) v = record {
    exclusive = λ d. ground (arith, v.exclusive d, v.unused s.next_id (omega arith));
    unused = λ d h. ground (arith, v.unused d (omega arith));
    accounted = λ h. ground (arith, v.accounted);
  }
  Step-Inv {s} (connect_fails n now x e) v = record {
    exclusive = v.exclusive;
    unused = v.unused;
    accounted = v.accounted;
  }
  Step-Inv {s} (receives c ch e) v = record {
    exclusive = λ d. ground (arith, v.exclusive d, L.receive_held c d s.pool.channel ch e);
    unused = λ d h. ground (arith, v.unused d h, L.receive_held c d s.pool.channel ch e);
    accounted = λ h. ground (arith, v.accounted, L.receive_held c 0 s.pool.channel ch e);
  }
  Step-Inv {s} (finishes c now healthy r h) v =
      let (b, e) = finish_query-release s.pool c healthy now r in
      rw e (
        release-Inv (record s.pool { breaker = b }) s.leased s.next_id c healthy h
          (record { exclusive = v.exclusive; unused = v.unused; accounted = v.accounted }))
  Step-Inv {s} (releases c healthy h) v = release-Inv s.pool s.leased s.next_id c healthy h v
  Step-Inv {s} shuts_down v = record {
    exclusive = λ d. ground (arith, v.exclusive d, L.close_held d s.pool.channel);
    unused = λ d h. ground (arith, v.unused d h, L.close_held d s.pool.channel);
    accounted = λ h. cc h;
  }

  Reaches-Inv :
      {s t : System C}
      → Inv s.pool s.leased s.next_id
      → Reaches L s t
      → Inv t.pool t.leased t.next_id
  Reaches-Inv v here = v
  Reaches-Inv v (next r st) = Step-Inv st (Reaches-Inv v r)

  initial-Inv : (s : System C) → IsInitial L s → Inv s.pool s.leased s.next_id
  initial-Inv s i = record {
    exclusive = λ d. ground (arith, i.idle, i.held, i.leased);
    unused = λ d h. ground (arith, i.idle, i.held, i.leased);
    accounted = λ h. ground (arith, i.idle, i.held, i.leased, i.created);
  }

  -- Whatever the interleaving of requests, connects, queries, releases and shutdown in a new pool, a
  -- connection is at one place at most: under one lease, or idle, or in the channel; so no two
  -- coroutines ever share one. While the pool runs, it counts exactly the connections in these
  -- places.
  pub leases_exclusive :
      (s t : System C)
      → IsInitial L s
      → Reaches L s t
      → ((d : ℕ) → count d t.leased + (count d t.pool.idle + count d (L.held t.pool.channel)) ≤ 1)
        × (t.pool.stopping ≡ false
            → t.pool.created_at
              ≡ length t.leased + (length t.pool.idle + length (L.held t.pool.channel)))
  leases_exclusive s t i r = let v = Reaches-Inv (initial-Inv s i) r in (v.exclusive, v.accounted)
