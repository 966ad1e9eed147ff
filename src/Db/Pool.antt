-- ===== src/Db/Pool.antt =====
-- PgPool of core/db/postgres/PgPool.cpp and the transactions of core/db/postgres/Transaction.cpp.
-- A coroutine runs on the strand between two suspensions; each such stretch is one function here,
-- and what it waits for is an argument of the next. A connection is the number of its object.
pub mod Admission
pub mod Capacity
pub mod Leases
pub mod Interleaving
use adequate_api_cpp.Base.{
  ℕ, suc, ◌+◌, ◌-◌, ◌≤◌, ◌<◌, ◌≡◌, Bool, true, false, not, if◌then◌else◌, ltb, ◌==◌, List, [], ◌∷◌,
  ◌++◌, length, Option, none, some, str, Str, Exception, db_error, std_error, Result, ok, throw,
}
use adequate_api_cpp.Db.Breaker.{CircuitBreaker, allow, on_success, on_failure}

-- boost::asio::experimental::channel, as the pool uses it: a sent value goes to a waiting receiver
-- or, where there is room, into a buffer.
pub record Channel : Type 1 where
  pub Chan : Type 0
  pub capacity : Chan → ℕ
  pub buffered : Chan → List ℕ
  pub is_open : Chan → Bool
  pub try_send : ℕ → Chan → Option Chan
  pub close : Chan → Chan
  pub try_send_room :
      (c : ℕ) (ch : Chan)
      → is_open ch ≡ true
      → length (buffered ch) < capacity ch
      → (ch' : Chan) × (try_send c ch ≡ some ch')

pub data Start : Type 0 where
  reused : ℕ → Start
  connecting : Start
  receiving : Start
  refused : Exception → Start

module _ (C : Channel) where
  pub record Pool : Type 0 where
    pub size : ℕ
    pub idle : List ℕ
    pub created_at : ℕ
    pub channel : C.Chan
    pub stopping : Bool
    pub breaker : CircuitBreaker

abbrev pub shutting_down : Exception
shutting_down = std_error (str "PgPool is shutting down")

abbrev pub circuit_open : Exception
circuit_open = std_error (str "Database temporarily unavailable (circuit open)")

-- idle_.back() and idle_.pop_back() of a list with head c
unfoldable pub pop_back : ℕ → List ℕ → ℕ × List ℕ
pop_back c [] = (c, [])
pop_back c (d ∷ cs) = let (last, rest) = pop_back d cs in (last, c ∷ rest)

module _ {C : Channel} where
  abbrev pub take_connection : Pool C → List ℕ → Start × Pool C
  take_connection p (c ∷ cs) =
      let (last, rest) = pop_back c cs in (reused last, record p { idle = rest })
  take_connection p [] = if ltb p.created_at p.size then (connecting, p) else (receiving, p)

  -- `make_or_wait` up to its first wait: for `connect` or for the channel.
  unfoldable pub start : Pool C → ℕ → Start × Pool C
  unfolding allow pop_back
  start p now =
      if p.stopping
      then (refused shutting_down, p)
      else let (admitted, breaker) = allow p.breaker now in
        let p' : Pool C = record p { breaker = breaker } in
        if admitted then take_connection p' p'.idle else (refused circuit_open, p')

  -- `make_or_wait` after co_await c->connect(): the connection, or what it threw.
  unfoldable pub connected : Pool C → ℕ → Result ℕ → Result ℕ × Pool C
  unfolding on_success on_failure
  connected p now (ok c) =
      (ok c, record p { created_at = suc p.created_at; breaker = on_success p.breaker })
  connected p now (throw e) = (throw e, record p { breaker = on_failure p.breaker now })

  abbrev await_connect : Start × Pool C → ℕ → Result ℕ → Option (Result ℕ) × Pool C
  await_connect (reused c, p) now r = (some (ok c), p)
  await_connect (refused e, p) now r = (some (throw e), p)
  await_connect (receiving, p) now r = (none, p)
  await_connect (connecting, p) now r = let (res, p') = connected p now r in (some res, p')

  -- `make_or_wait` with nothing in between: a call of `connect`, if there is one, ends at time
  -- `end` with r; `none` means that the coroutine now waits on the channel.
  unfoldable pub make_or_wait : Pool C → ℕ → ℕ → Result ℕ → Option (Result ℕ) × Pool C
  unfolding start connected
  make_or_wait p now end r = await_connect (start p now) end r

  abbrev pub drop_connection : Pool C → Pool C
  drop_connection p = record p { created_at = p.created_at - 1 }

  abbrev give_back : Pool C → ℕ → Option C.Chan → Pool C
  give_back p c (some ch) = record p { channel = ch }
  give_back p c none = record p { idle = p.idle ++ c ∷ [] }

  -- `release` of connection c, whose health is asked when the closure runs.
  unfoldable pub release : Pool C → ℕ → Bool → Pool C
  release p c healthy =
      if p.stopping
      then drop_connection p
      else if not healthy
      then drop_connection p
      else give_back p c (C.try_send c p.channel)

  unfoldable pub shutdown : Pool C → Pool C
  shutdown p = record p { stopping = true; channel = C.close p.channel; idle = []; created_at = 0 }

  -- `query` from the end of co_await connection->execParams() on: lines 52 to 68.
  unfoldable pub finish_query : {A : Type 0} → Pool C → ℕ → Bool → ℕ → Result A → Result A × Pool C
  unfolding release on_success on_failure
  finish_query p c healthy now (ok res) =
      (ok res, release (record p { breaker = on_success p.breaker }) c healthy)
  finish_query p c healthy now (throw (db_error code msg)) =
      (throw (db_error code msg), release p c healthy)
  finish_query p c healthy now (throw e) =
      (throw e, release (record p { breaker = on_failure p.breaker now }) c healthy)

  -- Transaction::begin once `acquire` gave connection c: the result of execParams("BEGIN").
  unfoldable pub begin : Pool C → ℕ → Result (Unit {0}) → Result ℕ × Pool C
  begin p c (ok _) = (ok c, p)
  begin p c (throw e) = (throw e, p)

  unfoldable pub commit : Pool C → ℕ → Bool → Result (Unit {0}) → Result (Unit {0}) × Pool C
  unfolding release
  commit p c healthy (ok _) = (ok tt, release p c healthy)
  commit p c healthy (throw e) = (throw e, p)

  unfoldable pub rollback : Pool C → ℕ → Bool → Result (Unit {0}) → Result (Unit {0}) × Pool C
  unfolding release
  rollback p c healthy _ = (ok tt, release p c healthy)
