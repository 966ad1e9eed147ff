-- ===== src/Db/Tests.antt =====
-- Runs of the database modules on concrete data.
use adequate_api_cpp.Base.{
  ℕ, ◌≤◌, ◌<◌, ◌≡◌, refl, Bool, true, false, if◌then◌else◌, ltb, List, [], ◌∷◌, ◌++◌, All, length,
  arith, Option, none, some, ok, throw, db_error, foreign, str, lt→ltb, inr, ◌↔◌, std_error,
  unknown, ◌+◌, str_eq, contains_str, suc, Bool-cases, inl, some_inj, subst, length-append,
}
use adequate_api_cpp.Http.Request.{is_std, what}
use adequate_api_cpp.Db.Connection.{
  Libpq, polled, poll_writing, poll_ok, flushed, busy, replies, query_error, PgConnection, good,
  null_conn, flush_loop, receive_loop, drain, map_sqlstate,
}
use adequate_api_cpp.Db.Connection.Queries.{exec_prepared, erase, run_query}
use adequate_api_cpp.Db.Connection.Retry.{retry_fails, not_connected}
use adequate_api_cpp.Db.Breaker.{CircuitBreaker, open_state, initial, allow}
use adequate_api_cpp.Db.Breaker.Invariant.{
  allowed, succeeded, failed, IsCoherent, run, run-IsCoherent, initial-IsCoherent,
}
use adequate_api_cpp.Db.Breaker.Admission.{
  admissions, fail_times, IsRefusal, single_probe, opens_at_threshold,
}
use adequate_api_cpp.Db.Pool.{Channel, Pool, receiving, connecting, start, release, connected}
use adequate_api_cpp.Db.Pool.Admission.{starts}
use adequate_api_cpp.Db.Pool.Capacity
use adequate_api_cpp.Db.Pool.Capacity.{
  connects, acquired, released, queried, run-created-le-size, starts_overcommit,
}
use adequate_api_cpp.Db.Pool.Leases.{failed_begins, release_dropped, failed_begins_exhaust}
use adequate_api_cpp.Db.Pool.Interleaving
use adequate_api_cpp.Db.Pool.Interleaving.{
  count, Holdings, System, requested, Reaches, here, next, requests,
}
use adequate_api_cpp.Db.Pool.Interleaving.Exclusive.{leases_exclusive}
use adequate_api_cpp.Db.Connection.Waits
use adequate_api_cpp.Db.SqlBuilder.{SqlBuilder, new}
use adequate_api_cpp.Db.SqlBuilder.Params.{
  apply_all, where_is, limited, same_where, same_limit, same_nil, same_cons, sql-values_free,
}

abbrev tripped : CircuitBreaker
tripped = record initial { state = open_state; consecutive_failures = 5; open_until = 40 }

run-IsCoherent_example : IsCoherent (run initial (failed 3 ∷ allowed 4 ∷ succeeded ∷ []))
run-IsCoherent_example =
    run-IsCoherent initial (failed 3 ∷ allowed 4 ∷ succeeded ∷ []) initial-IsCoherent

single_probe_example :
    ((allow tripped 41).0 ≡ true) × All IsRefusal (admissions (allow tripped 41).1 (42 ∷ 50 ∷ [])).0
single_probe_example = single_probe tripped 41 (42 ∷ 50 ∷ []) refl (omega arith)

opens_at_threshold_example :
    ((fail_times initial (1 ∷ 2 ∷ 3 ∷ 4 ∷ 5 ∷ [])).state ≡ open_state) ↔ (5 ≤ 5)
opens_at_threshold_example = opens_at_threshold initial (1 ∷ 2 ∷ 3 ∷ 4 ∷ 5 ∷ []) refl (omega arith)

-- A channel without receivers: the capacity, the buffer, and whether it is open.
abbrev send : ℕ → ℕ × List ℕ × Bool → Option (ℕ × List ℕ × Bool)
send c (cap, buffer, opened) =
    if opened
    then if ltb (length buffer) cap then some (cap, buffer ++ c ∷ [], true) else none
    else none

send_room :
    (c : ℕ) (ch : ℕ × List ℕ × Bool)
    → ch.2 ≡ true
    → length ch.1 < ch.0
    → (ch' : ℕ × List ℕ × Bool) × (send c ch ≡ some ch')
send_room c (cap, buffer, opened) o h =
    ((cap, buffer ++ c ∷ [], true), rw (o, lt→ltb (length buffer) cap h))

abbrev fifo : Channel
fifo = record {
  Chan = ℕ × List ℕ × Bool;
  capacity = λ ch. ch.0;
  buffered = λ ch. ch.1;
  is_open = λ ch. ch.2;
  try_send = send;
  close = λ ch. (ch.0, ch.1, false);
  try_send_room = send_room;
}

abbrev pool : Pool fifo
pool = record {
  size = 2;
  idle = [];
  created_at = 0;
  channel = (2, [], true);
  stopping = false;
  breaker = initial;
}

abbrev tripped_pool : Pool fifo
tripped_pool = record pool { idle = 7 ∷ []; created_at = 1; breaker = tripped }

run-created-le-size_example :
    (Capacity.run {A = ℕ} pool
      (acquired 1 2 (ok 7) ∷ released 7 true ∷ acquired 3 4 (ok 8) ∷ [])).created_at
    ≤ 2
run-created-le-size_example =
    run-created-le-size ℕ pool (acquired 1 2 (ok 7) ∷ released 7 true ∷ acquired 3 4 (ok 8) ∷ [])
      (omega arith)

starts_overcommit_example :
    All (λ answer. answer ≡ connecting) (starts pool (1 ∷ 1 ∷ 2 ∷ [])).0
    × ((connects (starts pool (1 ∷ 1 ∷ 2 ∷ [])).1 ((3, 7) ∷ (3, 8) ∷ (4, 9) ∷ [])).created_at ≡ 3)
starts_overcommit_example =
    starts_overcommit pool (1 ∷ 1 ∷ 2 ∷ []) ((3, 7) ∷ (3, 8) ∷ (4, 9) ∷ []) refl refl refl
      (omega arith) refl

abbrev one_out : Pool fifo
one_out = record pool { created_at = 1 }

release_dropped_example :
    let q = release one_out 7 false in
    (q.created_at ≡ 0) × (q.idle ≡ []) × (q.channel ≡ one_out.channel)
release_dropped_example = release_dropped one_out 7 false (inr refl)

failed_begins_exhaust_example :
    (start (failed_begins pool ((1, 7, foreign) ∷ (2, 8, foreign) ∷ [])) 9).0 ≡ receiving
failed_begins_exhaust_example =
    failed_begins_exhaust pool ((1, 7, foreign) ∷ (2, 8, foreign) ∷ []) 9 (refl, refl, refl) refl

abbrev users : SqlBuilder
users = new (str "users")

sql-values_free_example :
    (apply_all (where_is (str "id") (str "1") ∷ limited (some 5) ∷ []) users).sql
    ≡ (apply_all
        (where_is (str "id") (str "1; DROP TABLE users") ∷ limited (some 9) ∷ [])
        users).sql
sql-values_free_example =
    sql-values_free users (same_cons (same_where _ _ _) (same_cons (same_limit _ _) same_nil))

-- A server that has forgotten its prepared statements; the world counts what is sent to it.
abbrev forgetful : Libpq ℕ
forgetful = record {
  start = λ w. (polled (poll_writing poll_ok), w);
  send = λ st w. (none, w + 1);
  flush = λ w. (flushed, w);
  receive = λ w. (
    busy
        (replies (query_error (some (str "invalid prepared statement")) (some (str "26000")) ∷ [])),
    w,
  );
  cancel = λ w. w;
  error_message = λ w. [];
}

abbrev cached : PgConnection
cached = record { link = good; prepared = str "get_user" ∷ [] }

retry_fails_example : exec_prepared forgetful (str "get_user") (str "SELECT 1") [] (cached, 0) ≡ (
  throw (std_error not_connected),
  (record { link = null_conn; prepared = erase (str "get_user") (str "get_user" ∷ []) }, 1),
)
unfolding run_query flush_loop receive_loop drain map_sqlstate str is_std what str_eq contains_str
retry_fails_example =
    retry_fails forgetful (str "get_user") (str "SELECT 1") [] cached
      (record { link = null_conn; prepared = str "get_user" ∷ [] }) 0 1
      (db_error unknown (str "invalid prepared statement")) refl refl refl refl refl

-- The channel's buffer, whose first connection is received.
abbrev take_first : ℕ × List ℕ × Bool → Option (ℕ × (ℕ × List ℕ × Bool))
take_first (cap, [], opened) = none
take_first (cap, c ∷ buffer, opened) = some (c, (cap, buffer, opened))

count-append : (d : ℕ) (xs ys : List ℕ) → count d (xs ++ ys) ≡ count d xs + count d ys
count-append d [] ys = omega arith
count-append d (x ∷ xs) ys = ground (arith, count-append d xs ys)

send_held :
    (c d : ℕ) (ch ch' : ℕ × List ℕ × Bool)
    → send c ch ≡ some ch'
    → (count d ch'.1 ≡ count d (c ∷ ch.1)) × (length ch'.1 ≡ suc (length ch.1))
send_held c d (cap, buffer, false) ch' h = cc h
send_held c d (cap, buffer, true) ch' h = elim (Bool-cases (ltb (length buffer) cap)) [
  | inl y ↦ sent (some_inj (rw y at h))
  | inr n ↦ cc (rw n at h)
]
  where
    sent :
        (cap, buffer ++ c ∷ [], true) ≡ ch'
        → (count d ch'.1 ≡ count d (c ∷ buffer)) × (length ch'.1 ≡ suc (length buffer))
    sent e =
        subst
          (λ (x : ℕ × List ℕ × Bool).
            (count d x.1 ≡ count d (c ∷ buffer)) × (length x.1 ≡ suc (length buffer)))
          e (ground (arith, count-append d buffer (c ∷ []), length-append buffer (c ∷ [])))

receive_held :
    (c d : ℕ) (ch ch' : ℕ × List ℕ × Bool)
    → take_first ch ≡ some (c, ch')
    → (count d ch.1 ≡ count d (c ∷ ch'.1)) × (length ch.1 ≡ suc (length ch'.1))
receive_held c d (cap, [], opened) ch' h = cc h
receive_held c d (cap, x ∷ buffer, opened) ch' h =
    subst
      (λ (y : ℕ × (ℕ × List ℕ × Bool)).
        (count d (x ∷ buffer) ≡ count d (y.0 ∷ y.1.1)) × (suc (length buffer) ≡ suc (length y.1.1)))
      (some_inj h) (refl, refl)

abbrev holdings : Holdings fifo
holdings = record {
  held = λ ch. ch.1;
  receive = take_first;
  try_send_held = send_held;
  receive_held = receive_held;
  close_held = λ d ch. omega arith;
}

abbrev system : System fifo
system = record { pool = pool; leased = []; pending = 0; next_id = 0 }

abbrev connecting_system : System fifo
connecting_system = requested holdings (start pool 1) system

abbrev leased_system : System fifo
leased_system = record connecting_system {
  pool = (connected connecting_system.pool 2 (ok 0)).1;
  leased = 0 ∷ [];
  pending = 0;
  next_id = 1;
}

leased-Reaches : Reaches holdings system leased_system
unfolding start
leased-Reaches = next (next here (requests 1)) (Interleaving.connects 0 2 refl)

leases_exclusive_example :
    ((d : ℕ)
      → count d leased_system.leased
          + (count d leased_system.pool.idle + count d (holdings.held leased_system.pool.channel))
        ≤ 1)
    × (leased_system.pool.stopping ≡ false
        → leased_system.pool.created_at
          ≡ length leased_system.leased
            + (length leased_system.pool.idle + length (holdings.held leased_system.pool.channel)))
leases_exclusive_example =
    leases_exclusive holdings system leased_system
      (record { idle = refl; created = refl; held = refl; leased = refl; ids = refl })
      leased-Reaches
