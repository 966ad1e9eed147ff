-- ===== src/Db/Connection/Queries.antt =====
-- The operations of PgConnection in core/db/postgres/PgConnection.cpp.
use adequate_api_cpp.Base.{
  ℕ, Bool, true, false, ◌&&◌, if◌then◌else◌, List, [], ◌∷◌, length, map, any, Option, none, some,
  Str, str, str_eq, Result, ok, throw, Exception, std_error, M, ◌>>=◌, ◌>>◌, pure, raise, try_catch,
}
use adequate_api_cpp.Http.Request.{is_std, what}
use adequate_api_cpp.Db.Connection.{
  PgResult, Statement, query, prepare, execute, Flushing, Receiving, Started, no_memory,
  nonblocking_failed, no_socket, polled, poll_loop, Link, null_conn, good, bad, PgConnection, Libpq,
  failed, is_already_exists_error, is_invalid_prepared_stmt_error, flush_loop, receive_loop, c_str,
}

abbrev pub is_healthy : Link → Bool
is_healthy good = true
is_healthy null_conn = false
is_healthy bad = false

abbrev pub is_prepared : Str → List Str → Bool
is_prepared name names = any (λ n. str_eq n name) names

-- std::unordered_set::erase
unfoldable pub erase : Str → List Str → List Str
erase name [] = []
erase name (n ∷ names) = let rest = erase name names in if str_eq n name then rest else n ∷ rest

module _ {W : Type 0} (L : Libpq W) where
  -- A connection whose opening fails keeps the PGconn that is not connected, if there is one.
  abbrev pub polled_to : List Str → Result (Unit {0}) → W → Result (Unit {0}) × (PgConnection × W)
  polled_to prepared (ok _) w = (ok tt, (record { link = good; prepared = [] }, w))
  polled_to prepared (throw e) w = (throw e, (record { link = bad; prepared = prepared }, w))

  abbrev pub opened : List Str → Started × W → Result (Unit {0}) × (PgConnection × W)
  opened prepared (no_memory, w) = (
    throw (std_error (str "PQconnectStart returned nullptr")),
    (record { link = null_conn; prepared = prepared }, w),
  )
  opened prepared (nonblocking_failed message, w) =
      polled_to prepared (failed (str "PQsetnonblocking raised an error") message) w
  opened prepared (no_socket message, w) = polled_to prepared (failed (str "PQsocket") message) w
  opened prepared (polled p, w) = polled_to prepared (poll_loop p) w

  -- PgConnection::connect, and ensure_connected, which has the same test.
  unfoldable pub connect : M (PgConnection × W) (Unit {0})
  connect (c, w) = if is_healthy c.link then (ok tt, (c, w)) else opened c.prepared (L.start w)

  -- A PQsend call on the connection: libpq refuses a null pointer.
  abbrev pub refusal : Link → Statement → W → Option Str × W
  refusal null_conn st w = (some (str "No connection"), w)
  refusal good st w = L.send st w
  refusal bad st w = (some (L.error_message w), w)

  abbrev pub sent : PgConnection → Option Str × W → Result (Unit {0}) × (PgConnection × W)
  sent c (none, w) = (ok tt, (c, w))
  sent c (some message, w) = (failed (str "PQsend* failed") message, (c, w))

  abbrev send : Statement → M (PgConnection × W) (Unit {0})
  send st (c, w) = sent c (refusal c.link st w)

  abbrev pub flushes : PgConnection → Flushing × W → Result (Unit {0}) × (PgConnection × W)
  flushes c (f, w) = (flush_loop f, (c, w))

  abbrev pub receives : PgConnection → Receiving × W → Result PgResult × (PgConnection × W)
  receives c (r, w) = (receive_loop r, (c, w))

  -- The try block of runQueryWithTimeout.
  abbrev pub attempt : Statement → M (PgConnection × W) PgResult
  attempt st =
      send st >> ((λ (c, w). flushes c (L.flush w)) >> (λ (c, w). receives c (L.receive w)))

  abbrev pub cancelled : Link → W → W
  cancelled null_conn w = w
  cancelled _ w = L.cancel w

  -- cancel() and close()
  abbrev pub abandon : PgConnection × W → PgConnection × W
  abandon (c, w) = (record c { link = null_conn }, cancelled c.link w)

  unfoldable pub run_query : Statement → M (PgConnection × W) PgResult
  run_query st = try_catch (attempt st) (λ e s. (throw e, abandon s))

  unfoldable pub exec_params : Str → List (Option Str) → M (PgConnection × W) PgResult
  exec_params sql params = connect >> run_query (query sql (map c_str params))

  abbrev pub insert_name : Str → M (PgConnection × W) (Unit {0})
  insert_name name (c, w) = (ok tt, (record c { prepared = name ∷ c.prepared }, w))

  abbrev pub erase_name : Str → M (PgConnection × W) (Unit {0})
  erase_name name (c, w) = (ok tt, (record c { prepared = erase name c.prepared }, w))

  unfoldable pub do_prepare : Str → Str → ℕ → M (PgConnection × W) (Unit {0})
  do_prepare name sql count (c, w) =
      if is_prepared name c.prepared
      then (ok tt, (c, w))
      else try_catch (run_query (prepare name sql count) >>= λ _. insert_name name)
          (λ e. if is_std e && is_already_exists_error (what e) then insert_name name else raise e)
          (c, w)

  -- A failed execution: it is tried once again if the server does not know the statement.
  abbrev pub retry : Str → Str → List (Option Str) → Exception → M (PgConnection × W) PgResult
  retry name sql params e =
      if is_std e && is_invalid_prepared_stmt_error (what e)
      then erase_name name
        >> (do_prepare name sql (length params) >> run_query (execute name (map c_str params)))
      else raise e

  unfoldable pub exec_prepared : Str → Str → List (Option Str) → M (PgConnection × W) PgResult
  exec_prepared name sql params =
      connect
      >> (do_prepare name sql (length params)
          >> try_catch (run_query (execute name (map c_str params))) (retry name sql params))

  -- PgConnection::ping
  unfoldable pub ping : M (PgConnection × W) Bool
  ping =
      try_catch (connect >> (exec_params (str "SELECT 1") [] >>= λ _. pure true)) (λ e. pure false)
