-- ===== src/Db/Connection.antt =====
-- PgConnection of core/db/postgres/PgConnection.cpp over libpq: the states of a connection, queries,
-- and the cache of prepared statements. What the library answers while a query is flushed and
-- received is a script of its calls; the waits for the socket are part of it.
pub mod Queries
pub mod Retry
pub mod Waits
use adequate_api_cpp.Base.{
  ℕ, Bool, true, false, ◌&&◌, ◌||◌, not, if◌then◌else◌, List, [], ◌∷◌, ◌++◌, length, map, any,
  Option, none, some, Str, str, str_eq, contains_str, before, Result, ok, throw, Exception,
  db_error, std_error, DbErrorCode, unique_violation, foreign_key_violation, not_null_violation,
  unknown, bind_result, M, ◌>>=◌, ◌>>◌, pure, raise, try_catch,
}
use adequate_api_cpp.Http.Request.{is_std, what}

pub record PgValue : Type 0 where
  pub data_ : Str
  pub is_null : Bool

pub record PgResult : Type 0 where
  pub columns_names : List Str
  pub rows : List (List PgValue)

-- What buildResult reads of a PGresult.
pub record RawResult : Type 0 where
  pub names : List (Option Str)
  pub cells : List (List (Option Str))

abbrev empty_result : PgResult
empty_result = record { columns_names = []; rows = [] }

abbrev pub value_of : Option Str → PgValue
value_of none = record { data_ = []; is_null = true }
value_of (some s) = record { data_ = s; is_null = false }

abbrev pub name_of : Option Str → Str
name_of none = []
name_of (some s) = s

unfoldable pub build_result : RawResult → PgResult
build_result r = record { columns_names = map name_of r.names; rows = map (map value_of) r.cells }

pub data Statement : Type 0 where
  query : Str → List (Option Str) → Statement
  prepare : Str → Str → ℕ → Statement
  execute : Str → List (Option Str) → Statement

-- The calls of PQflush and the waits between them.
pub data Flushing : Type 0 where
  flushed : Flushing
  flush_error : Str → Flushing
  wait_write : Flushing → Flushing
  write_failed : Exception → Flushing

-- A result of PQgetResult, with the message and the SQLSTATE of an error.
pub data Reply : Type 0 where
  tuples : RawResult → Reply
  command_ok : Reply
  query_error : Option Str → Option Str → Reply
  other_status : Reply

pub data Receiving : Type 0 where
  read_failed : Exception → Receiving
  consume_failed : Str → Receiving
  busy : Receiving → Receiving
  replies : List Reply → Receiving

-- The calls of PQconnectPoll and the waits behind them.
pub data Polling : Type 0 where
  poll_ok : Polling
  poll_failed : Str → Polling
  poll_reading : Polling → Polling
  poll_writing : Polling → Polling
  poll_other : Polling → Polling
  poll_wait_failed : Exception → Polling

-- PQconnectStart, PQsetnonblocking and PQsocket, up to the first that fails, and the polling.
pub data Started : Type 0 where
  no_memory : Started
  nonblocking_failed : Str → Started
  no_socket : Str → Started
  polled : Polling → Started

-- A connection's PGconn: a null pointer, one with the status CONNECTION_OK, or any other.
pub data Link : Type 0 where
  null_conn good bad : Link

pub record PgConnection : Type 0 where
  pub link : Link
  pub prepared : List Str

-- libpq and the server behind it, as operations on a world. `send` answers with the error message
-- when it refuses.
pub record Libpq (W : Type 0) : Type 0 where
  pub start : W → Started × W
  pub send : Statement → W → Option Str × W
  pub flush : W → Flushing × W
  pub receive : W → Receiving × W
  pub cancel : W → W
  pub error_message : W → Str

abbrev pub failed : {A : Type 0} → Str → Str → Result A
failed what_ message = throw (std_error (what_ ++ (str ": " ++ message)))

abbrev pub is_already_exists_error : Str → Bool
is_already_exists_error err =
    contains_str (str "42P05") err
    || contains_str (str "duplicate_prepared_statement") err
    || contains_str (str "already exists") err

abbrev pub is_invalid_prepared_stmt_error : Str → Bool
is_invalid_prepared_stmt_error err =
    contains_str (str "26000") err
    || contains_str (str "invalid prepared statement") err
    || contains_str (str "invalid_sql_statement_name") err

unfoldable pub map_sqlstate : Str → DbErrorCode
map_sqlstate state =
    if str_eq state (str "23505")
    then unique_violation
    else if str_eq state (str "23503")
    then foreign_key_violation
    else if str_eq state (str "23502")
    then not_null_violation
    else unknown

abbrev or_text : Str → Option Str → Str
or_text default_ none = default_
or_text default_ (some s) = s

-- The loop of connect
unfoldable pub poll_loop : Polling → Result (Unit {0})
poll_loop poll_ok = ok tt
poll_loop (poll_failed message) = failed (str "PQconnectPoll failed") message
poll_loop (poll_reading p) = poll_loop p
poll_loop (poll_writing p) = poll_loop p
poll_loop (poll_other p) = poll_loop p
poll_loop (poll_wait_failed e) = throw e

unfoldable pub flush_loop : Flushing → Result (Unit {0})
flush_loop flushed = ok tt
flush_loop (flush_error message) = failed (str "PQflush error") message
flush_loop (wait_write f) = flush_loop f
flush_loop (write_failed e) = throw e

-- The results that are available, after the last one that counts and whether there is one.
unfoldable pub drain : List Reply → PgResult → Bool → Result PgResult
drain [] out have_result = ok (if have_result then out else empty_result)
drain (tuples r ∷ rs) out have_result = drain rs (build_result r) true
drain (command_ok ∷ rs) out have_result = drain rs (if have_result then out else empty_result) true
drain (query_error message sqlstate ∷ rs) out have_result =
    throw (
      db_error (map_sqlstate (or_text (str "XXXXX") sqlstate))
        (or_text (str "query error") message))
drain (other_status ∷ rs) out have_result = drain rs out have_result

unfoldable pub receive_loop : Receiving → Result PgResult
receive_loop (read_failed e) = throw e
receive_loop (consume_failed message) = failed (str "PQconsumeInput") message
receive_loop (busy r) = receive_loop r
receive_loop (replies rs) = drain rs empty_result false

-- const char* of a parameter, which ends before the first zero byte.
abbrev pub c_str : Option Str → Option Str
c_str none = none
c_str (some s) = some (before 0 s)
