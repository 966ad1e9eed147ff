-- ===== src/Db/Connection/Retry.antt =====
-- How queries leave a connection, and what the retry of a prepared statement comes to.
use adequate_api_cpp.Base.{
  ℕ, ◌≡◌, refl, sym, ap, inl, inr, true, false, List, [], ◌∷◌, ◌++◌, Option, none, some, Str, str,
  str_eq, length, map, contains_str, starts_with, Bool-cases, Result-cases, continue, handled, M,
  ◌⊎◌, Result, ok, throw, Exception, std_error,
}
use adequate_api_cpp.Http.Request.{is_std, what}
use adequate_api_cpp.Db.Connection.{
  PgResult, Statement, execute, prepare, Receiving, null_conn, good, bad, Link, PgConnection, Libpq,
  is_already_exists_error, is_invalid_prepared_stmt_error, receive_loop, c_str,
}
use adequate_api_cpp.Db.Connection.Queries.{
  is_prepared, erase, run_query, do_prepare, exec_prepared, connect, attempt, refusal, sent,
  flushes, receives, abandon,
}

module _ {W : Type 0} (L : Libpq W) where
  -- A query ends with a result on a good connection, which stays as it is, or with an exception.
  data Kept (c : PgConnection) : Result PgResult × (PgConnection × W) → Type 0 where
    kept_ok : (res : PgResult) (w : W) → c.link ≡ good → Kept c (ok res, (c, w))
    kept_throw : (e : Exception) (w : W) → Kept c (throw e, (c, w))

  pub data Ends (c : PgConnection) : Result PgResult × (PgConnection × W) → Type 0 where
    answered : (res : PgResult) (w : W) → c.link ≡ good → Ends c (ok res, (c, w))
    abandoned : (e : Exception) (w : W) → Ends c (throw e, (record c { link = null_conn }, w))

  -- A step that leaves the connection as it is.
  data Same (c : PgConnection) : Result (Unit {0}) × (PgConnection × W) → Type 0 where
    same : (r : Result (Unit {0})) (w : W) → Same c (r, (c, w))

  continue-Kept :
      (c : PgConnection) (x : Result (Unit {0}) × (PgConnection × W))
      (k : M (PgConnection × W) PgResult)
      → Same c x
      → ((w : W) → Kept c (k (c, w)))
      → Kept c (continue (λ _. k) x)
  continue-Kept c _ k (same (ok u) w) h = h w
  continue-Kept c _ k (same (throw e) w) h = kept_throw e w

  sent-Same : (c : PgConnection) (x : Option Str × W) → Same c (sent L c x)
  sent-Same c (none, w) = same (ok tt) w
  sent-Same c (some m, w) = same _ w

  receives-Kept : (c : PgConnection) (x : Receiving × W) → c.link ≡ good → Kept c (receives L c x)
  receives-Kept c (r, w) g = elim (Result-cases (receive_loop r)) [
    | inl (res, e) ↦ rw e (kept_ok res w g)
    | inr (x, e) ↦ rw e (kept_throw x w)
  ]

  closed_of :
      (c : PgConnection) {x : Result PgResult × (PgConnection × W)} (e : Exception)
      (c' : PgConnection) (w : W)
      → Ends c x
      → x ≡ (throw e, (c', w))
      → c' ≡ record c { link = null_conn }
  closed_of c e c' w (answered res w1 g) h = cc h
  closed_of c e c' w (abandoned x w1) h = ap (λ x. x.1.0) (sym h)

is_prepared-erase : (name : Str) (names : List Str) → is_prepared name (erase name names) ≡ false
unfolding erase
is_prepared-erase name [] = refl
is_prepared-erase name (n ∷ names) = elim (Bool-cases (str_eq n name)) [
  | inl e ↦ rw e (is_prepared-erase name names)
  | inr e ↦ rw (e, e, is_prepared-erase name names) refl
]

-- The message of an attempt to send on a closed connection.
abbrev pub not_connected : Str
not_connected = str "PQsend* failed" ++ (str ": " ++ str "No connection")

not_connected-is_already_exists_error : is_already_exists_error not_connected ≡ false
unfolding str contains_str starts_with
not_connected-is_already_exists_error = refl

module _ {W : Type 0} (L : Libpq W) where
  refused :
      (l : Link) (st : Statement) (w : W)
      → (l ≡ good) ⊎ ((m : Str) × (w' : W) × (refusal L l st w ≡ (some m, w')))
  refused good st w = inl refl
  refused null_conn st w = inr (_, w, refl)
  refused bad st w = inr (_, w, refl)

  attempt-Kept : (st : Statement) (c : PgConnection) (w : W) → Kept L c (attempt L st (c, w))
  attempt-Kept st c w = elim (refused c.link st w) [
    | inr (m, w', e) ↦ rw e (kept_throw _ w')
    | inl g ↦
        continue-Kept L c (sent L c (refusal L c.link st w)) _
          (sent-Same L c (refusal L c.link st w))
          λ w1.
            continue-Kept L c (flushes L c (L.flush w1)) _ (same _ _)
              λ w2. receives-Kept L c (L.receive w2) g
  ]

  handled-Ends :
      (c : PgConnection) (x : Result PgResult × (PgConnection × W))
      → Kept L c x
      → Ends L c (handled (λ e s. (throw e, abandon L s)) x)
  handled-Ends c _ (kept_ok res w g) = answered res w g
  handled-Ends c _ (kept_throw e w) = abandoned e _

  -- A query that ends with a result had a good connection and leaves it as it is; one that ends with
  -- an exception, an SQL error included, leaves the connection closed.
  pub run_query-Ends :
      (st : Statement) (c : PgConnection) (w : W) → Ends L c (run_query L st (c, w))
  unfolding run_query
  run_query-Ends st c w = handled-Ends c (attempt L st (c, w)) (attempt-Kept st c w)

  run_query-null :
      (st : Statement) (names : List Str) (w : W)
      → run_query L st (record { link = null_conn; prepared = names }, w)
        ≡ (throw (std_error not_connected), (record { link = null_conn; prepared = names }, w))
  unfolding run_query
  run_query-null st names w = refl

  do_prepare-null :
      (name sql : Str) (n : ℕ) (names : List Str) (w : W)
      → is_prepared name names ≡ false
      → do_prepare L name sql n (record { link = null_conn; prepared = names }, w)
        ≡ (throw (std_error not_connected), (record { link = null_conn; prepared = names }, w))
  unfolding do_prepare is_std what
  do_prepare-null name sql n names w h =
      rw (h, run_query-null (prepare name sql n) names w, not_connected-is_already_exists_error)
        refl

  connect-good : (c : PgConnection) (w : W) → c.link ≡ good → connect L (c, w) ≡ (ok tt, (c, w))
  unfolding connect
  connect-good c w g = rw g refl

  do_prepare-prepared :
      (name sql : Str) (n : ℕ) (c : PgConnection) (w : W)
      → is_prepared name c.prepared ≡ true
      → do_prepare L name sql n (c, w) ≡ (ok tt, (c, w))
  unfolding do_prepare
  do_prepare-prepared name sql n c w p = rw p refl

  -- A prepared statement on a good connection that the server does not know any more is not
  -- recovered: if its execution fails with a message that calls for the retry, the connection is
  -- already closed, and the retry throws. The statement is out of the cache then.
  pub retry_fails :
      (name sql : Str) (params : List (Option Str)) (c c' : PgConnection) (w w' : W) (e : Exception)
      → c.link ≡ good
      → is_prepared name c.prepared ≡ true
      → run_query L (execute name (map c_str params)) (c, w) ≡ (throw e, (c', w'))
      → is_std e ≡ true
      → is_invalid_prepared_stmt_error (what e) ≡ true
      → exec_prepared L name sql params (c, w) ≡ (
        throw (std_error not_connected),
        (record { link = null_conn; prepared = erase name c.prepared }, w'),
      )
  unfolding exec_prepared
  retry_fails name sql params c c' w w' e g p h s i =
      let k = closed_of L c e c' w' (run_query-Ends (execute name (map c_str params)) c w) h in
      rw
        (
          connect-good c w g,
          do_prepare-prepared name sql (length params) c w p,
          h,
          s,
          i,
          k,
          do_prepare-null name sql (length params) (erase name c.prepared) w'
              (is_prepared-erase name c.prepared),
        )
        refl
