-- ===== src/Db/Pool/Interleaving.antt =====
-- The pool of core/db/postgres/PgPool.cpp under many coroutines: the stretches between suspensions,
-- in any order. A lease is in `leased` from the end of `acquire` to its release.
pub mod Exclusive
use adequate_api_cpp.Base.{
  ℕ, zero, suc, ◌+◌, ◌≤◌, ◌<◌, ◌≡◌, Bool, true, false, if◌then◌else◌, ◌==◌, List, [], ◌∷◌, Option,
  none, some, length, Exception, Result, ok, throw,
}
use adequate_api_cpp.Db.Breaker.{CircuitBreaker}
use adequate_api_cpp.Db.Pool.{
  Channel, Start, reused, connecting, receiving, refused, Pool, start, connected, release,
  finish_query, shutdown,
}

abbrev pub count : ℕ → List ℕ → ℕ
count a [] = 0
count a (x ∷ xs) = (if x == a then 1 else 0) + count a xs

abbrev pub remove_one : ℕ → List ℕ → List ℕ
remove_one a [] = []
remove_one a (x ∷ xs) = if x == a then xs else x ∷ remove_one a xs

-- What a channel holds: buffered, or given to a receiver that has not resumed yet. Sending adds the
-- connection, receiving takes one, and closing adds none.
pub record Holdings (C : Channel) : Type 0 where
  pub held : C.Chan → List ℕ
  pub receive : C.Chan → Option (ℕ × C.Chan)
  pub try_send_held :
      (c d : ℕ) (ch ch' : C.Chan)
      → C.try_send c ch ≡ some ch'
      → (count d (held ch') ≡ count d (c ∷ held ch)) × (length (held ch') ≡ suc (length (held ch)))
  pub receive_held :
      (c d : ℕ) (ch ch' : C.Chan)
      → receive ch ≡ some (c, ch')
      → (count d (held ch) ≡ count d (c ∷ held ch')) × (length (held ch) ≡ suc (length (held ch')))
  pub close_held : (d : ℕ) (ch : C.Chan) → count d (held (C.close ch)) ≤ count d (held ch)

module _ (C : Channel) where
  -- The pool, the connections under lease, the coroutines that wait for a `connect`, and the number
  -- of connection objects so far.
  pub record System : Type 0 where
    pub pool : Pool C
    pub leased : List ℕ
    pub pending : ℕ
    pub next_id : ℕ

module _ {C : Channel} (L : Holdings C) where
  -- `acquire` up to its first wait.
  abbrev pub requested : Start × Pool C → System C → System C
  requested (reused c, p) s = record s { pool = p; leased = c ∷ s.leased }
  requested (connecting, p) s = record s { pool = p; pending = suc s.pending }
  requested (receiving, p) s = record s { pool = p }
  requested (refused e, p) s = record s { pool = p }

  pub data Step (s : System C) : System C → Type 0 where
    requests : (now : ℕ) → Step s (requested (start s.pool now) s)
    connects :
        (n now : ℕ)
        → s.pending ≡ suc n
        → Step s (record {
          pool = (connected s.pool now (ok s.next_id)).1;
          leased = s.next_id ∷ s.leased;
          pending = n;
          next_id = suc s.next_id;
        })
    connect_fails :
        (n now : ℕ) (e : Exception)
        → s.pending ≡ suc n
        → Step s (record s { pool = (connected s.pool now (throw e)).1; pending = n })
    receives :
        (c : ℕ) (ch : C.Chan)
        → L.receive s.pool.channel ≡ some (c, ch)
        → Step s (record s { pool = record s.pool { channel = ch }; leased = c ∷ s.leased })
    finishes :
        (c now : ℕ) (healthy : Bool) (r : Result (Unit {0}))
        → 0 < count c s.leased
        → Step s (record s {
          pool = (finish_query s.pool c healthy now r).1;
          leased = remove_one c s.leased;
        })
    releases :
        (c : ℕ) (healthy : Bool)
        → 0 < count c s.leased
        → Step s (record s { pool = release s.pool c healthy; leased = remove_one c s.leased })
    shuts_down : Step s (record s { pool = shutdown s.pool })

  -- A new pool.
  pub record IsInitial (s : System C) : Type 0 where
    pub idle : s.pool.idle ≡ []
    pub created : s.pool.created_at ≡ 0
    pub held : L.held s.pool.channel ≡ []
    pub leased : s.leased ≡ []
    pub ids : s.next_id ≡ 0

  pub data Reaches (s : System C) : System C → Type 0 where
    here : Reaches s s
    next : {t u : System C} → Reaches s t → Step t u → Reaches s u
