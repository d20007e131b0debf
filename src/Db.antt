-- ===== src/Db.antt =====
-- The database as the services see it (database/sql over SQLite, storage.go): tables of rows behind
-- statements that the driver may refuse, and the clock of the process.
-- A statement is its effect on the tables. Which statements fail (input and output errors, a foreign
-- key, a cancelled context) is the schedule `fault` of the world, one answer for each call; a failed
-- statement changes nothing. `clock` answers the calls of time.Now, in nanoseconds.
pub mod Rules
pub mod Keys
pub mod Evolve
pub mod Keeps
pub mod Samples
use netmantle.Prelude.{
  ℕ, suc, ◌+◌, ◌*◌, ◌/◌, ◌++◌, ◌≡◌, Bool, true, false, Option, none, some, List, [], ◌∷◌, ℤ, pos,
  if◌then◌else◌, count_where, update_where, String, str_eq, str_eq_iff, arith,
}

-- The errors that the packages return.
pub data Error : Type 0 where
  db_failed not_found no_rows invalid_input invalid_transition self_approval terminal : Error
  invalid_token quota_exceeded rand_failed hash_failed : Error
  invalid_credentials invalid_session invalid_code no_enrollment no_cookie : Error
  unknown_version not_base64 too_short derive_failed decryption_failed : Error
  unknown_driver no_credential no_versions version_not_found not_configured : Error

pub data Result {ℓ} (A : Type ℓ) : Type ℓ where
  ok : A → Result A
  err : Error → Result A

pub record World (S : Type 0) : Type 0 where
  pub store : S
  pub fault : ℕ → Bool
  pub calls : ℕ
  pub clock : ℕ → ℕ
  pub reads : ℕ
  -- what sqlite3_last_insert_rowid answers on the one connection of the pool
  pub last_rowid : ℤ

abbrev pub Db : Type 0 → Type 0 → Type 0
Db S A = World S → Result A × World S

module _ {S : Type 0} where
  -- `abbrev`, so that a proof computes with a block wherever it stands.
  abbrev pub continue : {A B : Type 0} → Result A → (A → Db S B) → Db S B
  continue (ok a) f w = f a w
  continue (err e) f w = (err e, w)

  infixl 5 ◌>>=◌ ◌>>◌
  abbrev pub ◌>>=◌ : {A B : Type 0} → Db S A → (A → Db S B) → Db S B
  ◌>>=◌ m f w = let (r, w') = m w in continue r f w'

  abbrev pub ◌>>◌ : {A B : Type 0} → Db S A → Db S B → Db S B
  m >> k = m >>= λ _. k

  abbrev pub pure : {A : Type 0} → A → Db S A
  pure a w = (ok a, w)

  abbrev pub fail : {A : Type 0} → Error → Db S A
  fail e w = (err e, w)

  -- One statement: refused by the driver, or its effect on the tables and its answer.
  abbrev pub exec : {A : Type 0} → (S → A × S) → Db S A
  exec stmt w =
      if w.fault w.calls
      then (err db_failed, record w { calls = suc w.calls })
      else (ok (stmt w.store).0, record w { store = (stmt w.store).1; calls = suc w.calls })

  -- An INSERT: its answer is the new key, which the connection remembers.
  abbrev pub exec_insert : (S → ℤ × S) → Db S ℤ
  exec_insert stmt w =
      if w.fault w.calls then (err db_failed, record w { calls = suc w.calls }) else (
        ok (stmt w.store).0,
        record w { store = (stmt w.store).1; calls = suc w.calls; last_rowid = (stmt w.store).0 },
      )

  -- INSERT … ON CONFLICT DO NOTHING. Where nothing is inserted LastInsertId still answers the key
  -- that the connection has given last, in whichever table.
  abbrev pub exec_insert_new : (S → Option ℤ × S) → Db S ℤ
  exec_insert_new stmt w =
      if w.fault w.calls
      then (err db_failed, record w { calls = suc w.calls })
      else elim (stmt w.store).0 [
        | some i ↦
            (ok i, record w { store = (stmt w.store).1; calls = suc w.calls; last_rowid = i })
        | none ↦ (ok w.last_rowid, record w { calls = suc w.calls })
      ]

  -- An INSERT that a UNIQUE constraint may refuse.
  abbrev pub exec_insert_unique : (S → Option (ℤ × S)) → Db S ℤ
  exec_insert_unique stmt w =
      if w.fault w.calls
      then (err db_failed, record w { calls = suc w.calls })
      else elim (stmt w.store) [
        | some (i, s) ↦ (ok i, record w { store = s; calls = suc w.calls; last_rowid = i })
        | none ↦ (err db_failed, record w { calls = suc w.calls })
      ]

  -- An INSERT into a table with a key of its own, which a constraint may refuse.
  abbrev pub exec_unique : (S → Option S) → Db S (Unit {0})
  exec_unique stmt w =
      if w.fault w.calls
      then (err db_failed, record w { calls = suc w.calls })
      else elim (stmt w.store) [
        | some s ↦ (ok tt, record w { store = s; calls = suc w.calls })
        | none ↦ (err db_failed, record w { calls = suc w.calls })
      ]

  -- A statement that a constraint may refuse, and its answer.
  abbrev pub exec_checked : {A : Type 0} → (S → Option (A × S)) → Db S A
  exec_checked stmt w =
      if w.fault w.calls
      then (err db_failed, record w { calls = suc w.calls })
      else elim (stmt w.store) [
        | some (a, s) ↦ (ok a, record w { store = s; calls = suc w.calls })
        | none ↦ (err db_failed, record w { calls = suc w.calls })
      ]

  -- The end of a transaction that began on the tables `s`: Commit, or Rollback.
  abbrev pub finish : {A : Type 0} → S → Result A → Db S A
  finish s (err e) w = (err e, record w { store = s })
  finish s (ok a) w =
      if w.fault w.calls
      then (err db_failed, record w { store = s; calls = suc w.calls })
      else (ok a, record w { calls = suc w.calls })

  -- BeginTx, a block, and Commit if the block returns, Rollback otherwise.
  abbrev pub transaction : {A : Type 0} → Db S A → Db S A
  transaction m w =
      if w.fault w.calls
      then (err db_failed, record w { calls = suc w.calls })
      else let (r, w') = m (record w { calls = suc w.calls }) in finish w.store r w'

  -- A query changes no table.
  abbrev pub query : {A : Type 0} → (S → A) → Db S A
  query q = exec (λ s. (q s, s))

  -- time.Now
  abbrev pub now : Db S ℕ
  now w = (ok (w.clock w.reads), record w { reads = suc w.reads })

  -- An answer that the code throws away, `_, _ = s.DB.ExecContext(…)`.
  abbrev pub ignore : {A : Type 0} → Db S A → Db S (Unit {0})
  ignore m w = (ok tt, (m w).1)

  -- A query whose error the code throws away.
  abbrev pub attempt : {A : Type 0} → Db S (Option A) → Db S (Option A)
  attempt m w = (ok (elim (m w).0 [ ok o ↦ o | err _ ↦ none ]), (m w).1)

  -- sql.ErrNoRows for a row that is not there.
  abbrev pub some_or : {A : Type 0} → Error → Option A → Db S A
  some_or e none = fail e
  some_or e (some a) = pure a

-- A table with INTEGER PRIMARY KEY AUTOINCREMENT: `next_id` passes every key that was ever given.
pub record Table (A : Type 0) : Type 0 where
  pub rows : List A
  pub next_id : ℕ

abbrev pub empty_table : {A : Type 0} → Table A
empty_table = record { rows = []; next_id = 1 }

module _ {A : Type 0} where
  -- INSERT, with the row that the new key makes; answers the key.
  unfoldable pub insert : (ℤ → A) → Table A → ℤ × Table A
  insert row t =
      (pos t.next_id, record { rows = t.rows ++ row (pos t.next_id) ∷ []; next_id = suc t.next_id })

  -- UPDATE … SET … WHERE …; answers how many rows it rewrote.
  unfoldable pub update : (A → Bool) → (A → A) → Table A → ℕ × Table A
  update p f t = (count_where p t.rows, record t { rows = update_where p f t.rows })

-- RFC3339 in UTC keeps the seconds of a time: a timestamp column holds that number, and the order of
-- the texts is the order of the numbers. time.Parse gives back the start of that second.
abbrev pub second : ℕ
second = 1000000000

unfoldable pub format_time : ℕ → ℕ
format_time ns = ns / second

unfoldable pub parse_time : ℕ → ℕ
parse_time s = s * second

-- A nullable timestamp column, as a reader gets it.
unfoldable pub scan_time : Option ℕ → Option ℕ
unfolding parse_time
scan_time none = none
scan_time (some s) = some (parse_time s)

-- The empty text is written as NULL.
unfoldable pub nullable_str : String → Option String
nullable_str s = if str_eq s "" then none else some s

-- COALESCE(c, ''), IFNULL(c, '')
unfoldable pub coalesce : Option String → String
coalesce none = ""
coalesce (some s) = s

pub coalesce-nullable_str : (s : String) → coalesce (nullable_str s) ≡ s
unfolding coalesce nullable_str
coalesce-nullable_str s = ground (arith, str_eq_iff s "")
