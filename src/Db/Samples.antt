-- ===== src/Db/Samples.antt =====
-- Worlds for the tests.
use netmantle.Prelude.{ℕ, ◌+◌, ◌*◌, ◌==◌, false, pos}
use netmantle.Db.{World, second}

-- No statement fails; the n-th reading of the clock is 1000 + n seconds.
abbrev pub calm : {S : Type 0} → S → World S
calm s = record {
  store = s;
  fault = λ n. false;
  calls = 0;
  clock = λ n. (1000 + n) * second;
  reads = 0;
  last_rowid = pos 0;
}

-- The n-th statement fails, and no other.
abbrev pub failing : {S : Type 0} → ℕ → S → World S
failing n s = record (calm s) { fault = λ m. m == n }
