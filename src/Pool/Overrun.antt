-- ===== src/Pool/Overrun.antt =====
-- A connection too many: what the steps of the pool of pg2json/pool/pool.go allow around a discard with a
-- waiter.
use pg2json.Common.{ℕ, suc, ◌≡◌, false, List, [], ◌∷◌}
use pg2json.Common.Int.{ℤ, pos, ◌+ℤ◌}
use pg2json.Pool.{Entry, Config, Pool}
use pg2json.Pool.System.{System, Step}

-- A full pool of which no goroutine is between two sections, with a waiter.
pub record IsFull (m w : ℕ) (s : System) : Type 0 where
  pub full : s.pool.open_count ≡ pos (suc m)
  pub none_idle : s.pool.idle ≡ []
  pub on : s.pool.closed ≡ false
  pub taking : s.pool.draining ≡ false
  pub waiter : s.pool.waiters ≡ w ∷ []
  pub no_replacement : s.replacing ≡ []

-- Four steps on from `s`: the handle of `e` goes, its connection is discarded and the waiter's replacement
-- is under way, an Acquire begins to open a connection, and the replacement arrives; then there is
-- one more than `max`.
pub record Overruns (max : ℤ) (cfg : Config) (s : System) (held : List Entry) (w : ℕ) : Type 0 where
  pub released : System
  pub gone : System
  pub acquired : System
  pub over : System
  pub release_step : Step max cfg s released
  pub handle_gone : released.held ≡ held
  pub one_discard : released.discarding ≡ suc s.discarding
  pub discard_step : Step max cfg released gone
  pub discard_done : gone.discarding ≡ s.discarding
  pub under_way : gone.replacing ≡ w ∷ []
  pub acquire_step : Step max cfg gone acquired
  pub one_opening : acquired.opening ≡ suc s.opening
  pub replace_step : Step max cfg acquired over
  pub arrived : over.replaced ≡ suc s.replaced
  pub too_many : over.pool.open_count ≡ max +ℤ pos 1
