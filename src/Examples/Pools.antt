-- ===== src/Examples/Pools.antt =====
-- The theorems about the connection pool at concrete inputs.
use pg2json.Common.{ℕ, ◌+◌, ◌≤◌, ◌≡◌, refl, Bool, true, false, [], ◌∷◌, arith}
use pg2json.Common.Int.{pos, sub_ℕ}
use pg2json.Pool.{
  Entry, Config, new_pool, acquire_once, split_last, replacement, evict_loop, apply_defaults,
}
use pg2json.Pool.System.{
  System, new_system, acquiring, stock, Reach, reach_new, reach_step, step_acquire,
}
use pg2json.Pool.Ownership.{owners, owners-bound}
use pg2json.Pool.Ledger.{present}
use pg2json.Pool.Accounting.{present-bound}
use pg2json.Pool.Usage.{load, Reach-IsUsed}
use pg2json.Pool.Acquire.{
  Attempt, got, acquire, Rejected, Ends, acquire_lem, is_healthy, is_healthy-replacement,
}
use pg2json.Pool.Idle.{IsEvicted, evict_loop-IsEvicted}

abbrev unset : Config
unset = record {
  max_conns = pos 0;
  min_idle = pos 1;
  idle_timeout = pos 0;
  health_check = pos 0;
  ping_after_idle = pos 0;
  max_conn_lifetime = pos 0;
}

-- One idle connection; after an Acquire it is behind a handle, and after another one waits.
abbrev idle_one : System
idle_one = stock (5 ∷ []) new_system

abbrev taken : System
taken = acquiring (acquire_once (pos 1) 0 idle_one.pool) idle_one

abbrev awaited : System
awaited = acquiring (acquire_once (pos 1) 7 taken.pool) taken

Reach-taken : Reach (pos 1) unset (5 ∷ []) taken
Reach-taken = reach_step reach_new (step_acquire idle_one 0)

Reach-awaited : Reach (pos 1) unset (5 ∷ []) awaited
Reach-awaited = reach_step Reach-taken (step_acquire taken 7)

owners-bound_example : owners 0 taken ≤ 1
owners-bound_example = owners-bound 0 Reach-taken

present-bound_example :
    (awaited.pool.open_count ≡ sub_ℕ (present awaited) awaited.missed)
    × (present awaited ≤ 1 + awaited.replaced + awaited.missed)
unfolding stock acquiring acquire_once split_last new_pool
present-bound_example = present-bound {m = 1} (omega arith) Reach-awaited refl

Reach-IsUsed_example :
    (taken.pool.in_use ≡ pos (load taken))
    × (taken.failures ≡ 0 → load taken ≡ 0 → taken.pool.sleeping ≡ 0)
Reach-IsUsed_example = Reach-IsUsed Reach-taken

abbrev first : Entry
first = record { client = 0; last_used = 5; born_at = 5 }

-- Three replacements in a row, a year after Go's zero time.
abbrev replacements : ℕ → Attempt Bool
replacements n = got (replacement n 31536000000000000) 31536000000000000 true

acquire_lem_example :
    let r = acquire (apply_defaults unset) replacements in
    (j : ℕ) × Rejected (apply_defaults unset) replacements 0 (r.1) j
    × Ends (apply_defaults unset) replacements (r.0) j 3
acquire_lem_example = acquire_lem (apply_defaults unset) replacements

is_healthy-replacement_example :
    is_healthy (apply_defaults unset) 31536000000000000 true (replacement 3 31536000000000000)
    ≡ false
unfolding apply_defaults
is_healthy-replacement_example =
    is_healthy-replacement (apply_defaults unset) 3600000000000 3 31536000000000000
      31536000000000000 true refl (omega arith) (omega arith) (omega arith)

evict_loop-IsEvicted_example :
    IsEvicted (pos 10) 1 0 (first ∷ first ∷ []) (evict_loop (pos 10) (pos 1) (first ∷ first ∷ []) 0)
evict_loop-IsEvicted_example = evict_loop-IsEvicted (pos 10) 1 (first ∷ first ∷ [])
