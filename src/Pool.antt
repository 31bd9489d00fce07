-- ===== src/Pool.antt =====
-- The connection pool: pg2json/pool/pool.go. What a goroutine does between two Locks is one function on
-- the pool, and Pool.System composes them; what it does next, outside the mutex, is the first component
-- of the result. A channel is a number, a client too; pg2json.Open, Ping and Close are outside. Times
-- and durations are in nanoseconds, times from Go's zero time.
pub mod System
pub mod Weights
pub mod Ownership
pub mod Ledger
pub mod Accounting
pub mod Usage
pub mod Overrun
pub mod Acquire
pub mod Idle
use pg2json.Common.{
  ℕ, zero, suc, ◌+◌, ◌-◌, ◌*◌, Bool, true, false, not, ◌&&◌, ◌||◌, Option, none, some, List, [],
  ◌∷◌, ◌++◌, length, ltb, leb, ◌==◌, if◌then◌else◌,
}
use pg2json.Common.Int.{ℤ, pos, negsuc, ◌+ℤ◌, ◌-ℤ◌, is_zero, int_below}

-- `entry`; a client is known by a number.
pub record Entry : Type 0 where
  pub client : ℕ
  pub last_used : ℕ
  pub born_at : ℕ

-- `Config`, apart from the connections' own configuration. AcquireTimeout is never read.
pub record Config : Type 0 where
  pub max_conns : ℤ
  pub min_idle : ℤ
  pub idle_timeout : ℤ
  pub health_check : ℤ
  pub ping_after_idle : ℤ
  pub max_conn_lifetime : ℤ

abbrev second : ℕ
second = 1000000000

-- `applyDefaults`, apart from the call that configures the buffer pool.
unfoldable pub apply_defaults : Config → Config
apply_defaults c = record {
  max_conns = if int_below (pos 0) c.max_conns then c.max_conns else pos 16;
  min_idle = c.min_idle;
  idle_timeout = if int_below (pos 0) c.idle_timeout then c.idle_timeout else pos (300 * second);
  health_check = if int_below (pos 0) c.health_check then c.health_check else pos (30 * second);
  ping_after_idle = if is_zero c.ping_after_idle then pos (30 * second) else c.ping_after_idle;
  max_conn_lifetime =
      if is_zero c.max_conn_lifetime then pos (3600 * second) else c.max_conn_lifetime;
}

-- `Pool`; `sleeping` counts the goroutines in the condition's Wait.
pub record Pool : Type 0 where
  pub idle : List Entry
  pub open_count : ℤ
  pub in_use : ℤ
  pub closed : Bool
  pub draining : Bool
  pub waiters : List ℕ
  pub sleeping : ℕ

-- The pool that `New` makes, before the idle connections.
unfoldable pub new_pool : Pool
new_pool = record {
  idle = [];
  open_count = pos 0;
  in_use = pos 0;
  closed = false;
  draining = false;
  waiters = [];
  sleeping = 0;
}

-- A slice as its last element and what is before it.
unfoldable pub split_last : List Entry → Option (List Entry × Entry)
split_last [] = none
split_last (e ∷ es) = elim (split_last es) [
  | none ↦ some ([], e)
  | some (before, last) ↦ some (e ∷ before, last)
]

-- What `acquireOnce` does once it has unlocked.
pub data Acquiring : Type 0 where
  refused : Acquiring
  reuse : Entry → Acquiring
  open_new : Acquiring
  wait_on : ℕ → Acquiring

-- The first section of `acquireOnce`; `ch` is the channel that it makes where it has to wait.
unfoldable pub acquire_once : ℤ → ℕ → Pool → Acquiring × Pool
acquire_once max ch p = if p.closed || p.draining then (refused, p) else elim (split_last p.idle) [
  | some (before, e) ↦ (reuse e, record p { idle = before; in_use = p.in_use +ℤ pos 1 })
  | none ↦
      if int_below p.open_count max
      then (open_new, record p { open_count = p.open_count +ℤ pos 1; in_use = p.in_use +ℤ pos 1 })
      else (wait_on ch, record p { waiters = p.waiters ++ ch ∷ [] })
]

-- A waiter that has received an entry.
unfoldable pub received : Pool → Pool
received p = record p { in_use = p.in_use +ℤ pos 1 }

-- A waiter whose context is done leaves the queue.
unfoldable pub leave : ℕ → List ℕ → List ℕ
leave ch [] = []
leave ch (w ∷ ws) = if w == ch then ws else w ∷ leave ch ws

unfoldable pub give_up : ℕ → Pool → Pool
give_up ch p = record p { waiters = leave ch p.waiters }

-- What follows a failing Open in `acquireOnce`.
unfoldable pub open_failed : Pool → Pool
open_failed p = record p { in_use = p.in_use -ℤ pos 1 }

-- A connection is no longer in use, and the condition is broadcast where it was the last one.
unfoldable pub end_use : Pool → Pool
end_use p =
    let n = p.in_use -ℤ pos 1 in
    record p { in_use = n; sleeping = if is_zero n then 0 else p.sleeping }

-- What `put` does once it has unlocked.
pub data Putting : Type 0 where
  close_it : Putting
  hand_to : ℕ → Entry → Putting
  keep : Putting

-- The first section of `put`, with the time read before it.
unfoldable pub put : ℕ → Entry → Pool → Putting × Pool
put now entry p =
    let e = record entry { last_used = now } in
    let p' = end_use p in
    if p'.closed || p'.draining then (close_it, p') else elim p'.waiters [
      | w ∷ ws ↦ (hand_to w e, record p' { waiters = ws })
      | [] ↦ (keep, record p' { idle = p'.idle ++ e ∷ [] })
    ]

-- The second section of `put`, for a pool that takes nothing back.
unfoldable pub put_closed : Pool → Pool
put_closed p = record p { open_count = p.open_count -ℤ pos 1 }

-- `discard`, with the waiter that gets a replacement.
unfoldable pub discard : Pool → Option ℕ × Pool
discard p = elim p.waiters [
  | w ∷ ws ↦ (some w, record p { open_count = p.open_count -ℤ pos 1; waiters = ws })
  | [] ↦ (none, record p { open_count = p.open_count -ℤ pos 1 })
]

-- The replacement of `discard` when its Open has failed.
unfoldable pub replace_failed : Pool → Pool
replace_failed p = if p.closed then p else record p { open_count = p.open_count -ℤ pos 1 }

-- The entry that a replacement hands over.
unfoldable pub replacement : ℕ → ℕ → Entry
replacement client now = record { client = client; last_used = now; born_at = 0 }

-- The replacement of `discard` when it has a connection: whether it hands it over.
unfoldable pub replace_opened : Pool → Bool × Pool
replace_opened p =
    if p.closed then (false, p) else (true, record p { open_count = p.open_count +ℤ pos 1 })

-- The first section of `Drain`, with how many idle connections it closes and whom it wakes.
unfoldable pub drain_start : Pool → (ℕ × List ℕ) × Pool
drain_start p =
    if p.closed
    then ((0, []), p)
    else ((length p.idle, p.waiters), record p { draining = true; idle = []; waiters = [] })

unfoldable pub drain_closed : ℕ → Pool → Pool
drain_closed n p = record p { open_count = p.open_count -ℤ pos n }

-- A round of the waiting goroutine of `Drain`, and of `WaitIdle`: it sleeps or is done.
unfoldable pub await_drain : Pool → Bool × Pool
await_drain p =
    if int_below (pos 0) p.in_use
    then (false, record p { sleeping = suc p.sleeping })
    else (true, p)

unfoldable pub await_idle : Pool → Bool × Pool
await_idle p =
    if int_below (pos 0) p.in_use && not p.closed
    then (false, record p { sleeping = suc p.sleeping })
    else (true, p)

-- What follows in `Drain` and `WaitIdle` when the context is done.
unfoldable pub broadcast : Pool → Pool
broadcast p = record p { sleeping = 0 }

-- `Close`, with the waiters that get nil.
unfoldable pub close : Pool → List ℕ × Pool
close p =
    if p.closed
    then ([], p)
    else (p.waiters, record p { closed = true; idle = []; waiters = []; sleeping = 0 })

-- `Stats`
pub record Stats : Type 0 where
  pub open_count : ℤ
  pub idle : ℕ
  pub in_use : ℤ
  pub waiting : ℕ
  pub max : ℤ

unfoldable pub stats : ℤ → Pool → Stats
stats max p = record {
  open_count = p.open_count;
  idle = length p.idle;
  in_use = p.in_use;
  waiting = length p.waiters;
  max = max;
}

-- The loop of `evictIdle`: `kept` counts the entries already kept, and the second result are those
-- dropped.
unfoldable pub evict_loop : ℤ → ℤ → List Entry → ℕ → List Entry × List Entry
evict_loop cutoff min_idle [] kept = ([], [])
evict_loop cutoff min_idle (e ∷ es) kept =
    let drops = int_below (pos e.last_used) cutoff && int_below min_idle (pos (suc kept)) in
    let rest = evict_loop cutoff min_idle es (if drops then kept else suc kept) in
    if drops then (rest.0, e ∷ rest.1) else (e ∷ rest.0, rest.1)

-- `evictIdle`, with the entries that it closes.
unfoldable pub evict_idle : Config → ℕ → Pool → List Entry × Pool
evict_idle cfg now p =
    let (kept, dropped) = evict_loop (pos now -ℤ cfg.idle_timeout) cfg.min_idle p.idle 0 in
    (dropped, record p { idle = kept; open_count = p.open_count -ℤ pos (length dropped) })
