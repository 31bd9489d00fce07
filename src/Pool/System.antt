-- ===== src/Pool/System.antt =====
-- The goroutines around the pool of pg2json/pool/pool.go, as a step relation: a step is one section
-- under the mutex, or a result of Open, with what follows it up to the next section. A channel holds
-- one message at most; `mail` has those that nobody has received.
use pg2json.Common.{ℕ, suc, ◌≡◌, Bool, true, false, Option, none, some, List, [], ◌∷◌, ◌++◌}
use pg2json.Common.Int.{ℤ, pos, ◌+ℤ◌}
use pg2json.Pool.{
  Entry, Config, Pool, new_pool, Acquiring, refused, reuse, open_new, wait_on, acquire_once,
  received, give_up, open_failed, end_use, Putting, close_it, hand_to, keep, put, put_closed,
  discard, replace_failed, replacement, replace_opened, drain_start, drain_closed, await_drain,
  await_idle, broadcast, close, evict_idle,
}

-- The pool with the handles that are out, the undelivered messages, and the goroutines that are between
-- two sections: in Open or before `discard`, opening a replacement for a channel, behind a failed one,
-- in `put` of a closed pool, and in `Drain` with what it closes and wakes. `next` numbers the clients.
-- The last three count what has happened: replacements that came and that failed, and other failures of
-- Open.
pub record System : Type 0 where
  pub pool : Pool
  pub held : List Entry
  pub mail : List (ℕ × Option Entry)
  pub opening : ℕ
  pub discarding : ℕ
  pub replacing : List ℕ
  pub cancelling : ℕ
  pub closing : ℕ
  pub shedding : List (ℕ × List ℕ)
  pub next : ℕ
  pub replaced : ℕ
  pub missed : ℕ
  pub failures : ℕ

abbrev pub new_system : System
new_system = record {
  pool = new_pool;
  held = [];
  mail = [];
  opening = 0;
  discarding = 0;
  replacing = [];
  cancelling = 0;
  closing = 0;
  shedding = [];
  next = 0;
  replaced = 0;
  missed = 0;
  failures = 0;
}

-- nil for each waiter.
abbrev pub wake : List ℕ → List (ℕ × Option Entry)
wake [] = []
wake (w ∷ ws) = (w, none) ∷ wake ws

-- `acquireOnce` behind its first section.
unfoldable pub acquiring : Acquiring × Pool → System → System
acquiring (refused, p) s = record s { pool = p }
acquiring (reuse e, p) s = record s { pool = p; held = e ∷ s.held }
acquiring (open_new, p) s = record s { pool = p; opening = suc s.opening }
acquiring (wait_on ch, p) s = record s { pool = p }

-- `put` behind its first section.
unfoldable pub putting : List Entry → Putting × Pool → System → System
putting held (close_it, p) s = record s { pool = p; held = held; closing = suc s.closing }
putting held (hand_to ch e, p) s = record s {
  pool = p;
  held = held;
  mail = s.mail ++ (ch, some e) ∷ [];
}
putting held (keep, p) s = record s { pool = p; held = held }

-- The goroutine that `discard` starts for a waiter.
unfoldable pub discarded : ℕ → Option ℕ × Pool → System → System
discarded k (none, p) s = record s { pool = p; discarding = k }
discarded k (some w, p) s = record s { pool = p; discarding = k; replacing = s.replacing ++ w ∷ [] }

-- A replacement that has a connection hands it over, or nil to a waiter of a closed pool.
unfoldable pub replacing_done : ℕ → ℕ → List ℕ → Bool × Pool → System → System
replacing_done ch now chs (true, p) s = record s {
  pool = p;
  replacing = chs;
  mail = s.mail ++ (ch, some (replacement s.next now)) ∷ [];
  next = suc s.next;
  replaced = suc s.replaced;
}
replacing_done ch now chs (false, p) s = record s {
  pool = p;
  replacing = chs;
  mail = s.mail ++ (ch, none) ∷ [];
}

-- A connection that `acquireOnce` has opened.
unfoldable pub opened : ℕ → ℕ → System → System
opened k now s =
    let e : Entry = record { client = s.next; last_used = now; born_at = now } in
    record s { opening = k; held = e ∷ s.held; next = suc s.next }

-- `Drain` and `Close` behind their first sections.
unfoldable pub shedding_more : (ℕ × List ℕ) × Pool → System → System
shedding_more (shed, p) s = record s { pool = p; shedding = shed ∷ s.shedding }

unfoldable pub closing_down : List ℕ × Pool → System → System
closing_down (ws, p) s = record s { pool = p; mail = s.mail ++ wake ws }

-- The loop of `New`, with the times at which it has opened a connection.
unfoldable pub stock : List ℕ → System → System
stock [] s = s
stock (now ∷ times) s =
    let e : Entry = record { client = s.next; last_used = now; born_at = now } in
    let p = s.pool in
    stock times (record s {
      pool = record p { idle = p.idle ++ e ∷ []; open_count = p.open_count +ℤ pos 1 };
      next = suc s.next;
    })

-- The steps, under a limit of `max` connections and a configuration for the eviction.
pub data Step (max : ℤ) (cfg : Config) : System → System → Type 0 where
  step_acquire : (s : System) (ch : ℕ) → Step max cfg s (acquiring (acquire_once max ch s.pool) s)
  step_opened : (s : System) (k now : ℕ) → s.opening ≡ suc k → Step max cfg s (opened k now s)
  step_open_failed :
      (s : System) (k : ℕ)
      → s.opening ≡ suc k
      → Step max cfg s (record s {
        pool = open_failed s.pool;
        opening = k;
        discarding = suc s.discarding;
        failures = suc s.failures;
      })
  step_receive :
      (s : System) (before after : List (ℕ × Option Entry)) (ch : ℕ) (e : Entry)
      → s.mail ≡ before ++ (ch, some e) ∷ after
      → Step max cfg s
          (record s { pool = received s.pool; mail = before ++ after; held = e ∷ s.held })
  step_receive_nil :
      (s : System) (before after : List (ℕ × Option Entry)) (ch : ℕ)
      → s.mail ≡ before ++ (ch, none) ∷ after
      → Step max cfg s (record s { mail = before ++ after })
  step_give_up : (s : System) (ch : ℕ) → Step max cfg s (record s { pool = give_up ch s.pool })
  step_release :
      (s : System) (before after : List Entry) (e : Entry) (now : ℕ)
      → s.held ≡ before ++ e ∷ after
      → Step max cfg s (putting (before ++ after) (put now e s.pool) s)
  step_end_use :
      (s : System) (before after : List Entry) (e : Entry)
      → s.held ≡ before ++ e ∷ after
      → Step max cfg s (record s {
        pool = end_use s.pool;
        held = before ++ after;
        discarding = suc s.discarding;
      })
  step_discard :
      (s : System) (k : ℕ) → s.discarding ≡ suc k → Step max cfg s (discarded k (discard s.pool) s)
  step_replaced :
      (s : System) (before after : List ℕ) (ch now : ℕ)
      → s.replacing ≡ before ++ ch ∷ after
      → Step max cfg s (replacing_done ch now (before ++ after) (replace_opened s.pool) s)
  step_missed :
      (s : System) (before after : List ℕ) (ch : ℕ)
      → s.replacing ≡ before ++ ch ∷ after
      → Step max cfg s (record s {
        replacing = before ++ after;
        mail = s.mail ++ (ch, none) ∷ [];
        cancelling = suc s.cancelling;
      })
  step_cancelled :
      (s : System) (k : ℕ)
      → s.cancelling ≡ suc k
      → Step max cfg s
          (record s { pool = replace_failed s.pool; cancelling = k; missed = suc s.missed })
  step_put_closed :
      (s : System) (k : ℕ)
      → s.closing ≡ suc k
      → Step max cfg s (record s { pool = put_closed s.pool; closing = k })
  step_drain : (s : System) → Step max cfg s (shedding_more (drain_start s.pool) s)
  step_drained :
      (s : System) (before after : List (ℕ × List ℕ)) (n : ℕ) (ws : List ℕ)
      → s.shedding ≡ before ++ (n, ws) ∷ after
      → Step max cfg s (record s {
        pool = drain_closed n s.pool;
        shedding = before ++ after;
        mail = s.mail ++ wake ws;
      })
  step_close : (s : System) → Step max cfg s (closing_down (close s.pool) s)
  step_evict :
      (s : System) (now : ℕ) → Step max cfg s (record s { pool = (evict_idle cfg now s.pool).1 })
  step_await_drain : (s : System) → Step max cfg s (record s { pool = (await_drain s.pool).1 })
  step_await_idle : (s : System) → Step max cfg s (record s { pool = (await_idle s.pool).1 })
  step_broadcast : (s : System) → Step max cfg s (record s { pool = broadcast s.pool })

-- What the steps reach from a pool that `New` has made, with connections opened at `times`.
pub data Reach (max : ℤ) (cfg : Config) (times : List ℕ) : System → Type 0 where
  reach_new : Reach max cfg times (stock times new_system)
  reach_step : {s t : System} → Reach max cfg times s → Step max cfg s t → Reach max cfg times t
