-- ===== src/Stream.antt =====
-- Where the bytes of a response go: pg2json/stream.go. The writer under a `flushingWriter`, the clock
-- and the capacity of slices are outside: `Sink` and `Clock` say what the successive calls of Write
-- and time.Now give. GrowForRow only moves the buffer and releaseBuf only hands it back to the buffer
-- pool; they have no model.
pub mod Laws
use pg2json.Common.{
  ℕ, suc, ◌+◌, ◌-◌, Bool, true, false, not, ◌&&◌, Option, none, some, [], ◌++◌, Bytes, length, take,
  ltb, leb, ◌==◌, if◌then◌else◌,
}

-- The interface `outWriter`. An operation that can fail gives back whether it did.
pub record OutWriter {ℓ} (S : Type ℓ) : Type ℓ where
  pub buf : S → Bytes
  pub set_buf : S → Bytes → S
  pub write : S → Bytes → S
  pub maybe_flush : S → S × Bool
  pub flush : S → S × Bool
  pub committed : S → Bool
  pub reset : S → S
  pub bytes_out : S → ℕ

-- `bufWriter`, whose state is its buffer.
unfoldable pub buf_writer : OutWriter Bytes
buf_writer = record {
  buf = λ b. b;
  set_buf = λ b p. p;
  write = λ b p. b ++ p;
  maybe_flush = λ b. (b, false);
  flush = λ b. (b, false);
  committed = λ b. false;
  reset = λ b. [];
  bytes_out = λ b. length b;
}

-- `flushingWriter`, with what the sink has received and how often it and the clock were asked.
pub record Flushing : Type 0 where
  pub pending : Bytes
  pub is_committed : Bool
  pub written : ℕ
  pub last_flush : ℕ
  pub received : Bytes
  pub writes : ℕ
  pub readings : ℕ

-- The n-th Write takes all it is given, or fails behind some bytes.
abbrev pub Sink : Type 0
Sink = ℕ → Option ℕ

abbrev pub Clock : Type 0
Clock = ℕ → ℕ

-- The state that `newFlushWriter` of pg2json/query.go makes.
unfoldable pub fresh : Clock → Flushing
fresh clock = record {
  pending = [];
  is_committed = false;
  written = 0;
  last_flush = clock 0;
  received = [];
  writes = 0;
  readings = 1;
}

module _ (sink : Sink) (clock : Clock) (threshold interval : ℕ) where
  -- The end of `Flush`: the clock is read where there is an interval.
  unfoldable pub stamped : Flushing → Flushing
  stamped f =
      if ltb 0 interval
      then record f { last_flush = clock f.readings; readings = suc f.readings }
      else f

  -- The Write of `Flush`. On an error the buffer stays, and the sink keeps what it took.
  unfoldable pub flush_pending : Flushing → Flushing × Bool
  flush_pending f = elim (sink f.writes) [
    | none ↦ (
      stamped record f {
        pending = [];
        is_committed = true;
        written = f.written + length f.pending;
        received = f.received ++ f.pending;
        writes = suc f.writes;
      },
      false,
    )
    | some n ↦ (record f { received = f.received ++ take n f.pending; writes = suc f.writes }, true)
  ]

  -- `flushingWriter.Flush`
  unfoldable pub flush_now : Flushing → Flushing × Bool
  flush_now f = if ltb 0 (length f.pending) then flush_pending f else (stamped f, false)

  -- `flushingWriter.MaybeFlush`
  unfoldable pub flush_when_due : Flushing → Flushing × Bool
  flush_when_due f =
      if leb threshold (length f.pending)
      then flush_now f
      else if ltb 0 interval && ltb 0 (length f.pending)
      then (if leb interval (clock f.readings - f.last_flush)
          then flush_now (record f { readings = suc f.readings })
          else (record f { readings = suc f.readings }, false))
      else (f, false)

  -- `flushingWriter.Reset`
  unfoldable pub discard_pending : Flushing → Flushing
  discard_pending f = if f.is_committed then f else record f { pending = [] }

  -- `flushingWriter`
  unfoldable pub flushing_writer : OutWriter Flushing
  flushing_writer = record {
    buf = λ f. f.pending;
    set_buf = λ f p. record f { pending = p };
    write = λ f p. record f { pending = f.pending ++ p };
    maybe_flush = flush_when_due;
    flush = flush_now;
    committed = λ f. f.is_committed;
    reset = discard_pending;
    bytes_out = λ f. f.written + length f.pending;
  }
