-- ===== src/Stream/Laws.antt =====
-- The contract of `outWriter` in pg2json/stream.go, which the query engine relies on, and that both
-- implementations fulfil it.
use pg2json.Common.{
  ℕ, suc, ◌+◌, ◌-◌, ◌≡◌, ◌≢◌, refl, sym, ◌∙◌, Bool, true, false, ◌&&◌, none, some, [], ◌∷◌, ◌++◌,
  append-nil, append_assoc, arith, Bytes, length, length-append, ltb, leb, Bool-cases, Option-cases,
  inl, inr,
}
use pg2json.Stream.{
  OutWriter, buf_writer, Flushing, Sink, Clock, stamped, flush_pending, flush_now, flush_when_due,
  discard_pending, flushing_writer,
}

-- What a flush promises: without an error nothing is lost and the state stays sound.
abbrev pub Keeps : {S : Type 0} → (S → Bytes) → (S → Type 0) → (S → S × Bool) → Type 0
Keeps {S} out Sound step =
    (s : S) → Sound s → (step s).1 ≡ false → Sound (step s).0 × (out (step s).0 ≡ out s)

-- `emitted` is what went out, downstream or into the buffer, in order.
pub record IsWriter {S : Type 0} (w : OutWriter S) : Type 1 where
  pub emitted : S → Bytes
  pub Sound : S → Type 0
  pub write :
      (s : S) (p : Bytes) → Sound s → Sound (w.write s p) × (emitted (w.write s p) ≡ emitted s ++ p)
  pub set_buf :
      (s : S) (p : Bytes)
      → Sound s
      → Sound (w.set_buf s (w.buf s ++ p)) × (emitted (w.set_buf s (w.buf s ++ p)) ≡ emitted s ++ p)
  pub set_any : (s : S) (p : Bytes) → Sound s → Sound (w.set_buf s p)
  pub maybe_flush : Keeps emitted Sound w.maybe_flush
  pub flush : Keeps emitted Sound w.flush
  -- Nothing is waiting in the buffer of a writer that has one under it.
  pub Delivered : S → Type 0
  pub flush_delivers : (s : S) → (w.flush s).1 ≡ false → Delivered (w.flush s).0
  pub bytes_out : (s : S) → Sound s → w.bytes_out s ≡ length (emitted s)
  pub reset :
      (s : S) → Sound s → w.committed s ≡ false → Sound (w.reset s) × (emitted (w.reset s) ≡ [])
  pub reset_late : (s : S) → w.committed s ≡ true → w.reset s ≡ s

-- The in-memory writer fulfils the contract of `outWriter`.
unfoldable pub buf_contract : IsWriter buf_writer
unfolding buf_writer
buf_contract = record {
  emitted = λ b. b;
  Sound = λ b. Unit {0};
  write = λ b p s. (tt, refl);
  set_buf = λ b p s. (tt, refl);
  set_any = λ b p s. tt;
  maybe_flush = λ b s e. (tt, refl);
  flush = λ b s e. (tt, refl);
  Delivered = λ b. Unit {0};
  flush_delivers = λ b e. tt;
  bytes_out = λ b s. refl;
  reset = λ b s e. (tt, refl);
  reset_late = λ b e. cc;
}

pub record IsSound (f : Flushing) : Type 0 where
  pub untouched : f.is_committed ≡ false → f.received ≡ []
  pub counted : f.written ≡ length f.received

abbrev pub sent : Flushing → Bytes
sent f = f.received ++ f.pending

empty : (b : Bytes) → ltb 0 (length b) ≡ false → b ≡ []
empty [] h = refl
empty (c ∷ b) h = absurd (ground arith)

module _ (sink : Sink) (clock : Clock) (threshold interval : ℕ) where
  stamped_lem :
      (f : Flushing)
      → IsSound f
      → IsSound (stamped sink clock threshold interval f)
        × (sent (stamped sink clock threshold interval f) ≡ sent f)
  unfolding stamped
  stamped_lem f s = elim (Bool-cases (ltb 0 interval)) [
    | inl on ↦ rw on (record { untouched = s.untouched; counted = s.counted }, refl)
    | inr off ↦ rw off (s, refl)
  ]

  -- A failing Write is reported.
  impossible :
      (f : Flushing) {n : ℕ}
      → sink f.writes ≡ some n
      → (flush_pending sink clock threshold interval f).1 ≢ false
  unfolding flush_pending
  impossible f bad e = let h = rw (bad, flush_pending) at e in cc

  flush_pending_lem : Keeps sent IsSound (flush_pending sink clock threshold interval)
  unfolding flush_pending
  flush_pending_lem f s e = elim (Option-cases (sink f.writes)) [
    | inl ok ↦
        let after = record f {
          pending = [];
          is_committed = true;
          written = f.written + length f.pending;
          received = f.received ++ f.pending;
          writes = suc f.writes;
        } in
        let counted : f.written + length f.pending ≡ length (f.received ++ f.pending) =
          let c = s.counted in omega (arith, length-append f.received f.pending) in
        let (sound, same) = stamped_lem after (record { untouched = λ h. cc; counted = counted }) in
        rw (ok, flush_pending) (sound, same ∙ append-nil (f.received ++ f.pending))
    | inr (n, bad) ↦ absurd (impossible f bad e)
  ]

  pub flush_now_lem : Keeps sent IsSound (flush_now sink clock threshold interval)
  unfolding flush_now
  flush_now_lem f s e = elim (Bool-cases (ltb 0 (length f.pending))) [
    | inr none_left ↦ rw none_left (stamped_lem f s)
    | inl some_left ↦ rw some_left (flush_pending_lem f s (rw some_left at e))
  ]

  stamped_pending : (f : Flushing) → (stamped sink clock threshold interval f).pending ≡ f.pending
  unfolding stamped
  stamped_pending f = elim (Bool-cases (ltb 0 interval)) [
    | inl on ↦ rw on refl
    | inr off ↦ rw off refl
  ]

  pub flush_now_empties :
      (f : Flushing)
      → (flush_now sink clock threshold interval f).1 ≡ false
      → (flush_now sink clock threshold interval f).0.pending ≡ []
  unfolding flush_now flush_pending
  flush_now_empties f e = elim (Bool-cases (ltb 0 (length f.pending))) [
    | inr none_left ↦ rw none_left (stamped_pending f ∙ empty f.pending none_left)
    | inl some_left ↦ elim (Option-cases (sink f.writes)) [
      | inl ok ↦ rw (some_left, ok, flush_pending) (stamped_pending _)
      | inr (n, bad) ↦ absurd (impossible f bad (rw some_left at e))
    ]
  ]

  -- A sink that takes every Write makes no flush fail.
  pub flush_now_takes :
      ((n : ℕ) → sink n ≡ none)
      → (f : Flushing) → (flush_now sink clock threshold interval f).1 ≡ false
  unfolding flush_now flush_pending
  flush_now_takes takes f = elim (Bool-cases (ltb 0 (length f.pending))) [
    | inr none_left ↦ rw none_left refl
    | inl some_left ↦ rw (some_left, flush_pending, takes f.writes) refl
  ]

  pub flush_when_due_takes :
      ((n : ℕ) → sink n ≡ none)
      → (f : Flushing) → (flush_when_due sink clock threshold interval f).1 ≡ false
  unfolding flush_when_due
  flush_when_due_takes takes f =
      let read = record f { readings = suc f.readings } in
      elim (Bool-cases (leb threshold (length f.pending))) [
        | inl full ↦ rw full (flush_now_takes takes f)
        | inr room ↦ elim (Bool-cases (ltb 0 interval && ltb 0 (length f.pending))) [
          | inr off ↦ rw (room, off) refl
          | inl on ↦ elim (Bool-cases (leb interval (clock f.readings - f.last_flush))) [
            | inr early ↦ rw (room, on, early) refl
            | inl late ↦ rw (room, on, late) (flush_now_takes takes read)
          ]
        ]
      ]

  pub flush_when_due_lem : Keeps sent IsSound (flush_when_due sink clock threshold interval)
  unfolding flush_when_due
  flush_when_due_lem f s e =
      let read = record f { readings = suc f.readings } in
      let sound : IsSound read = record { untouched = s.untouched; counted = s.counted } in
      elim (Bool-cases (leb threshold (length f.pending))) [
        | inl full ↦ rw full (flush_now_lem f s (rw full at e))
        | inr room ↦ elim (Bool-cases (ltb 0 interval && ltb 0 (length f.pending))) [
          | inr off ↦ rw (room, off) (s, refl)
          | inl on ↦ elim (Bool-cases (leb interval (clock f.readings - f.last_flush))) [
            | inr early ↦ rw (room, on, early) (sound, refl)
            | inl late ↦ rw (room, on, late) (flush_now_lem read sound (rw (room, on, late) at e))
          ]
        ]
      ]

  -- The flushing writer fulfils the contract of `outWriter`, whatever the sink and the clock do.
  unfoldable pub flushing_contract : IsWriter (flushing_writer sink clock threshold interval)
  unfolding flushing_writer discard_pending
  flushing_contract = record {
    emitted = sent;
    Sound = IsSound;
    write = λ f p s. (
      record { untouched = s.untouched; counted = s.counted },
      sym (append_assoc f.received f.pending p),
    );
    set_buf = λ f p s. (
      record { untouched = s.untouched; counted = s.counted },
      sym (append_assoc f.received f.pending p),
    );
    set_any = λ f p s. record { untouched = s.untouched; counted = s.counted };
    maybe_flush = flush_when_due_lem;
    flush = flush_now_lem;
    Delivered = λ f. f.pending ≡ [];
    flush_delivers = flush_now_empties;
    bytes_out = λ f s. let c = s.counted in omega (arith, length-append f.received f.pending);
    reset = λ f s e.
        rw e
          (record { untouched = λ h. s.untouched e; counted = s.counted }, rw (s.untouched e) refl);
    reset_late = λ f e. rw e refl;
  }
