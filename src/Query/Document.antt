-- ===== src/Query/Document.antt =====
-- What `consumeText` of pg2json/query.go emits for a whole response, in each mode.
use pg2json.Common.{
  ℕ, suc, ◌≡◌, ◌≢◌, ◌⊎◌, inl, inr, refl, sym, ap, ◌∙◌, Bool, true, false, Option, none, some, List,
  [], ◌∷◌, ◌++◌, append-nil, append_assoc, Bytes, codes, All, Bool-cases, if◌then◌else◌,
}
use pg2json.Stream.{OutWriter}
use pg2json.Stream.Laws.{IsWriter, Keeps}
use pg2json.Rows.{Plan}
use pg2json.Rows.Server.{data_row}
use pg2json.Rows.Output.{IsRow}
use pg2json.Query.{
  Mode, mode_array, mode_ndjson, mode_columnar, mode_toon, Message, msg_data_row,
  msg_command_complete, msg_ready_for_query, QueryError, write_failed, Caps, Progress, Response,
  RowOutcome, carry_on, stop, check_caps, write_header, write_footer, write_error, write_row,
  on_data_row, on_ready, consume_text,
}
use pg2json.Query.Texts.{
  row_text, separator, rows_text, header_text, footer_text, append_row-data_row,
}

-- Some flush of the writer reports a failure.
abbrev pub Fails : {S : Type 0} → OutWriter S → Type 0
Fails {S} w = (s : S) × (((w.maybe_flush s).1 ≡ true) ⊎ ((w.flush s).1 ≡ true))

-- The response ends, without an error unless a flush fails, with `text` emitted and nothing read
-- beyond it.
abbrev pub Completes :
    {S : Type 0} {w : OutWriter S} → IsWriter w → Response S → Bytes → List Message → Type 0
Completes {w = w} laws r text rest =
    (Fails w × (r.result ≡ some write_failed))
    ⊎ ((r.result ≡ none) × (laws.emitted r.out ≡ text) × laws.Delivered r.out × (r.rest ≡ rest))

-- The DataRows of `rows` and what ends the response.
abbrev pub messages : List (List (Option Bytes)) → List Message → List Message
messages [] rest = msg_command_complete ∷ msg_ready_for_query ∷ rest
messages (cells ∷ rows) rest = msg_data_row (data_row cells) ∷ messages rows rest

-- No limit on the response.
abbrev pub no_caps : Caps
no_caps = record { max_rows = 0; max_bytes = 0 }

module _ {S : Type 0} (w : OutWriter S) (laws : IsWriter w) (mode : Mode) (plan : Plan) where
  -- The header, if it is still to come.
  abbrev pub opening : Bool → Bytes
  opening h = if h then [] else header_text mode plan

  write_header_lem :
      (m : Mode) (out : S)
      → laws.Sound out
      → laws.Sound (write_header w m plan out)
        × (laws.emitted (write_header w m plan out) ≡ laws.emitted out ++ header_text m plan)
  unfolding write_header
  write_header_lem mode_array out s = laws.write out (codes "[") s
  write_header_lem mode_ndjson out s = (s, sym (append-nil (laws.emitted out)))
  write_header_lem mode_columnar out s = laws.write out plan.columns_array_header s
  write_header_lem mode_toon out s = laws.write out plan.toon_header s

  write_footer_lem :
      (m : Mode) (out : S)
      → laws.Sound out
      → laws.Sound (write_footer w m out)
        × (laws.emitted (write_footer w m out) ≡ laws.emitted out ++ footer_text m)
  unfolding write_footer
  write_footer_lem mode_array out s = laws.write out (codes "]") s
  write_footer_lem mode_ndjson out s = (s, sym (append-nil (laws.emitted out)))
  write_footer_lem mode_columnar out s = laws.write out (codes "]}") s
  write_footer_lem mode_toon out s = (s, sym (append-nil (laws.emitted out)))

  opened :
      (h : Bool) (out : S)
      → laws.Sound out
      → let o = if h then out else write_header w mode plan out in
        laws.Sound o × (laws.emitted o ≡ laws.emitted out ++ opening h)
  opened true out s = (s, sym (append-nil (laws.emitted out)))
  opened false out s = write_header_lem mode out s

  -- A step that fails to flush, or that leaves `text` emitted.
  abbrev pub Emits : S × Option QueryError → Bytes → Type 0
  Emits r text =
      (Fails w × (r.1 ≡ some write_failed))
      ⊎ ((r.1 ≡ none) × laws.Sound r.0 × (laws.emitted r.0 ≡ text))

  write_error_lem :
      (step : S → S × Bool) (out : S)
      → Keeps laws.emitted laws.Sound step
      → ((s : S) → (step s).1 ≡ true → Fails w)
      → laws.Sound out
      → Emits (write_error w (step out)) (laws.emitted out)
  unfolding write_error
  write_error_lem step out keeps fails s = elim (Bool-cases ((step out).1)) [
    | inl bad ↦ inl (fails out bad, rw bad refl)
    | inr ok ↦ let (sound, same) = keeps out s ok in inr (rw ok refl, sound, same)
  ]

  write_row_step :
      (cells : List (Option Bytes)) (n : ℕ) (out : S)
      → IsRow plan.columns cells
      → write_row w mode plan (data_row cells) n out
        ≡ write_error w (
            w.maybe_flush
              (w.set_buf out (w.buf out ++ (separator mode n ++ row_text mode plan cells))))
  unfolding write_row
  write_row_step cells n out r =
      rw (append_row-data_row mode plan cells n (w.buf out) r, write_row) refl

  write_row_lem :
      (cells : List (Option Bytes)) (n : ℕ) (out : S)
      → IsRow plan.columns cells
      → laws.Sound out
      → Emits
          (write_row w mode plan (data_row cells) n out)
          (laws.emitted out ++ (separator mode n ++ row_text mode plan cells))
  write_row_lem cells n out r s =
      let text = separator mode n ++ row_text mode plan cells in
      let (sound, same) = laws.set_buf out text s in
      rw (write_row_step cells n out r, ← same)
        (write_error_lem w.maybe_flush (w.set_buf out (w.buf out ++ text)) laws.maybe_flush
          (λ s e. (s, inl e)) sound)

  -- The loop's variables once the plan is known.
  abbrev pub at_row : ℕ → Bool → Progress
  at_row n h = record { plan = some plan; row_count = n; header_written = h; pg_error = none }

  pub on_ready_lem :
      (n : ℕ) (h : Bool) (out : S)
      → laws.Sound out
      → Emits
          (on_ready w mode (at_row n h) out)
          (laws.emitted out ++ (opening h ++ footer_text mode))
  unfolding on_ready
  on_ready_lem n h out s =
      let (s₁, e₁) = opened h out s in
      let (s₂, e₂) = write_footer_lem mode _ s₁ in
      let e =
        e₂
        ∙ ap (λ (t : Bytes). t ++ footer_text mode) e₁
        ∙ append_assoc (laws.emitted out) (opening h) (footer_text mode) in
      rw (← e) (write_error_lem w.flush _ laws.flush (λ s e. (s, inr e)) s₂)

  write_error-some : (r : S × Bool) → r.1 ≡ true → (write_error w r).1 ≢ none
  unfolding write_error
  write_error-some r bad ok = let h = rw bad at ok in cc

  write_error-none : (r : S × Bool) → (write_error w r).1 ≡ none → r.1 ≡ false
  unfolding write_error
  write_error-none r ok = elim (Bool-cases (r.1)) [
    | inl bad ↦ absurd (write_error-some r bad ok)
    | inr fine ↦ fine
  ]

  pub on_ready_delivers :
      (n : ℕ) (h : Bool) (out : S)
      → (on_ready w mode (at_row n h) out).1 ≡ none
      → laws.Delivered (on_ready w mode (at_row n h) out).0
  unfolding on_ready write_error
  on_ready_delivers n h out ok =
      let o = write_footer w mode (if h then out else write_header w mode plan out) in
      laws.flush_delivers o (write_error-none (w.flush o) ok)

  -- A DataRow ends the response only where a flush fails.
  abbrev pub Continues : RowOutcome S → Bytes → Type 0
  Continues o text =
      (Fails w × (out : S) × (o ≡ stop out write_failed))
      ⊎ ((out : S) × (o ≡ carry_on out) × laws.Sound out × (laws.emitted out ≡ text))

  pub on_data_row_lem :
      (cells : List (Option Bytes)) (n : ℕ) (h : Bool) (out : S)
      → IsRow plan.columns cells
      → laws.Sound out
      → Continues
          (on_data_row w no_caps mode plan (at_row n h) (data_row cells) out)
          (laws.emitted out ++ (opening h ++ (separator mode n ++ row_text mode plan cells)))
  unfolding on_data_row check_caps
  on_data_row_lem cells n h out r s =
      let (s₁, e₁) = opened h out s in
      let text = separator mode n ++ row_text mode plan cells in
      let e : laws.emitted (if h then out else write_header w mode plan out) ++ text
          ≡ laws.emitted out ++ (opening h ++ text) =
        ap (λ (t : Bytes). t ++ text) e₁ ∙ append_assoc (laws.emitted out) (opening h) text in
      let end =
        (write_row w mode plan (data_row cells) n
          (if h then out else write_header w mode plan out)).0 in
      elim (write_row_lem cells n _ r s₁) [
        | inl (fails, bad) ↦ inl (fails, end, rw (bad, on_data_row) refl)
        | inr (ok, sound, same) ↦ inr (end, rw (ok, on_data_row) refl, sound, same ∙ e)
      ]

  pub consume_text-messages :
      (rows : List (List (Option Bytes))) (rest : List Message) (n : ℕ) (h : Bool) (out : S)
      → All (IsRow plan.columns) rows
      → laws.Sound out
      → Completes laws
          (consume_text w no_caps mode (messages rows rest) (at_row n h) out)
          (laws.emitted out ++ (opening h ++ (rows_text mode plan n rows ++ footer_text mode)))
          rest
  unfolding consume_text
  consume_text-messages [] rest n h out rs s = elim (on_ready_lem n h out s) [
    | inl bad ↦ inl bad
    | inr (ok, sound, same) ↦ inr (ok, same, on_ready_delivers n h out ok, refl)
  ]
  consume_text-messages (cells ∷ rows) rest n h out (r, rs) s =
      let text = separator mode n ++ row_text mode plan cells in
      let later = rows_text mode plan (suc n) rows in
      elim (on_data_row_lem cells n h out r s) [
        | inl (fails, out', stopped) ↦ inl (fails, rw (stopped, consume_text) refl)
        | inr (out', goes, sound, same) ↦
            let e : laws.emitted out' ++ (later ++ footer_text mode)
                ≡ laws.emitted out ++ (opening h ++ ((text ++ later) ++ footer_text mode)) =
              rw same (simp append_assoc) in
            rw (goes, consume_text, ← e)
              (consume_text-messages rows rest (suc n) true out' rs sound)
      ]
