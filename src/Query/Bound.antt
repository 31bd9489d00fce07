-- ===== src/Query/Bound.antt =====
-- What `bindExecute` of pg2json/query.go emits for a whole response to Bind and Execute.
use pg2json.Common.{
  ℕ, suc, ◌≡◌, ◌⊎◌, inl, inr, refl, Bool, true, false, Option, none, some, List, [], ◌∷◌, ◌++◌,
  append_assoc, Bytes, All,
}
use pg2json.Stream.{OutWriter}
use pg2json.Stream.Laws.{IsWriter}
use pg2json.Rows.{Plan}
use pg2json.Rows.Server.{data_row}
use pg2json.Rows.Output.{IsRow}
use pg2json.Rows.Describe.{Field}
use pg2json.Rows.Formatted.{IsResultRow, formatted, formatted-rows}
use pg2json.Query.{Mode, msg_data_row, msg_command_complete, msg_ready_for_query, write_failed}
use pg2json.Query.Texts.{row_text, separator, rows_text, footer_text, document}
use pg2json.Query.Document.{
  Fails, no_caps, opening, at_row, on_data_row_lem, on_ready_lem, on_ready_delivers,
}
use pg2json.Query.Extended.{Reply, simple, rep_bind_complete, Outside, in_query}
use pg2json.Query.Execute.{Executed, consume_rows, start_with}

-- The rows as the server sends them, and what ends the response.
abbrev pub replies : List (List (Option Bytes)) → List Reply → List Reply
replies [] rest = simple msg_command_complete ∷ simple msg_ready_for_query ∷ rest
replies (cells ∷ rows) rest = simple (msg_data_row (data_row cells)) ∷ replies rows rest

-- The execution ends, without an error unless a flush fails, with `text` emitted and nothing read
-- beyond it.
abbrev pub Finishes :
    {S : Type 0} {w : OutWriter S} → IsWriter w → Executed S → Bytes → List Reply → Type 0
Finishes {w = w} laws r text rest =
    (Fails w × (r.result ≡ some (in_query write_failed)))
    ⊎ ((r.result ≡ none) × (laws.emitted r.out ≡ text) × laws.Delivered r.out × (r.rest ≡ rest))

module _ (env : Outside) {S : Type 0} (w : OutWriter S) (laws : IsWriter w) (mode : Mode)
    (plan : Plan) (fmts : List ℕ) where
  consume_rows-replies :
      (rows : List (List (Option Bytes))) (rest : List Reply) (n : ℕ) (h : Bool) (out : S)
      → All (IsRow plan.columns) rows
      → laws.Sound out
      → Finishes laws
          (consume_rows env w no_caps mode fmts
            (replies rows rest)
            plan
            (at_row w laws mode plan n h)
            out)
          (laws.emitted out
            ++ (opening w laws mode plan h ++ (rows_text mode plan n rows ++ footer_text mode)))
          rest
  unfolding consume_rows
  consume_rows-replies [] rest n h out rs s = elim (on_ready_lem w laws mode plan n h out s) [
    | inl (fails, bad) ↦ inl (fails, rw bad refl)
    | inr (ok, sound, same) ↦
        inr (rw ok refl, same, on_ready_delivers w laws mode plan n h out ok, refl)
  ]
  consume_rows-replies (cells ∷ rows) rest n h out (r, rs) s =
      let text = separator mode n ++ row_text mode plan cells in
      let later = rows_text mode plan (suc n) rows in
      elim (on_data_row_lem w laws mode plan cells n h out r s) [
        | inl (fails, out', stopped) ↦ inl (fails, rw (stopped, consume_rows) refl)
        | inr (out', goes, sound, same) ↦
            let e : laws.emitted out' ++ (later ++ footer_text mode)
                ≡ laws.emitted out
                  ++ (opening w laws mode plan h ++ ((text ++ later) ++ footer_text mode)) =
              rw same (simp append_assoc) in
            rw (goes, consume_rows, ← e) (consume_rows-replies rows rest (suc n) true out' rs sound)
      ]

  consume_rows-all :
      (rows : List (List (Option Bytes))) (rest : List Reply) (out : S)
      → All (IsRow plan.columns) rows
      → laws.Sound out
      → Finishes laws
          (consume_rows env w no_caps mode fmts
            (rep_bind_complete ∷ replies rows rest)
            plan
            (start_with plan)
            out)
          (laws.emitted out ++ document mode plan rows)
          rest
  unfolding consume_rows start_with
  consume_rows-all rows rest out rs s = consume_rows-replies rows rest 0 false out rs s

-- With no caps, on any output writer that keeps the contract, in every mode: for the plan that a
-- server's RowDescription gives with any result formats, text or binary, and rows of a cell for each
-- field, the reply loop of `bindExecute` emits the header, the rows and the footer and reads
-- nothing behind ReadyForQuery, unless the writer fails to flush, and then it returns that error.
pub consume_rows-document :
    (env : Outside) {S : Type 0} (w : OutWriter S) (laws : IsWriter w) (mode : Mode)
    (fs : List Field) (fmts : List ℕ) (rows : List (List (Option Bytes))) (rest : List Reply)
    (out : S)
    → All (IsResultRow fs) rows
    → laws.Sound out
    → let plan = formatted env.print fmts fs in
      Finishes laws
        (consume_rows env w no_caps mode fmts
          (rep_bind_complete ∷ replies rows rest)
          plan
          (start_with plan)
          out)
        (laws.emitted out ++ document mode plan rows)
        rest
consume_rows-document env w laws mode fs fmts rows rest out rs s =
    consume_rows-all env w laws mode (formatted env.print fmts fs) fmts rows rest out
      (formatted-rows env.print fmts fs rows rs) s
