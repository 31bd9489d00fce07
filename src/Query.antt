-- ===== src/Query.antt =====
-- The query engine: pg2json/query.go from the first message of a response to the last. Sending, the
-- connection's deadlines and the observer are outside; the messages that the server sends are a list,
-- whose end is a failing read. Go's zero `nil` error is `none`.
pub mod Texts
pub mod Document
pub mod Results
pub mod Extended
pub mod Prepare
pub mod Execute
pub mod Run
pub mod Sound
pub mod Single
pub mod Attempts
pub mod Bound
use pg2json.Common.{
  ℕ, suc, ◌+◌, Bool, true, false, not, ◌&&◌, ◌||◌, ◌⊎◌, inl, inr, Option, none, some, List, [], ◌∷◌,
  ◌++◌, Bytes, codes, ltb, leb, ◌==◌, if◌then◌else◌,
}
use pg2json.Rows.{
  Plan, RowError, Appended, wrote, failed, closed, append_object, append_array, append_toon_row,
  parse_row_description,
}
use pg2json.Stream.{OutWriter}

-- `Mode`
pub data Mode : Type 0 where
  mode_array : Mode
  mode_ndjson : Mode
  mode_columnar : Mode
  mode_toon : Mode

-- The messages of a response to a simple query by their type bytes, with the bodies that are read.
pub data Message : Type 0 where
  msg_row_description : Bytes → Message
  msg_data_row : Bytes → Message
  msg_command_complete : Message
  msg_empty_query_response : Message
  msg_notice_response : Message
  msg_parameter_status : Message
  msg_error_response : Bytes → Message
  msg_ready_for_query : Message
  msg_other : Message

-- The errors that a query ends with. `too_large` is ResponseTooLargeError.
pub data QueryError : Type 0 where
  read_failed : QueryError
  write_failed : QueryError
  bad_rows : RowError → QueryError
  server_error : Bytes → QueryError
  too_large : (limit : Bytes) (limit_val observed : ℕ) (was_committed : Bool) → QueryError
  early_data_row : QueryError
  unexpected : QueryError

-- MaxResponseRows and MaxResponseBytes; 0 and below mean none.
pub record Caps : Type 0 where
  pub max_rows : ℕ
  pub max_bytes : ℕ

-- The variables of the loop.
pub record Progress : Type 0 where
  pub plan : Option Plan
  pub row_count : ℕ
  pub header_written : Bool
  pub pg_error : Option Bytes

-- What a query leaves: the writer, the error, `lastRows` where the code sets it, and the messages that
-- it has not read.
pub record Response (S : Type 0) : Type 0 where
  pub out : S
  pub result : Option QueryError
  pub last_rows : Option ℕ
  pub rest : List Message

-- What becomes of a DataRow: the loop goes on, ends with an error, or aborts an oversize response.
pub data RowOutcome (S : Type 0) : Type 0 where
  carry_on : S → RowOutcome S
  stop : S → QueryError → RowOutcome S
  oversize : S → QueryError → RowOutcome S

-- The draining loop of `abortOversize`.
unfoldable pub drain : List Message → List Message
drain [] = []
drain (msg_ready_for_query ∷ ms) = ms
drain (msg_row_description b ∷ ms) = drain ms
drain (msg_data_row b ∷ ms) = drain ms
drain (msg_command_complete ∷ ms) = drain ms
drain (msg_empty_query_response ∷ ms) = drain ms
drain (msg_notice_response ∷ ms) = drain ms
drain (msg_parameter_status ∷ ms) = drain ms
drain (msg_error_response b ∷ ms) = drain ms
drain (msg_other ∷ ms) = drain ms

unfoldable pub start : Progress
start = record { plan = none; row_count = 0; header_written = false; pg_error = none }

abbrev pub separated : ℕ → Bytes → Bytes
separated idx scratch = if ltb 0 idx then scratch ++ codes "," else scratch

-- What `writeRow` appends to its scratch buffer.
unfoldable pub append_row : Mode → Plan → Bytes → ℕ → Bytes → Appended
append_row mode_array plan body idx scratch = append_object (separated idx scratch) body plan
append_row mode_ndjson plan body idx scratch = closed (codes "\n") (append_object scratch body plan)
append_row mode_columnar plan body idx scratch = append_array (separated idx scratch) body plan
append_row mode_toon plan body idx scratch = append_toon_row scratch body plan

module _ {S : Type 0} (w : OutWriter S) where
  -- `checkCaps`
  unfoldable pub check_caps : Caps → S → ℕ → Option QueryError
  check_caps caps out row_count =
      if ltb 0 caps.max_rows && leb caps.max_rows row_count
      then some (too_large (codes "rows") caps.max_rows row_count (w.committed out))
      else if ltb 0 caps.max_bytes && leb caps.max_bytes (w.bytes_out out)
      then some (too_large (codes "bytes") caps.max_bytes (w.bytes_out out) (w.committed out))
      else none

  -- `writeHeader`; neither writer's Write fails.
  unfoldable pub write_header : Mode → Plan → S → S
  write_header mode_array plan out = w.write out (codes "[")
  write_header mode_ndjson plan out = out
  write_header mode_columnar plan out = w.write out plan.columns_array_header
  write_header mode_toon plan out = w.write out plan.toon_header

  -- `writeFooter`
  unfoldable pub write_footer : Mode → S → S
  write_footer mode_array out = w.write out (codes "]")
  write_footer mode_ndjson out = out
  write_footer mode_columnar out = w.write out (codes "]}")
  write_footer mode_toon out = out

  unfoldable pub write_error : S × Bool → S × Option QueryError
  write_error (out, failing) = (out, if failing then some write_failed else none)

  -- `writeRow`
  unfoldable pub write_row : Mode → Plan → Bytes → ℕ → S → S × Option QueryError
  write_row mode plan body idx out = elim (append_row mode plan body idx (w.buf out)) [
    | failed scratch e ↦ (out, some (bad_rows e))
    | wrote scratch ↦ write_error (w.maybe_flush (w.set_buf out scratch))
  ]

  -- The case of a DataRow, once there is a plan.
  unfoldable pub on_data_row : Caps → Mode → Plan → Progress → Bytes → S → RowOutcome S
  on_data_row caps mode plan p body out =
      let header = if p.header_written then out else write_header mode plan out in
      let (out', err) = write_row mode plan body p.row_count header in
      elim err [
        | some e ↦ stop out' e
        | none ↦ elim (check_caps caps out' (suc p.row_count)) [
          | some e ↦ oversize out' e
          | none ↦ carry_on out'
        ]
      ]

  unfoldable pub no_columns : Plan
  no_columns = record {
    columns = [];
    columns_array_header = codes "{\"columns\":[],\"rows\":[";
    toon_header = [];
  }

  -- The case of ReadyForQuery.
  unfoldable pub on_ready : Mode → Progress → S → S × Option QueryError
  on_ready mode p out = elim p.pg_error [
    | some body ↦ (out, some (server_error body))
    | none ↦
        let plan : Plan = elim p.plan [ some q ↦ q | none ↦ no_columns ] in
        let header = if p.header_written then out else write_header mode plan out in
        write_error (w.flush (write_footer mode header))
  ]

  -- `consumeText`
  unfoldable pub consume_text : Caps → Mode → List Message → Progress → S → Response S
  consume_text caps mode [] p out = record {
    out = out;
    result = some read_failed;
    last_rows = none;
    rest = [];
  }
  consume_text caps mode (msg_row_description body ∷ ms) p out = elim (parse_row_description body) [
    | inl e ↦ record { out = out; result = some (bad_rows e); last_rows = none; rest = ms }
    | inr q ↦ consume_text caps mode ms (record p { plan = some q }) out
  ]
  consume_text caps mode (msg_data_row body ∷ ms) p out = elim p.plan [
    | none ↦ record { out = out; result = some early_data_row; last_rows = none; rest = ms }
    | some q ↦ elim (on_data_row caps mode q p body out) [
      | stop out' e ↦ record { out = out'; result = some e; last_rows = none; rest = ms }
      | oversize out' e ↦ record {
        out = out';
        result = some e;
        last_rows = some (suc p.row_count);
        rest = drain ms;
      }
      | carry_on out' ↦
          consume_text caps mode ms
            (record p { row_count = suc p.row_count; header_written = true }) out'
    ]
  ]
  consume_text caps mode (msg_command_complete ∷ ms) p out = consume_text caps mode ms p out
  consume_text caps mode (msg_empty_query_response ∷ ms) p out = consume_text caps mode ms p out
  consume_text caps mode (msg_notice_response ∷ ms) p out = consume_text caps mode ms p out
  consume_text caps mode (msg_parameter_status ∷ ms) p out = consume_text caps mode ms p out
  consume_text caps mode (msg_error_response body ∷ ms) p out =
      consume_text caps mode ms (record p { pg_error = some body }) out
  consume_text caps mode (msg_ready_for_query ∷ ms) p out =
      let end = on_ready mode p out in
      record { out = end.0; result = end.1; last_rows = some p.row_count; rest = ms }
  consume_text caps mode (msg_other ∷ ms) p out = record {
    out = out;
    result = some unexpected;
    last_rows = none;
    rest = ms;
  }
