-- ===== src/Query/Extended.antt =====
-- What the extended protocol of pg2json/query.go consists of: the messages, over a connection whose
-- server's messages are a list, and the errors. `link` says which Flush of the connection fails.
use pg2json.Common.{
  ℕ, Bool, true, false, ◌&&◌, ◌||◌, List, [], ◌∷◌, Bytes, codes, ◌==◌, if◌then◌else◌,
}
use pg2json.Common.Int.{pos}
use pg2json.Wire.{begin, add_byte, add_cstring, add_int16, add_int32, finish}
use pg2json.Rows.{Column}
use pg2json.Types.Binary.{FloatPrinter}
use pg2json.StmtCache.{StmtCache, same_text}
use pg2json.PgErr.{parse}
use pg2json.Query.{
  Message, msg_row_description, msg_data_row, msg_command_complete, msg_empty_query_response,
  msg_notice_response, msg_parameter_status, msg_error_response, msg_ready_for_query, msg_other,
  QueryError, read_failed, write_failed, bad_rows, server_error, too_large, early_data_row,
  unexpected,
}

-- The messages of the extended protocol: those of the simple one, of which `msg_other` is now none of
-- the others.
pub data Reply : Type 0 where
  simple : Message → Reply
  rep_parse_complete : Reply
  rep_parameter_description : Reply
  rep_bind_complete : Reply
  rep_close_complete : Reply
  rep_no_data : Reply
  rep_portal_suspended : Reply

-- What lies outside: strconv's printers of floats and of base 36, the entry that the iteration of a
-- map meets first, which Flush of the connection fails, and the configuration's BinaryOIDs.
pub record Outside : Type 0 where
  pub print : FloatPrinter
  pub format32 : ℕ → Bytes
  pub format64 : ℕ → Bytes
  pub base36 : ℕ → Bytes
  pub victim : ℕ → ℕ
  pub link : ℕ → Bool
  pub binary_oids : List ℕ

-- A client's connection and statements: the write buffer, what was sent in how many Flushes, the
-- messages still to read, and `lastRows`.
pub record Session : Type 0 where
  pub cache : StmtCache
  pub write_buf : Bytes
  pub sent : Bytes
  pub flushes : ℕ
  pub inbox : List Reply
  pub last_rows : ℕ

-- The errors of a run.
pub data RunError : Type 0 where
  in_query : QueryError → RunError
  bad_parameter : RunError
  no_row_description : RunError
  not_a_select : RunError
  context_done : RunError

-- The draining loop of `abortOversize`.
unfoldable pub drain_replies : List Reply → List Reply
drain_replies [] = []
drain_replies (simple msg_ready_for_query ∷ ms) = ms
drain_replies (simple (msg_row_description b) ∷ ms) = drain_replies ms
drain_replies (simple (msg_data_row b) ∷ ms) = drain_replies ms
drain_replies (simple msg_command_complete ∷ ms) = drain_replies ms
drain_replies (simple msg_empty_query_response ∷ ms) = drain_replies ms
drain_replies (simple msg_notice_response ∷ ms) = drain_replies ms
drain_replies (simple msg_parameter_status ∷ ms) = drain_replies ms
drain_replies (simple (msg_error_response b) ∷ ms) = drain_replies ms
drain_replies (simple msg_other ∷ ms) = drain_replies ms
drain_replies (rep_parse_complete ∷ ms) = drain_replies ms
drain_replies (rep_parameter_description ∷ ms) = drain_replies ms
drain_replies (rep_bind_complete ∷ ms) = drain_replies ms
drain_replies (rep_close_complete ∷ ms) = drain_replies ms
drain_replies (rep_no_data ∷ ms) = drain_replies ms
drain_replies (rep_portal_suspended ∷ ms) = drain_replies ms

-- `allBinary`
unfoldable pub every_one : List ℕ → Bool
every_one [] = true
every_one (f ∷ fs) = f == 1 && every_one fs

unfoldable pub all_binary : List ℕ → Bool
all_binary [] = false
all_binary (f ∷ fs) = every_one (f ∷ fs)

-- The format codes that `bindExecute` puts into Bind.
unfoldable pub bind_formats : List ℕ → List ℕ
bind_formats fs = if all_binary fs then 1 ∷ [] else fs

unfoldable pub add_formats : List ℕ → Bytes → Bytes
add_formats [] buf = buf
add_formats (f ∷ fs) buf = add_formats fs (add_int16 (pos f) buf)

-- `isRetryableSerialization` and `isStaleStmtError`: an error of the server with one of these codes.
unfoldable pub has_code : Bytes → RunError → Bool
has_code code (in_query (server_error body)) = same_text ((parse body).code) code
has_code code (in_query read_failed) = false
has_code code (in_query write_failed) = false
has_code code (in_query (bad_rows e)) = false
has_code code (in_query (too_large l v o c)) = false
has_code code (in_query early_data_row) = false
has_code code (in_query unexpected) = false
has_code code bad_parameter = false
has_code code no_row_description = false
has_code code not_a_select = false
has_code code context_done = false

unfoldable pub is_retryable_serialization : RunError → Bool
is_retryable_serialization e = has_code (codes "40001") e || has_code (codes "40P01") e

unfoldable pub is_stale_stmt_error : RunError → Bool
is_stale_stmt_error e = has_code (codes "26000") e

-- The two messages that Parse, and a Close, ask for a statement's name with.
unfoldable pub add_named : ℕ → Bytes → Bytes → Bytes
add_named kind name buf =
    let (b, buf') = begin kind buf in finish b (add_cstring name (add_byte b'S' buf'))

unfoldable pub add_closes : List Bytes → Bytes → Bytes
add_closes [] buf = buf
add_closes (dead ∷ names) buf = add_closes names (add_named b'C' dead buf)

unfoldable pub add_parse : Bytes → Bytes → Bytes → Bytes
add_parse name sql buf =
    let (b, buf') = begin b'P' buf in
    finish b (add_int16 (pos 0) (add_cstring sql (add_cstring name buf')))

unfoldable pub add_sync : Bytes → Bytes
add_sync buf = let (b, buf') = begin b'S' buf in finish b buf'

unfoldable pub add_execute : Bytes → Bytes
add_execute buf =
    let (b, buf') = begin b'E' buf in finish b (add_int32 (pos 0) (add_cstring [] buf'))

-- `BinaryOIDs` applied to the formats.
unfoldable pub member : ℕ → List ℕ → Bool
member oid [] = false
member oid (o ∷ os) = o == oid || member oid os

unfoldable pub upgrade : List ℕ → List Column → List ℕ → List ℕ
upgrade oids (c ∷ cols) (f ∷ fs) = (if member c.type_oid oids then 1 else f) ∷ upgrade oids cols fs
upgrade oids [] fs = fs
upgrade oids (c ∷ cols) [] = []
