-- ===== src/Examples/Protocols.antt =====
-- Examples for the wire, the server's errors and the statement cache.
use pg2json.Common.{ℕ, ◌≡◌, List, [], ◌∷◌, ◌++◌, arith, Bytes, codes}
use pg2json.Wire.{read_message, message, begin, add_bytes, finish}
use pg2json.Wire.Frames.{frame, finish-begin, read_message-frame}
use pg2json.PgErr.{parse}
use pg2json.PgErr.Fields.{server_error_fields, last_text, latest_first, parse-server_error_fields}
use pg2json.StmtCache.{PreparedStmt, StmtCache}

finish-begin_example :
    let (b, opened) = begin b'Q' (codes "S....") in
    finish b (add_bytes (codes "select 1") opened) ≡ codes "S...." ++ frame b'Q' (codes "select 1")
finish-begin_example = finish-begin b'Q' (codes "S....") (codes "select 1")

read_message-frame_example :
    read_message 8 (frame b'D' (codes "body") ++ codes "rest")
    ≡ message b'D' (codes "body") (codes "rest")
read_message-frame_example = read_message-frame 8 b'D' (codes "body") (codes "rest") (omega arith)

abbrev error_fields : List (ℕ × Bytes)
error_fields = (b'S', codes "ERROR") ∷ (b'C', codes "26000") ∷ []

parse-server_error_fields_example :
    parse (server_error_fields error_fields ++ 0 ∷ codes "x") ≡ record {
      severity = codes "ERROR";
      code = codes "26000";
      msg = [];
      detail = [];
      hint = [];
      whence = [];
      fields = (b'C', codes "26000") ∷ (b'S', codes "ERROR") ∷ [];
    }
unfolding last_text latest_first
parse-server_error_fields_example =
    parse-server_error_fields error_fields (codes "x") (ground arith)

abbrev stmt : PreparedStmt
stmt = record {
  name = codes "s_1";
  plan = record { columns = []; columns_array_header = []; toon_header = [] };
  result_fmts = [];
}

-- A full cache of one statement.
abbrev cache : StmtCache
cache = record { max = 1; by_key = (codes "select 1", stmt) ∷ []; closed = []; seq = 1 }
