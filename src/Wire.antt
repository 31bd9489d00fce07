-- ===== src/Wire.antt =====
-- Framing: internal/wire/conn.go. The connection under it is outside: what it has still to deliver is a
-- byte list, whose end is an error, and `bufio.Reader` hands these bytes on in order. The write buffer
-- is a byte list; Write's errors belong to `Flush` alone.
pub mod Frames
use pg2json.Common.{
  ℕ, ◌+◌, ◌-◌, ◌*◌, ◌/◌, ◌%◌, ◌^◌, Bool, true, false, [], ◌∷◌, ◌++◌, Bytes, length, get_or, take,
  drop, ltb, leb, ◌==◌, if◌then◌else◌,
}
use pg2json.Common.Int.{ℤ, to_word}
use pg2json.GoStd.{be32, put32}

-- `maxMsg`
abbrev pub max_msg : ℕ
max_msg = 2 ^ 28

pub data WireError : Type 0 where
  short_read : WireError
  bogus_length : ℕ → WireError
  message_too_large : ℕ → WireError

-- A message with its type byte, or an error; behind both, what the connection has still to deliver.
pub data Received : Type 0 where
  message : (kind : ℕ) (body rest : Bytes) → Received
  failed_read : WireError → Bytes → Received

-- `ReadMessage`, with the size of the buffer that decides between its two paths.
unfoldable pub read_message : ℕ → Bytes → Received
read_message br_size s =
    let size = be32 s 1 in
    let body_len = size - 4 in
    let total = 5 + body_len in
    if ltb (length s) 5
    then failed_read short_read s
    else if ltb size 4
    then failed_read (bogus_length size) s
    else if ltb max_msg body_len
    then failed_read (message_too_large body_len) s
    else if leb total br_size
    then (if ltb (length s) total
        then failed_read short_read s
        else message (get_or s 0 0) (drop 5 (take total s)) (drop total s))
    else if ltb (length (drop 5 s)) body_len
    then failed_read short_read []
    else message (get_or s 0 0) (take body_len (drop 5 s)) (drop body_len (drop 5 s))

-- `Builder`, apart from its connection.
pub record Builder : Type 0 where
  pub no_type : Bool
  pub start_off : ℕ

-- `Begin` and `BeginNoType` on the write buffer.
unfoldable pub begin : ℕ → Bytes → Builder × Bytes
begin kind buf =
    (record { no_type = false; start_off = length buf }, buf ++ kind ∷ 0 ∷ 0 ∷ 0 ∷ 0 ∷ [])

unfoldable pub begin_no_type : Bytes → Builder × Bytes
begin_no_type buf = (record { no_type = true; start_off = length buf }, buf ++ 0 ∷ 0 ∷ 0 ∷ 0 ∷ [])

-- `Byte`, `Bytes` and `String`, `CString`, `Int16` and `Int32`.
unfoldable pub add_byte : ℕ → Bytes → Bytes
add_byte v buf = buf ++ v ∷ []

unfoldable pub add_bytes : Bytes → Bytes → Bytes
add_bytes p buf = buf ++ p

unfoldable pub add_cstring : Bytes → Bytes → Bytes
add_cstring s buf = (buf ++ s) ++ 0 ∷ []

unfoldable pub add_int16 : ℤ → Bytes → Bytes
add_int16 v buf = let n = to_word (2 ^ 16) v in buf ++ n / 2 ^ 8 ∷ n % 2 ^ 8 ∷ []

unfoldable pub add_int32 : ℤ → Bytes → Bytes
add_int32 v buf = buf ++ put32 (to_word (2 ^ 32) v)

-- `Finish`: the length goes over the four bytes kept for it.
unfoldable pub finish : Builder → Bytes → Bytes
finish b buf =
    let start = b.start_off in
    if b.no_type
    then take start buf ++ (put32 (length buf - start) ++ drop (start + 4) buf)
    else take (start + 1) buf ++ (put32 (length buf - start - 1) ++ drop (start + 5) buf)

-- `Flush`, with whether the Write fails: the buffer is emptied in either case.
unfoldable pub flush : Bytes → Bool → Bytes × Bool
flush buf failing = if length buf == 0 then ([], false) else ([], failing)
