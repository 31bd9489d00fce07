-- ===== src/Conn.antt =====
-- Setting up a connection: pg2json/conn.go. Dialling, TLS handshakes and deadlines are outside. The
-- server's messages are a list; the parameters of the session, whose map nothing here reads, are left
-- out but for `splitParameter`.
pub mod Startup
use pg2json.Common.{
  ℕ, zero, suc, ◌+◌, ◌*◌, ◌^◌, Bool, true, false, not, ◌&&◌, ◌||◌, Option, none, some, ◌⊎◌, inl,
  inr, List, [], ◌∷◌, ◌++◌, Bytes, codes, length, take, drop, get_or, ltb, leb, ◌==◌, if◌then◌else◌,
}
use pg2json.Common.Int.{ℤ, pos, signed32}
use pg2json.GoStd.{be32, put32}
use pg2json.Rows.{split_zero}
use pg2json.Wire.{begin, begin_no_type, add_byte, add_bytes, add_cstring, add_int32, finish}
use pg2json.Auth.{
  Crypto, Scram, AuthError, has_prefix, pick_mechanism, mechanism, new_scram, client_first,
  client_final, verify, md5_password,
}

-- `splitParameter`: a name and a value, each ended by a NUL.
unfoldable pub split_parameter : Bytes → Bytes × Bytes
split_parameter b = elim (split_zero b) [
  | none ↦ ([], [])
  | some (name, rest) ↦ elim (split_zero rest) [
    | none ↦ (name, [])
    | some (value, more) ↦ (name, value)
  ]
]

-- `strings.TrimLeftFunc` with the four blanks.
abbrev pub is_blank : ℕ → Bool
is_blank c = c == 32 || (c == 9 || (c == 10 || c == 13))

unfoldable pub trim_left : Bytes → Bytes
trim_left [] = []
trim_left (c ∷ s) = if is_blank c then trim_left s else c ∷ s

-- What is behind the next newline, and behind the next `*/`.
unfoldable pub after_newline : Bytes → Option Bytes
after_newline [] = none
after_newline (c ∷ s) = if c == 10 then some s else after_newline s

unfoldable pub after_close : Bytes → Option Bytes
after_close [] = none
after_close (c ∷ s) =
    if c == b'*' && has_prefix s (codes "/") then some (drop 1 s) else after_close s

-- The loops over comments, on fuel: a round consumes two bytes at least.
unfoldable pub skip_line_comments : ℕ → Bytes → Bytes
skip_line_comments zero s = s
skip_line_comments (suc fuel) s =
    let rest : Bytes = elim (after_newline s) [
      | none ↦ []
      | some t ↦ skip_line_comments fuel (trim_left t)
    ] in
    if has_prefix s (codes "--") then rest else s

unfoldable pub skip_block_comments : ℕ → Bytes → Bytes
skip_block_comments zero s = s
skip_block_comments (suc fuel) s =
    let rest : Bytes = elim (after_close s) [
      | none ↦ []
      | some t ↦ skip_block_comments fuel (trim_left t)
    ] in
    if has_prefix s (codes "/*") then rest else s

-- What `rejectNonSelect` looks at.
unfoldable pub statement_start : Bytes → Bytes
statement_start sql =
    let s = skip_line_comments (length sql) (trim_left sql) in skip_block_comments (length s) s

-- `rejectNonSelect`, with `strings.ToUpper`: whether the query is let through.
unfoldable pub is_select : (Bytes → Bytes) → Bytes → Bool
is_select to_upper sql =
    let upper = to_upper (statement_start sql) in
    has_prefix upper (codes "SELECT")
    || (has_prefix upper (codes "WITH")
        || (has_prefix upper (codes "VALUES")
            || (has_prefix upper (codes "TABLE") || has_prefix upper (codes "SHOW"))))

-- `SSLMode`, from the weakest to the strongest.
pub data SslMode : Type 0 where
  ssl_disable : SslMode
  ssl_prefer : SslMode
  ssl_require : SslMode
  ssl_verify_ca : SslMode
  ssl_verify_full : SslMode

abbrev pub requires_tls : SslMode → Bool
requires_tls ssl_disable = false
requires_tls ssl_prefer = false
requires_tls ssl_require = true
requires_tls ssl_verify_ca = true
requires_tls ssl_verify_full = true

-- What `maybeNegotiateTLS` does with the server's answer to SSLRequest: none if there is no byte, and
-- whether the handshake succeeds.
pub data TlsOutcome : Type 0 where
  plain_text : TlsOutcome
  over_tls : TlsOutcome
  tls_failed : TlsOutcome

unfoldable pub negotiate_tls : SslMode → Option ℕ → Bool → TlsOutcome
negotiate_tls ssl_disable reply handshake = plain_text
negotiate_tls mode none handshake = tls_failed
negotiate_tls mode (some reply) handshake =
    if reply == b'S'
    then (if handshake then over_tls else tls_failed)
    else if reply == b'N'
    then (if requires_tls mode then tls_failed else plain_text)
    else tls_failed

-- The message of SSLRequest.
unfoldable pub ssl_request : Bytes
ssl_request = let (b, buf) = begin_no_type [] in finish b (add_int32 (pos 80877103) buf)

-- What `SendCancel` writes, if there is a process number.
unfoldable pub cancel_request : ℕ → ℕ → Option Bytes
cancel_request pid key =
    if pid == 0 then none else some (put32 16 ++ (put32 80877102 ++ (put32 pid ++ put32 key)))

-- The configuration that the startup uses; the runtime parameters in the order in which the map's
-- iteration gives them.
pub record Login : Type 0 where
  pub user : Bytes
  pub password : Bytes
  pub database : Bytes
  pub application_name : Bytes
  pub runtime_params : List (Bytes × Bytes)

unfoldable pub add_params : List (Bytes × Bytes) → Bytes → Bytes
add_params [] buf = buf
add_params ((k, v) ∷ kvs) buf = add_params kvs (add_cstring v (add_cstring k buf))

-- The startup message of `startup`.
unfoldable pub startup_message : Login → Bytes
startup_message l =
    let (b, buf) = begin_no_type [] in
    let user = add_cstring l.user (add_cstring (codes "user") (add_int32 (pos (3 * 2 ^ 16)) buf)) in
    let database =
      if length l.database == 0
      then user
      else add_cstring l.database (add_cstring (codes "database") user) in
    let name = add_cstring l.application_name (add_cstring (codes "application_name") database) in
    let encoding = add_cstring (codes "UTF8") (add_cstring (codes "client_encoding") name) in
    finish b (add_byte 0 (add_params l.runtime_params encoding))

pub data ConnError : Type 0 where
  read_error : ConnError
  send_error : ConnError
  short_auth : ConnError
  short_salt : ConnError
  auth_error : AuthError → ConnError
  no_exchange : ConnError
  unknown_auth : ConnError
  server_error : Bytes → ConnError
  unexpected_message : ConnError

-- What an Authentication message leads to: an answer or an error, and the exchange.
abbrev pub Handled : Type 0
Handled = (ConnError ⊎ Option Bytes) × Option Scram

unfoldable pub password_message : Bytes → Bytes
password_message text = let (b, buf) = begin b'p' [] in finish b (add_cstring text buf)

-- The client's first message of SASL.
unfoldable pub sasl_first : Bytes → Bytes
sasl_first first =
    let (b, buf) = begin b'p' [] in
    finish b (add_bytes first (add_int32 (pos (length first)) (add_cstring mechanism buf)))

unfoldable pub sasl_final : Bytes → Bytes
sasl_final final = let (b, buf) = begin b'p' [] in finish b (add_bytes final buf)

-- `handleAuth`; `nonce` is what crypto/rand gives.
unfoldable pub handle_auth : Crypto → Login → Bytes → Bytes → Option Scram → Handled
handle_auth h l nonce body scram =
    let code = be32 body 0 in
    let more = drop 4 body in
    if ltb (length body) 4
    then (inl short_auth, scram)
    else if code == 0
    then (inr none, scram)
    else if code == 3
    then (inr (some (password_message l.password)), scram)
    else if code == 5
    then (if ltb (length body) 8 then (inl short_salt, scram) else (
      inr (some (password_message (md5_password h l.user l.password (take 4 more)))),
      scram,
    ))
    else if code == 10
    then (elim (pick_mechanism more) [
      | some e ↦ (inl (auth_error e), scram)
      | none ↦
          let (first, s) = client_first (new_scram h l.password nonce) in
          (inr (some (sasl_first first)), some s)
    ])
    else if code == 11
    then (elim scram [
      | none ↦ (inl no_exchange, none)
      | some s ↦
          let (r, s') = client_final h more s in
          (
            elim r [ inl e ↦ inl (auth_error e) | inr final ↦ inr (some (sasl_final final)) ],
            some s',
          )
    ])
    else if code == 12
    then (elim scram [
      | none ↦ (inl no_exchange, none)
      | some s ↦ (elim (verify h more s) [ none ↦ inr none | some e ↦ inl (auth_error e) ], some s)
    ])
    else (inl unknown_auth, scram)

-- The messages of the startup by their type bytes, with the bodies that are read.
pub data StartMessage : Type 0 where
  start_auth : Bytes → StartMessage
  start_parameter : StartMessage
  start_key : Bytes → StartMessage
  start_ready : StartMessage
  start_error : Bytes → StartMessage
  start_notice : StartMessage
  start_negotiate : StartMessage
  start_other : StartMessage

-- What the startup changes: the exchange, process number and key, and what was sent in how many
-- messages.
pub record Starting : Type 0 where
  pub scram : Option Scram
  pub pid : ℤ
  pub key : ℤ
  pub answers : List Bytes

-- The answer of an Authentication message is sent; `link` says which Send fails.
unfoldable pub answer : (ℕ → Bool) → Handled → Starting → Option ConnError × Starting
answer link (inl e, scram) c = (some e, record c { scram = scram })
answer link (inr none, scram) c = (none, record c { scram = scram })
answer link (inr (some text), scram) c =
    if link (length c.answers)
    then (some send_error, record c { scram = scram })
    else (none, record c { scram = scram; answers = c.answers ++ text ∷ [] })

unfoldable pub keep_key : Bytes → Starting → Starting
keep_key body c =
    if leb 8 (length body)
    then record c { pid = signed32 (be32 body 0); key = signed32 (be32 body 4) }
    else c

-- The loop of `startup`.
unfoldable pub startup_loop :
    Crypto → Login → Bytes → (ℕ → Bool) → List StartMessage → Starting → Option ConnError × Starting
startup_loop h l nonce link [] c = (some read_error, c)
startup_loop h l nonce link (start_auth body ∷ ms) c =
    let (e, c') = answer link (handle_auth h l nonce body c.scram) c in
    let rest = startup_loop h l nonce link ms c' in elim e [ some x ↦ (some x, c') | none ↦ rest ]
startup_loop h l nonce link (start_parameter ∷ ms) c = startup_loop h l nonce link ms c
startup_loop h l nonce link (start_key body ∷ ms) c =
    startup_loop h l nonce link ms (keep_key body c)
startup_loop h l nonce link (start_ready ∷ ms) c = (none, c)
startup_loop h l nonce link (start_error body ∷ ms) c = (some (server_error body), c)
startup_loop h l nonce link (start_notice ∷ ms) c = startup_loop h l nonce link ms c
startup_loop h l nonce link (start_negotiate ∷ ms) c = startup_loop h l nonce link ms c
startup_loop h l nonce link (start_other ∷ ms) c = (some unexpected_message, c)

-- A fresh client.
abbrev pub unstarted : Starting
unstarted = record { scram = none; pid = pos 0; key = pos 0; answers = [] }
