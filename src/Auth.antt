-- ===== src/Auth.antt =====
-- Authentication: internal/auth/scram.go and internal/auth/md5.go. The hash functions, base64 and
-- strconv.Atoi are parameters; the client's nonce, which comes from crypto/rand, is an argument.
pub mod Salted
pub mod Exchange
use Prim.Native.Nat.{bit_xor}
use pg2json.Common.{
  ℕ, zero, suc, ◌+◌, ◌-◌, ◌*◌, ◌/◌, ◌%◌, Bool, true, false, not, ◌&&◌, ◌||◌, Option, none, some,
  List, [], ◌∷◌, ◌++◌, Bytes, codes, length, take, drop, get_or, ltb, ◌⊎◌, inl, inr, ◌==◌,
  if◌then◌else◌,
}
use pg2json.Common.Int.{ℤ, pos, negsuc, int_below}
use pg2json.GoStd.{put32}
use pg2json.JsonWriter.{hex_digit}
use pg2json.StmtCache.{same_text}
use pg2json.Args.{hex_text}

-- SHA-256, HMAC-SHA-256 with its key first, MD5, `base64.StdEncoding` and `strconv.Atoi`.
pub record Crypto : Type 0 where
  pub sha256 : Bytes → Bytes
  pub hmac : Bytes → Bytes → Bytes
  pub md5 : Bytes → Bytes
  pub encode64 : Bytes → Bytes
  pub decode64 : Bytes → Option Bytes
  pub atoi : Bytes → Option ℤ

-- `sha256.Size`
abbrev pub hash_size : ℕ
hash_size = 32

-- `SCRAM`
pub record Scram : Type 0 where
  pub password : Bytes
  pub client_non : Bytes
  pub client_first_bare : Bytes
  pub server_first : Bytes
  pub server_sig : Bytes

pub data AuthError : Type 0 where
  no_mechanism : AuthError
  bad_iterations : AuthError
  malformed_first : AuthError
  foreign_nonce : AuthError
  bad_salt : AuthError
  bad_signature : AuthError
  signature_mismatch : AuthError
  server_refused : Bytes → AuthError
  no_signature : AuthError

unfoldable pub has_prefix : Bytes → Bytes → Bool
has_prefix s [] = true
has_prefix [] (p ∷ ps) = false
has_prefix (c ∷ s) (p ∷ ps) = c == p && has_prefix s ps

-- `splitNulList`, with the bytes since the last NUL in reverse.
unfoldable pub reversed : Bytes → Bytes → Bytes
reversed [] t = t
reversed (c ∷ s) t = reversed s (c ∷ t)

unfoldable pub split_nul_list : Bytes → Bytes → List Bytes
split_nul_list [] part = []
split_nul_list (c ∷ b) part =
    let rest = split_nul_list b (if c == 0 then [] else c ∷ part) in
    if c == 0 && not (length part == 0) then reversed part [] ∷ rest else rest

abbrev pub mechanism : Bytes
mechanism = codes "SCRAM-SHA-256"

unfoldable pub offers : List Bytes → Bool
offers [] = false
offers (m ∷ ms) = same_text m mechanism || offers ms

-- `PickMechanism`; it picks the one mechanism that is supported.
unfoldable pub pick_mechanism : Bytes → Option AuthError
pick_mechanism body = if offers (split_nul_list body []) then none else some no_mechanism

-- `NewSCRAM` with its nonce, in base64.
unfoldable pub new_scram : Crypto → Bytes → Bytes → Scram
new_scram h password nonce = record {
  password = password;
  client_non = h.encode64 nonce;
  client_first_bare = [];
  server_first = [];
  server_sig = [];
}

-- `ClientFirst`
unfoldable pub client_first : Scram → Bytes × Scram
client_first s =
    let bare = codes "n=,r=" ++ s.client_non in
    (codes "n,," ++ bare, record s { client_first_bare = bare })

-- `strings.Split(s, ",")`
unfoldable pub split_commas : Bytes → List Bytes
split_commas [] = [] ∷ []
split_commas (c ∷ s) = elim (split_commas s) [
  | [] ↦ (c ∷ []) ∷ []
  | part ∷ parts ↦ if c == b',' then [] ∷ part ∷ parts else (c ∷ part) ∷ parts
]

-- What `parseServerFirst` has found so far: nonce, salt and iterations.
pub record ServerFirst : Type 0 where
  pub nonce : Bytes
  pub salt : Bytes
  pub iter : ℤ

-- An attribute is a letter, `=` and a value; others are passed over.
unfoldable pub first_loop : Crypto → List Bytes → ServerFirst → Option ServerFirst
first_loop h [] f = some f
first_loop h (kv ∷ kvs) f =
    let value = drop 2 kv in
    let next : Option ServerFirst =
      if ltb (length kv) 2 || not (get_or kv 1 0 == b'=')
      then some f
      else if get_or kv 0 0 == b'r'
      then some (record f { nonce = value })
      else if get_or kv 0 0 == b's'
      then some (record f { salt = value })
      else if get_or kv 0 0 == b'i'
      then (elim (h.atoi value) [ some n ↦ some (record f { iter = n }) | none ↦ none ])
      else some f in
    elim next [ none ↦ none | some f' ↦ first_loop h kvs f' ]

-- `parseServerFirst`
unfoldable pub parse_server_first : Crypto → Bytes → AuthError ⊎ ServerFirst
parse_server_first h s =
    elim (first_loop h (split_commas s) (record { nonce = []; salt = []; iter = pos 0 })) [
      | none ↦ inl bad_iterations
      | some f ↦
          if length f.nonce == 0 || (length f.salt == 0 || not (int_below (pos 0) f.iter))
          then inl malformed_first
          else inr f
    ]

-- `xorBytes`, which panics on a second slice that is shorter; here that one is padded. Its calls have
-- two hashes.
unfoldable pub xor_bytes : Bytes → Bytes → Bytes
xor_bytes [] ys = []
xor_bytes (a ∷ xs) [] = bit_xor a 0 ∷ xor_bytes xs []
xor_bytes (a ∷ xs) (b ∷ ys) = bit_xor a b ∷ xor_bytes xs ys

-- The rounds of a block of `pbkdf2HMACSHA256` after the first: `u` is hashed again and joined to `t`.
unfoldable pub pbkdf2_rounds : Crypto → Bytes → ℕ → Bytes → Bytes → Bytes
pbkdf2_rounds h password zero u t = t
pbkdf2_rounds h password (suc n) u t =
    let u' = h.hmac password u in pbkdf2_rounds h password n u' (xor_bytes t u')

unfoldable pub pbkdf2_block : Crypto → Bytes → Bytes → ℕ → ℕ → Bytes
pbkdf2_block h password salt iter block =
    let u = h.hmac password (salt ++ put32 block) in pbkdf2_rounds h password (iter - 1) u u

-- Its blocks from `block` on, `n` of them.
unfoldable pub pbkdf2_blocks : Crypto → Bytes → Bytes → ℕ → ℕ → ℕ → Bytes
pbkdf2_blocks h password salt iter zero block = []
pbkdf2_blocks h password salt iter (suc n) block =
    pbkdf2_block h password salt iter block ++ pbkdf2_blocks h password salt iter n (suc block)

-- `pbkdf2HMACSHA256`
unfoldable pub pbkdf2 : Crypto → Bytes → Bytes → ℕ → ℕ → Bytes
pbkdf2 h password salt iter key_len =
    take key_len (pbkdf2_blocks h password salt iter ((key_len + hash_size - 1) / hash_size) 1)

abbrev pub no_proof : Bytes → Bytes
no_proof nonce = codes "c=biws,r=" ++ nonce

-- The end of `ClientFinal`, from the salted password on.
unfoldable pub client_proof : Crypto → Scram → Bytes → Bytes → Bytes × Scram
client_proof h s nonce salted =
    let client_key = h.hmac salted (codes "Client Key") in
    let stored_key = h.sha256 client_key in
    let auth_msg =
      s.client_first_bare ++ (codes "," ++ (s.server_first ++ (codes "," ++ no_proof nonce))) in
    let client_sig = h.hmac stored_key auth_msg in
    let server_key = h.hmac salted (codes "Server Key") in
    (
      no_proof nonce ++ (codes ",p=" ++ h.encode64 (xor_bytes client_key client_sig)),
      record s { server_sig = h.hmac server_key auth_msg },
    )

-- `ClientFinal`
unfoldable pub client_final : Crypto → Bytes → Scram → (AuthError ⊎ Bytes) × Scram
client_final h first s₀ =
    let s : Scram = record s₀ { server_first = first } in
    elim (parse_server_first h first) [
      | inl e ↦ (inl e, s)
      | inr f ↦
          if not (has_prefix f.nonce s.client_non)
          then (inl foreign_nonce, s)
          else elim (h.decode64 f.salt) [
            | none ↦ (inl bad_salt, s)
            | some salt ↦
                let iter : ℕ = elim f.iter [ pos n ↦ n | negsuc n ↦ 0 ] in
                let (message, s') =
                  client_proof h s f.nonce (pbkdf2 h s.password salt iter hash_size) in
                (inr message, s')
          ]
    ]

-- `Verify`
unfoldable pub verify_loop : Crypto → Bytes → List Bytes → Option AuthError
verify_loop h sig [] = some no_signature
verify_loop h sig (kv ∷ kvs) =
    let rest = verify_loop h sig kvs in
    if has_prefix kv (codes "v=")
    then (elim (h.decode64 (drop 2 kv)) [
      | none ↦ some bad_signature
      | some got ↦ if same_text got sig then none else some signature_mismatch
    ])
    else if has_prefix kv (codes "e=")
    then some (server_refused (drop 2 kv))
    else rest

unfoldable pub verify : Crypto → Bytes → Scram → Option AuthError
verify h final s = verify_loop h s.server_sig (split_commas final)

-- `MD5Password`
unfoldable pub md5_password : Crypto → Bytes → Bytes → Bytes → Bytes
md5_password h user password salt =
    let inner = hex_text (h.md5 (password ++ user)) in
    codes "md5" ++ hex_text (h.md5 (inner ++ salt))
