-- ===== src/Auth/Exchange.antt =====
-- The client of internal/auth/scram.go against a server written from RFC 5802, which keeps the salt, the
-- iterations, the stored key and the server key.
use pg2json.Common.{
  ℕ, suc, ◌-◌, ◌<◌, ◌≡◌, ◌≢◌, ◌⊎◌, inl, inr, refl, sym, ap, ◌∙◌, true, false, none, some, List, [],
  ◌∷◌, ◌++◌, Bytes, codes, length, ltb, ◌==◌, arith, Bool-cases, if◌then◌else◌,
}
use pg2json.Common.Int.{pos}
use pg2json.StmtCache.{same_text}
use pg2json.StmtCache.Entries.{same_text_refl, same_text-equal}
use pg2json.Auth.{
  Crypto, hash_size, Scram, AuthError, signature_mismatch, has_prefix, split_commas, first_loop,
  parse_server_first, xor_bytes, pbkdf2, client_proof, client_final, verify_loop, verify,
}
use pg2json.Auth.Salted.{HasNoComma, IsCrypto, xored, xor_bytes-xored, xored-cancel, hi, pbkdf2-hi}

split_commas-part : (s : Bytes) → HasNoComma s → split_commas s ≡ s ∷ []
unfolding split_commas
split_commas-part [] h = refl
split_commas-part (c ∷ s) (other, h) = rw (split_commas-part s h, split_commas, other) refl

split_commas-cons :
    (t : Bytes) → (part : Bytes) × (parts : List Bytes) × (split_commas t ≡ part ∷ parts)
unfolding split_commas
split_commas-cons [] = ([], [], refl)
split_commas-cons (c ∷ t) =
    let (part, parts, e) = split_commas-cons t in
    elim (Bool-cases (c == b',')) [
      | inl is ↦ ([], part ∷ parts, rw (e, split_commas, is) refl)
      | inr other ↦ (c ∷ part, parts, rw (e, split_commas, other) refl)
    ]

split_commas-more : (s t : Bytes) → HasNoComma s → split_commas (s ++ b',' ∷ t) ≡ s ∷ split_commas t
unfolding split_commas
split_commas-more [] t h = let (part, parts, e) = split_commas-cons t in rw (e, split_commas) refl
split_commas-more (c ∷ s) t (other, h) = rw (split_commas-more s t h, split_commas, other) refl

has_prefix-nil : (s : Bytes) → has_prefix s [] ≡ true
unfolding has_prefix
has_prefix-nil [] = refl
has_prefix-nil (c ∷ s) = refl

has_prefix-append : (p s : Bytes) → has_prefix (p ++ s) p ≡ true
unfolding has_prefix
has_prefix-append [] s = has_prefix-nil s
has_prefix-append (c ∷ p) s = ground (arith, has_prefix-append p s)

long_enough : (n : ℕ) → ltb (suc (suc n)) 2 ≡ false
long_enough n = ground arith

-- The server's first message, with the iterations as a text.
abbrev pub server_first_message : Crypto → Bytes → Bytes → Bytes → Bytes
server_first_message h nonce salt iter =
    (codes "r=" ++ nonce) ++ b',' ∷ ((codes "s=" ++ h.encode64 salt) ++ b',' ∷ (codes "i=" ++ iter))

-- `parseServerFirst` reads what the server has put into its first message.
pub parse_server_first-server_first_message :
    (h : Crypto) (c : IsCrypto h) (nonce salt iter : Bytes) (n : ℕ)
    → HasNoComma nonce
    → HasNoComma iter
    → (length nonce == 0) ≡ false
    → (length (h.encode64 salt) == 0) ≡ false
    → h.atoi iter ≡ some (pos n)
    → 0 < n
    → parse_server_first h (server_first_message h nonce salt iter)
      ≡ inr (record { nonce = nonce; salt = h.encode64 salt; iter = pos n })
unfolding parse_server_first first_loop
parse_server_first-server_first_message h c nonce salt iter n whole_nonce whole_iter some_nonce
      some_salt number positive =
    let e64 = h.encode64 salt in
    let first =
      split_commas-more (codes "r=" ++ nonce) ((codes "s=" ++ e64) ++ b',' ∷ (codes "i=" ++ iter))
        (refl, (refl, whole_nonce)) in
    let second =
      split_commas-more (codes "s=" ++ e64) (codes "i=" ++ iter) (refl, (refl, c.one_part salt)) in
    let third = split_commas-part (codes "i=" ++ iter) (refl, (refl, whole_iter)) in
    let up : ltb 0 n ≡ true = ground arith in
    rw
      (
        first,
        parse_server_first,
        first_loop,
        long_enough (length nonce),
        second,
        long_enough (length e64),
        third,
        long_enough (length iter),
        number,
        some_nonce,
        some_salt,
        up,
      )
      refl

-- The keys that the server keeps, and the text that both sides sign.
abbrev pub stored_key : Crypto → Bytes → Bytes
stored_key h salted = h.sha256 (h.hmac salted (codes "Client Key"))

abbrev pub server_key : Crypto → Bytes → Bytes
server_key h salted = h.hmac salted (codes "Server Key")

abbrev pub auth_message : (bare first nonce : Bytes) → Bytes
auth_message bare first nonce =
    bare ++ (codes "," ++ (first ++ (codes "," ++ (codes "c=biws,r=" ++ nonce))))

-- The server takes a proof that, with the client's signature removed, is a preimage of the stored key.
abbrev pub IsAccepted : Crypto → (stored message proof : Bytes) → Type 0
IsAccepted h stored message proof =
    (p : Bytes) × (h.decode64 proof ≡ some p)
    × (h.sha256 (xored p (h.hmac stored message)) ≡ stored)

abbrev pub server_final_message : Crypto → Bytes → Bytes → Bytes
server_final_message h key message = codes "v=" ++ h.encode64 (h.hmac key message)

client_final_step :
    (h : Crypto) (c : IsCrypto h) (s : Scram) (extra salt iter : Bytes) (n : ℕ)
    → let nonce = s.client_non ++ extra in
      let first = server_first_message h nonce salt iter in
      parse_server_first h first
        ≡ inr (record { nonce = nonce; salt = h.encode64 salt; iter = pos n })
      → client_final h first s ≡ (
          let r =
            client_proof h
              (record s { server_first = first })
              nonce
              (pbkdf2 h s.password salt n hash_size) in
          (inr r.0, r.1))
unfolding client_final
client_final_step h c s extra salt iter n parsed =
    rw (parsed, client_final, has_prefix-append s.client_non extra, c.decoded salt) refl

-- `Verify` on a signature: it takes the one that it computed and no other.
verify_signature :
    (h : Crypto) (c : IsCrypto h) (s : Scram) (b : Bytes)
    → verify h (codes "v=" ++ h.encode64 b) s
      ≡ (if same_text b s.server_sig then none else some signature_mismatch)
unfolding verify verify_loop has_prefix
verify_signature h c s b =
    let one = split_commas-part (codes "v=" ++ h.encode64 b) (refl, (refl, c.one_part b)) in
    rw (one, verify, verify_loop, c.decoded b) refl

not-same_text : (a b : Bytes) → a ≢ b → same_text a b ≡ false
not-same_text a b other = elim (Bool-cases (same_text a b)) [
  | inl same ↦ absurd (other (same_text-equal a b same))
  | inr differs ↦ differs
]

verdict :
    (sig : Bytes) (s : Scram)
    → s.server_sig ≡ sig
    → (if same_text sig s.server_sig then none else some signature_mismatch) ≡ none
verdict sig s kept = rw (kept, same_text_refl sig) refl

refusal :
    (b sig : Bytes) (s : Scram)
    → s.server_sig ≡ sig
    → b ≢ sig
    → (if same_text b s.server_sig then none else some signature_mismatch) ≡ some signature_mismatch
refusal b sig s kept other = rw (kept, not-same_text b sig other) refl

-- A client and a server that know the same password agree: to the server's first message the client
-- answers with a proof that the server's stored key accepts, and it then accepts the server's
-- signature and no other. The server derives its keys from the salted password of RFC 5802. The server's
-- nonce has to begin with the client's, and nonce, salt and iterations are not empty, have no
-- comma and are at least 1; base64 is read back, without commas, and a hash has 32 bytes.
pub client_final-verify :
    (h : Crypto) (c : IsCrypto h) (s : Scram) (extra salt iter : Bytes) (n : ℕ) (forged : Bytes)
    → HasNoComma (s.client_non ++ extra)
    → HasNoComma iter
    → (length (s.client_non ++ extra) == 0) ≡ false
    → (length (h.encode64 salt) == 0) ≡ false
    → h.atoi iter ≡ some (pos n)
    → 0 < n
    → let nonce = s.client_non ++ extra in
      let first = server_first_message h nonce salt iter in
      let salted = hi h s.password salt (n - 1) in
      let message = auth_message s.client_first_bare first nonce in
      forged ≢ h.hmac (server_key h salted) message
      → let r = client_final h first s in
        (proof : Bytes) × (r.0 ≡ inr (codes "c=biws,r=" ++ (nonce ++ (codes ",p=" ++ proof))))
        × IsAccepted h (stored_key h salted) message proof
        × (verify h (server_final_message h (server_key h salted) message) r.1 ≡ none)
        × (verify h (codes "v=" ++ h.encode64 forged) r.1 ≡ some signature_mismatch)
unfolding client_proof
client_final-verify h c s extra salt iter n forged whole_nonce whole_iter some_nonce some_salt
      number positive other =
    let nonce = s.client_non ++ extra in
    let first = server_first_message h nonce salt iter in
    let salted = hi h s.password salt (n - 1) in
    let message = auth_message s.client_first_bare first nonce in
    let client_key = h.hmac salted (codes "Client Key") in
    let client_sig = h.hmac (stored_key h salted) message in
    let proof = xor_bytes client_key client_sig in
    let sig = h.hmac (server_key h salted) message in
    let parsed =
      parse_server_first-server_first_message h c nonce salt iter n whole_nonce whole_iter
        some_nonce some_salt number positive in
    let step : client_final h first s ≡ (
        let q = client_proof h (record s { server_first = first }) nonce salted in (inr q.0, q.1)) =
      client_final_step h c s extra salt iter n parsed
      ∙ ap
          (λ (key : Bytes).
            let q = client_proof h (record s { server_first = first }) nonce key in (inr q.0, q.1))
          (pbkdf2-hi h c s.password salt n) in
    let kept : (client_final h first s).1.server_sig ≡ sig =
      ap (λ (r : (AuthError ⊎ Bytes) × Scram). r.1.server_sig) step in
    let one_size =
      c.sized salted (codes "Client Key") ∙ sym (c.sized (stored_key h salted) message) in
    let unmasked : xored proof client_sig ≡ client_key =
      ap (λ (t : Bytes). xored t client_sig) (xor_bytes-xored client_key client_sig one_size)
      ∙ xored-cancel client_key client_sig one_size in
    (
      h.encode64 proof,
      ap (λ (r : (AuthError ⊎ Bytes) × Scram). r.0) step,
      (proof, c.decoded proof, ap h.sha256 unmasked),
      verify_signature h c (client_final h first s).1 sig
          ∙ verdict sig (client_final h first s).1 kept,
      verify_signature h c (client_final h first s).1 forged
          ∙ refusal forged sig (client_final h first s).1 kept other,
    )
