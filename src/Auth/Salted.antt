-- ===== src/Auth/Salted.antt =====
-- The salted password of internal/auth/scram.go is that of RFC 5802.
use Prim.Native.Nat.{bit_xor}
use pg2json.Common.{
  ℕ, zero, suc, ◌+◌, ◌-◌, ◌≡◌, refl, sym, ap, ◌∙◌, false, some, [], ◌∷◌, ◌++◌, append-nil, take,
  Bytes, length, ◌==◌, arith, All,
}
use pg2json.Common.Bits.{bit_xor-cancel}
use pg2json.Auth.{Crypto, hash_size, xor_bytes, pbkdf2, pbkdf2_rounds, pbkdf2_blocks, pbkdf2_block}

-- A text without a comma, which is an attribute of a message by itself.
abbrev pub HasNoComma : Bytes → Type 0
HasNoComma = All (λ c. (c == b',') ≡ false)

-- What the exchange relies on: base64 is read back and has no comma, and HMAC-SHA-256 has 32 bytes.
pub record IsCrypto (h : Crypto) : Type 0 where
  pub decoded : (b : Bytes) → h.decode64 (h.encode64 b) ≡ some b
  pub one_part : (b : Bytes) → HasNoComma (h.encode64 b)
  pub sized : (key message : Bytes) → length (h.hmac key message) ≡ hash_size

-- The exclusive or of two texts of one length.
unfoldable pub xored : Bytes → Bytes → Bytes
xored [] b = []
xored (x ∷ a) [] = []
xored (x ∷ a) (y ∷ b) = bit_xor x y ∷ xored a b

pub xor_bytes-xored : (a b : Bytes) → length a ≡ length b → xor_bytes a b ≡ xored a b
unfolding xor_bytes xored
xor_bytes-xored [] b h = refl
xor_bytes-xored (x ∷ a) [] h = absurd (omega arith)
xor_bytes-xored (x ∷ a) (y ∷ b) h =
    ap (λ (t : Bytes). bit_xor x y ∷ t) (xor_bytes-xored a b (omega arith))

pub length-xored : (a b : Bytes) → length a ≡ length b → length (xored a b) ≡ length a
unfolding xored
length-xored [] b h = refl
length-xored (x ∷ a) [] h = absurd (omega arith)
length-xored (x ∷ a) (y ∷ b) h = ap suc (length-xored a b (omega arith))

pub xored-cancel : (a b : Bytes) → length a ≡ length b → xored (xored a b) b ≡ a
unfolding xored
xored-cancel [] b h = refl
xored-cancel (x ∷ a) [] h = absurd (omega arith)
xored-cancel (x ∷ a) (y ∷ b) h = rw (bit_xor-cancel x y, xored-cancel a b (omega arith)) refl

-- `Hi` of RFC 5802, section 2.2: the first of its hashes, each of the next, and their exclusive or.
unfoldable pub hi_hash : Crypto → Bytes → Bytes → ℕ → Bytes
hi_hash h password salt zero = h.hmac password (salt ++ 0 ∷ 0 ∷ 0 ∷ 1 ∷ [])
hi_hash h password salt (suc i) = h.hmac password (hi_hash h password salt i)

unfoldable pub hi : Crypto → Bytes → Bytes → ℕ → Bytes
hi h password salt zero = hi_hash h password salt 0
hi h password salt (suc i) = xored (hi h password salt i) (hi_hash h password salt (suc i))

length-hi_hash :
    (h : Crypto) (c : IsCrypto h) (password salt : Bytes) (i : ℕ)
    → length (hi_hash h password salt i) ≡ hash_size
unfolding hi_hash
length-hi_hash h c password salt zero = c.sized _ _
length-hi_hash h c password salt (suc i) = c.sized _ _

length-hi :
    (h : Crypto) (c : IsCrypto h) (password salt : Bytes) (i : ℕ)
    → length (hi h password salt i) ≡ hash_size
unfolding hi
length-hi h c password salt zero = length-hi_hash h c password salt 0
length-hi h c password salt (suc i) =
    let before = length-hi h c password salt i in
    length-xored (hi h password salt i) _ (before ∙ sym (length-hi_hash h c password salt (suc i)))
    ∙ before

pbkdf2_rounds-hi :
    (h : Crypto) (c : IsCrypto h) (password salt : Bytes) (n i : ℕ)
    → pbkdf2_rounds h password n (hi_hash h password salt i) (hi h password salt i)
      ≡ hi h password salt (i + n)
unfolding pbkdf2_rounds hi hi_hash
pbkdf2_rounds-hi h c password salt zero i = let same : i + 0 ≡ i = omega arith in rw same refl
pbkdf2_rounds-hi h c password salt (suc n) i =
    let same : suc i + n ≡ i + suc n = omega arith in
    let next =
      xor_bytes-xored (hi h password salt i) (hi_hash h password salt (suc i))
        (length-hi h c password salt i ∙ sym (length-hi_hash h c password salt (suc i))) in
    ap (λ (t : Bytes). pbkdf2_rounds h password n (hi_hash h password salt (suc i)) t) next
    ∙ pbkdf2_rounds-hi h c password salt n (suc i)
    ∙ ap (hi h password salt) same

take_whole : (s : Bytes) (n : ℕ) → length s ≡ n → take n s ≡ s
take_whole [] zero h = refl
take_whole [] (suc n) h = refl
take_whole (c ∷ s) zero h = absurd (omega arith)
take_whole (c ∷ s) (suc n) h = ap (λ (t : Bytes). c ∷ t) (take_whole s n (omega arith))

-- One block of the client's key derivation is `Hi`, with one iteration less to add.
pub pbkdf2-hi :
    (h : Crypto) (c : IsCrypto h) (password salt : Bytes) (n : ℕ)
    → pbkdf2 h password salt n hash_size ≡ hi h password salt (n - 1)
unfolding pbkdf2 pbkdf2_blocks pbkdf2_block hi_hash hi
pbkdf2-hi h c password salt n =
    let same : 0 + (n - 1) ≡ n - 1 = omega arith in
    let block = pbkdf2_rounds-hi h c password salt (n - 1) 0 ∙ ap (hi h password salt) same in
    let whole =
      take_whole (hi h password salt (n - 1)) hash_size (length-hi h c password salt (n - 1)) in
    ap (λ (b : Bytes). take hash_size (b ++ [])) block ∙ ap (take hash_size) (append-nil _) ∙ whole
