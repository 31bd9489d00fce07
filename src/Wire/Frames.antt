-- ===== src/Wire/Frames.antt =====
-- Messages survive the way through the write buffer and `ReadMessage` of internal/wire/conn.go.
use pg2json.Common.{
  ℕ, ◌+◌, ◌-◌, ◌≤◌, ◌≡◌, refl, ap, false, [], ◌∷◌, ◌++◌, append_assoc, arith, Bytes, length, take,
  drop, length-append, take-length-append, drop-length-append, ltb, leb, Bool-cases, inl, inr,
}
use pg2json.GoStd.{be32, put32}
use pg2json.Wire.{max_msg, read_message, message, begin, add_bytes, finish}

-- A whole message as the protocol frames it.
abbrev pub frame : ℕ → Bytes → Bytes
frame kind body = kind ∷ (put32 (4 + length body) ++ body)

-- A message that is begun behind others in the write buffer, filled and finished is framed: its type
-- byte, the length of what follows and its body; the others stay as they are.
pub finish-begin :
    (kind : ℕ) (buf body : Bytes)
    → let (b, opened) = begin kind buf in finish b (add_bytes body opened) ≡ buf ++ frame kind body
unfolding begin finish add_bytes
finish-begin kind buf body =
    let opened = buf ++ kind ∷ 0 ∷ 0 ∷ 0 ∷ 0 ∷ [] in
    let front : take (length buf + 1) (opened ++ body) ≡ buf ++ kind ∷ [] =
      rw (len_front, whole) (take-length-append (buf ++ kind ∷ []) (0 ∷ 0 ∷ 0 ∷ 0 ∷ body)) in
    let back : drop (length buf + 5) (opened ++ body) ≡ body =
      rw len_back (drop-length-append opened body) in
    let size : length (opened ++ body) - length buf - 1 ≡ 4 + length body =
      omega (arith, length-append opened body, length-append buf (kind ∷ 0 ∷ 0 ∷ 0 ∷ 0 ∷ [])) in
    rw (front, back, size) (simp append_assoc)
  where
    whole : (buf ++ kind ∷ 0 ∷ 0 ∷ 0 ∷ 0 ∷ []) ++ body ≡ (buf ++ kind ∷ []) ++ 0 ∷ 0 ∷ 0 ∷ 0 ∷ body
    whole = simp append_assoc

    len_front : length buf + 1 ≡ length (buf ++ kind ∷ [])
    len_front = omega (arith, length-append buf (kind ∷ []))

    len_back : length buf + 5 ≡ length (buf ++ kind ∷ 0 ∷ 0 ∷ 0 ∷ 0 ∷ [])
    len_back = omega (arith, length-append buf (kind ∷ 0 ∷ 0 ∷ 0 ∷ 0 ∷ []))

-- `ReadMessage` gives back the type and the body of a framed message of at most 256 MiB and leaves what
-- stands behind it, on the path through the buffer and on the other alike, whatever the buffer's size.
pub read_message-frame :
    (size kind : ℕ) (body rest : Bytes)
    → length body ≤ max_msg
    → read_message size (frame kind body ++ rest) ≡ message kind body rest
unfolding read_message
read_message-frame size kind body rest h =
    let word : be32 (frame kind body ++ rest) 1 ≡ 4 + length body = omega arith in
    let long : ltb (length (frame kind body ++ rest)) 5 ≡ false = ground arith in
    let known : ltb (4 + length body) 4 ≡ false = ground arith in
    let four : 4 + length body - 4 ≡ length body = omega arith in
    let small : ltb max_msg (length body) ≡ false = ground arith in
    let there : ltb (length (frame kind body ++ rest)) (5 + length body) ≡ false =
      ground (arith, length-append body rest) in
    let slow : ltb (length (body ++ rest)) (length body) ≡ false =
      ground (arith, length-append body rest) in
    let whole : 5 + length body ≡ length (frame kind body) = omega arith in
    let front : drop 5 (take (5 + length body) (frame kind body ++ rest)) ≡ body =
      rw whole (ap (drop 5) (take-length-append (frame kind body) rest)) in
    let back : drop (5 + length body) (frame kind body ++ rest) ≡ rest =
      rw whole (drop-length-append (frame kind body) rest) in
    elim (Bool-cases (leb (5 + length body) size)) [
      | inl fast ↦ rw (read_message, word, long, known, four, small, fast, there, front, back) refl
      | inr large ↦
          rw
            (
              read_message, word, long, known, four, small, large, slow, take-length-append,
              drop-length-append,
            )
            refl
    ]
