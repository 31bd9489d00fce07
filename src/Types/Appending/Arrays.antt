-- ===== src/Types/Appending/Arrays.antt =====
-- What the array encoders of internal/types/array.go do to a buffer.
use pg2json.Common.{
  ℕ, zero, suc, ◌+◌, ◌*◌, ◌≡◌, refl, sym, ap, ◌∙◌, Bool, true, false, not, ◌||◌, Option, none, some,
  List, [], ◌∷◌, ◌++◌, append_assoc, Bytes, codes, length, take, drop, ltb, ◌==◌, if◌then◌else◌,
}
use pg2json.Common.Int.{abs, is_neg, is_zero, signed32}
use pg2json.GoStd.{be32}
use pg2json.JsonWriter.{append_null, append_string}
use pg2json.Types.Text.{Encoder}
use pg2json.Types.Text.Pick.{Appends, append_null-append}
use pg2json.Types.Array.{
  Filled, filled, ran_short, close_dim, leaf_loop, nested_loop, append_array_dim, read_dims,
  array_or_string, append_array_dims, array_encoder,
}
use pg2json.Types.Appending.{IsAppending, keep_it, add, chain, either, add_string, cell-Appends}

-- A dimension behind what the buffer held.
behind : Bytes → Filled → Filled
behind dst (filled d rest) = filled (dst ++ d) rest
behind dst (ran_short d) = ran_short (dst ++ d)

abbrev IsFilling : (Bytes → Filled) → Type 0
IsFilling f = (dst : Bytes) → f dst ≡ behind dst (f [])

behind_twice : (a b : Bytes) (x : Filled) → behind (a ++ b) x ≡ behind a (behind b x)
unfolding behind
behind_twice a b (filled d rest) = ap (λ (t : Bytes). filled t rest) (append_assoc a b d)
behind_twice a b (ran_short d) = ap ran_short (append_assoc a b d)

from_text : {f : Bytes → Filled} → IsFilling f → (a b : Bytes) → f (a ++ b) ≡ behind a (f b)
from_text {f} p a b = rw (p (a ++ b), p b) (behind_twice a b (f []))

fill_chain :
    {f : Bytes → Bytes} {g : Bytes → Filled}
    → IsAppending f
    → IsFilling g
    → IsFilling (λ dst. g (f dst))
fill_chain {f} {g} p q dst = ap g (p dst) ∙ from_text q dst (f [])

fill_choice :
    {f g : Bytes → Filled} (b : Bool)
    → IsFilling f
    → IsFilling g
    → IsFilling (λ dst. elim b [ true ↦ f dst | false ↦ g dst ])
fill_choice true p q = p
fill_choice false p q = q

fill_short : {f : Bytes → Bytes} → IsAppending f → IsFilling (λ dst. ran_short (f dst))
unfolding behind
fill_short p dst = ap ran_short (p dst)

fill_close : {f : Bytes → Filled} → IsFilling f → IsFilling (λ dst. close_dim (f dst))
unfolding close_dim behind
fill_close {f} p dst = ap close_dim (p dst) ∙ close_behind (f [])
  where
    close_behind : (x : Filled) → close_dim (behind dst x) ≡ behind dst (close_dim x)
    close_behind (filled d rest) = ap (λ (t : Bytes). filled t rest) (append_assoc dst d _)
    close_behind (ran_short d) = refl

comma : (i : ℕ) → IsAppending (λ dst. if not (i == 0) then dst ++ codes "," else dst)
comma i = either (not (i == 0)) (add (codes ",")) keep_it

null_text : IsAppending append_null
null_text dst = append_null-append dst

leaf_loop-IsFilling :
    (enc : Encoder)
    → Appends enc
    → (n i : ℕ) (body : Bytes) → IsFilling (λ dst. leaf_loop enc n i dst body)
unfolding leaf_loop behind
leaf_loop-IsFilling enc apps zero i body = λ dst. ap (λ (t : Bytes). filled t body) (keep_it dst)
leaf_loop-IsFilling enc apps (suc n) i body =
    let l = signed32 (be32 body 0) in
    let rest = drop 4 body in
    fill_choice (ltb (length body) 4) (fill_short (comma i)) (
      fill_choice (is_neg l)
        (fill_chain (chain (comma i) null_text) (leaf_loop-IsFilling enc apps n (suc i) rest))
        (fill_choice (ltb (length rest) (abs l)) (fill_short (comma i)) (
          fill_chain (chain (comma i) (λ dst. apps dst (some (take (abs l) rest))))
            (leaf_loop-IsFilling enc apps n (suc i) (drop (abs l) rest)))))

-- A loop goes on behind a dimension that did not run short.
go_on : (Bytes → Bytes → Filled) → Filled → Filled
go_on f (ran_short d) = ran_short d
go_on f (filled d rest) = f d rest

go_on-behind :
    (f : Bytes → Bytes → Filled)
    → ((body : Bytes) → IsFilling (λ dst. f dst body))
    → (dst : Bytes) (x : Filled) → go_on f (behind dst x) ≡ behind dst (go_on f x)
unfolding go_on behind
go_on-behind f fills dst (ran_short d) = refl
go_on-behind f fills dst (filled d rest) = from_text (fills rest) dst d

go_on-nested_loop :
    (inner : Bytes → Bytes → Filled) (n i : ℕ) (x : Filled)
    → go_on (nested_loop inner n (suc i)) x
      ≡ elim x [ ran_short d ↦ ran_short d | filled d rest ↦ nested_loop inner n (suc i) d rest ]
unfolding go_on
go_on-nested_loop inner n i (ran_short d) = refl
go_on-nested_loop inner n i (filled d rest) = refl

nested_loop-IsFilling :
    (inner : Bytes → Bytes → Filled)
    → ((body : Bytes) → IsFilling (λ dst. inner dst body))
    → (n i : ℕ) (body : Bytes) → IsFilling (λ dst. nested_loop inner n i dst body)
unfolding nested_loop behind
nested_loop-IsFilling inner fills zero i body dst = ap (λ (t : Bytes). filled t body) (keep_it dst)
nested_loop-IsFilling inner fills (suc n) i body dst =
    let first : Bytes → Filled = λ d. inner (if not (i == 0) then d ++ codes "," else d) body in
    let loop = nested_loop inner n (suc i) in
    sym (go_on-nested_loop inner n i (first dst))
    ∙ ap (go_on loop) (fill_chain (comma i) (fills body) dst)
    ∙ go_on-behind loop (nested_loop-IsFilling inner fills n (suc i)) dst (first [])
    ∙ ap (behind dst) (go_on-nested_loop inner n i (first []))

append_array_dim-IsFilling :
    (enc : Encoder)
    → Appends enc
    → (size : ℕ) (dims : List ℕ) (body : Bytes)
    → IsFilling (λ dst. append_array_dim enc size dims dst body)
unfolding append_array_dim
append_array_dim-IsFilling enc apps size [] body =
    fill_close (fill_chain (add (codes "[")) (leaf_loop-IsFilling enc apps size 0 body))
append_array_dim-IsFilling enc apps size (d ∷ dims) body = fill_close (
    fill_chain (add (codes "[")) (
      nested_loop-IsFilling (append_array_dim enc d dims)
        (append_array_dim-IsFilling enc apps d dims) size 0 body))

array_or_string-append :
    (raw dst : Bytes) (x : Filled)
    → array_or_string raw (behind dst x) ≡ dst ++ array_or_string raw x
unfolding array_or_string behind
array_or_string-append raw dst (filled d rest) = refl
array_or_string-append raw dst (ran_short d) =
    rw (add_string raw (dst ++ d), add_string raw d) (append_assoc dst d _)

append_array_dims-IsAppending :
    (enc : Encoder)
    → Appends enc
    → (dims : Option (List ℕ)) (raw body : Bytes)
    → IsAppending (λ dst. append_array_dims enc dims raw dst body)
unfolding append_array_dims
append_array_dims-IsAppending enc apps none raw body = add_string raw
append_array_dims-IsAppending enc apps (some []) raw body = add_string raw
append_array_dims-IsAppending enc apps (some (d ∷ dims)) raw body = λ dst.
    ap (array_or_string raw) (append_array_dim-IsFilling enc apps d dims body dst)
    ∙ array_or_string-append raw dst (append_array_dim enc d dims [] body)

pub array_encoder-Appends : (enc : Encoder) → Appends enc → Appends (array_encoder enc)
unfolding array_encoder
array_encoder-Appends enc apps = cell-Appends _ (λ raw.
    let ndim = signed32 (be32 raw 0) in
    let hdr_end = 12 + abs ndim * 8 in
    either (ltb (length raw) 12) (add_string raw) (
      either (is_neg ndim || is_zero ndim) (add (codes "[]")) (
        header raw (ltb (length raw) hdr_end) (
          append_array_dims-IsAppending enc apps (read_dims raw 12 (abs ndim)) raw
            (drop hdr_end raw)))))
  where
    header :
        {f : Bytes → Bytes} (raw : Bytes) (b : Bool)
        → IsAppending f
        → IsAppending (λ dst. elim b [ true ↦ append_string dst raw | false ↦ f dst ])
    header raw true p = add_string raw
    header raw false p = p
