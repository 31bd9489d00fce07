-- ===== src/Types/Appending.antt =====
-- What the encoders of internal/types do to a buffer, for the functions that they are made of.
pub mod Scalars
pub mod Times
pub mod Arrays
pub mod Choice
use pg2json.Common.{
  ℕ, ◌≡◌, refl, sym, ap, ◌∙◌, Bool, true, false, not, none, some, [], ◌∷◌, ◌++◌, append_assoc,
  append-nil, Bytes, length, ◌==◌, if◌then◌else◌,
}
use pg2json.Common.Int.{ℤ}
use pg2json.JsonWriter.{append_bool, append_string}
use pg2json.Types.Text.{or_null, append_hex_bytes}
use pg2json.Types.Text.Strings.{append_hex_bytes-hex_text}
use pg2json.Types.Text.Pick.{Appends, append_string-append, append_null-append}
use pg2json.Types.Binary.{with_length}

abbrev pub IsAppending : (Bytes → Bytes) → Type 0
IsAppending f = (dst : Bytes) → f dst ≡ dst ++ f []

pub keep_it : IsAppending (λ dst. dst)
keep_it dst = sym (append-nil dst)

pub add : (s : Bytes) → IsAppending (λ dst. dst ++ s)
add s dst = refl

pub chain : {f g : Bytes → Bytes} → IsAppending f → IsAppending g → IsAppending (λ dst. g (f dst))
chain {f} {g} p q dst = rw (q (f dst), q (f []), p dst) (append_assoc dst _ _)

pub either :
    {f g : Bytes → Bytes} (b : Bool)
    → IsAppending f
    → IsAppending g
    → IsAppending (λ dst. if b then f dst else g dst)
either true p q = p
either false p q = q

pub add_string : (s : Bytes) → IsAppending (λ dst. append_string dst s)
add_string s dst = append_string-append dst s

pub add_hex : (s : Bytes) → IsAppending (λ dst. append_hex_bytes dst s)
add_hex s dst =
    append_hex_bytes-hex_text dst s ∙ ap (λ x. dst ++ x) (sym (append_hex_bytes-hex_text [] s))

pub sized :
    {f : Bytes → Bytes} (n : ℕ) (raw : Bytes)
    → IsAppending f
    → IsAppending (λ dst. if not (length raw == n) then append_string dst raw else f dst)
sized n raw p = either (not (length raw == n)) (add_string raw) p

pub cell-Appends :
    (f : Bytes → Bytes → Bytes)
    → ((raw : Bytes) → IsAppending (λ dst. f dst raw))
    → Appends (or_null f)
cell-Appends f p dst none = append_null-append dst
cell-Appends f p dst (some raw) = p raw dst
