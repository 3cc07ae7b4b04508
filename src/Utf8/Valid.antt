-- ===== src/Utf8/Valid.antt =====
-- Valid UTF-8 goes through the lossy decoder unchanged.
use blvm_datum.Common.{ℕ, ◌≡◌, refl, ap, ◌∙◌, List, [], ◌∷◌, ◌++◌, All, arith}
use blvm_datum.Bytes.{Bytes}
use blvm_datum.Utf8.{between, decode_from, from_utf8_lossy, IsScalar, encode_char, encode}

-- The bytes of a Rust `String`.
pub record IsUtf8 (bytes : Bytes) : Type 0 where
  pub chars : List ℕ
  pub scalars : All IsScalar chars
  pub encodes : bytes ≡ encode chars

decode_from-encode_char :
    (c : ℕ) (rest : Bytes)
    → IsScalar c
    → decode_from between (encode_char c ++ rest) ≡ encode_char c ++ decode_from between rest
unfolding decode_from encode_char
decode_from-encode_char c rest h = ground arith

decode_from-encode : (cs : List ℕ) → All IsScalar cs → decode_from between (encode cs) ≡ encode cs
unfolding encode
decode_from-encode [] h = unfold decode_from in refl
decode_from-encode (c ∷ cs) h =
    decode_from-encode_char c (encode cs) h.0
    ∙ ap (◌++◌ (encode_char c)) (decode_from-encode cs h.1)

pub from_utf8_lossy_valid : (bytes : Bytes) → IsUtf8 bytes → from_utf8_lossy bytes ≡ bytes
unfolding from_utf8_lossy
from_utf8_lossy_valid bytes h = rw h.encodes (decode_from-encode h.chars h.scalars)
