-- ===== src/Utf8.antt =====
-- `String::from_utf8_lossy` of the standard library, and `char`s written as UTF-8.
pub mod Valid
pub mod Lengths
pub mod Strings
use blvm_datum.Common.{
  ℕ, suc, ◌+◌, ◌-◌, ◌/◌, ◌%◌, ◌<◌, ◌≤◌, ◌⊎◌, Bool, not, ◌&&◌, List, [], ◌∷◌, ◌++◌, All, ltb, leb,
  ◌==◌, if◌then◌else◌,
}
use blvm_datum.Bytes.{Bytes}

-- U+FFFD
abbrev pub replacement : Bytes
replacement = 0xEF ∷ 0xBF ∷ 0xBD ∷ []

-- Between characters, or inside one: the bytes read of it, how many follow the next one, and the
-- range of the next one.
pub data DecoderState : Type 0 where
  between : DecoderState
  inside : Bytes → ℕ → ℕ → ℕ → DecoderState

abbrev in_range : ℕ → ℕ → ℕ → Bool
in_range lo hi c = leb lo c && leb c hi

-- The first byte of a character.
unfoldable pub start : ℕ → Bytes × DecoderState
start c =
    if ltb c 0x80
    then (c ∷ [], between)
    else if in_range 0xC2 0xDF c
    then ([], inside (c ∷ []) 0 0x80 0xBF)
    else if c == 0xE0
    then ([], inside (c ∷ []) 1 0xA0 0xBF)
    else if c == 0xED
    then ([], inside (c ∷ []) 1 0x80 0x9F)
    else if in_range 0xE1 0xEF c
    then ([], inside (c ∷ []) 1 0x80 0xBF)
    else if c == 0xF0
    then ([], inside (c ∷ []) 2 0x90 0xBF)
    else if in_range 0xF1 0xF3 c
    then ([], inside (c ∷ []) 2 0x80 0xBF)
    else if c == 0xF4
    then ([], inside (c ∷ []) 2 0x80 0x8F)
    else (replacement, between)

-- A byte that cannot go on with a character ends it, and is read again as a first byte.
unfoldable pub decode_byte : DecoderState → ℕ → Bytes × DecoderState
unfolding start
decode_byte between c = start c
decode_byte (inside buf left lo hi) c =
    let (out, next) = start c in
    if not (in_range lo hi c)
    then (replacement ++ out, next)
    else if left == 0
    then (buf ++ c ∷ [], between)
    else ([], inside (buf ++ c ∷ []) (left - 1) 0x80 0xBF)

unfoldable pub decode_from : DecoderState → Bytes → Bytes
unfolding decode_byte
decode_from between [] = []
decode_from (inside _ _ _ _) [] = replacement
decode_from s (c ∷ cs) = let (out, next) = decode_byte s c in out ++ decode_from next cs

unfoldable pub from_utf8_lossy : Bytes → Bytes
unfolding decode_from
from_utf8_lossy bytes = decode_from between bytes

-- A Unicode scalar value, and its UTF-8 form.
abbrev pub IsScalar : ℕ → Type 0
IsScalar c = (c < 0xD800) ⊎ ((0xE000 ≤ c) × (c < 0x110000))

unfoldable pub encode_char : ℕ → Bytes
encode_char c =
    if ltb c 0x80
    then c ∷ []
    else if ltb c 0x800
    then (0xC0 + c / 64) ∷ (0x80 + c % 64) ∷ []
    else if ltb c 0x10000
    then (0xE0 + c / 4096) ∷ (0x80 + c / 64 % 64) ∷ (0x80 + c % 64) ∷ []
    else (0xF0 + c / 262144) ∷ (0x80 + c / 4096 % 64) ∷ (0x80 + c / 64 % 64) ∷ (0x80 + c % 64) ∷ []

unfoldable pub encode : List ℕ → Bytes
unfolding encode_char
encode [] = []
encode (c ∷ cs) = encode_char c ++ encode cs
