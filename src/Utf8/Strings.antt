-- ===== src/Utf8/Strings.antt =====
-- Whatever the lossy decoder reads, it writes a string.
use blvm_datum.Common.{
  ℕ, zero, suc, ◌+◌, ◌-◌, ◌*◌, ◌≤◌, ◌<◌, ◌≡◌, refl, sym, ap, ap₂, append-nil, ◌∙◌, Bool, true,
  false, not, ltb, ◌==◌, List, [], ◌∷◌, ◌++◌, All-append, append_assoc, if◌then◌else◌, arith, inl,
  inr,
}
use blvm_datum.Bytes.{Bytes}
use blvm_datum.Utf8.{
  DecoderState, between, inside, start, decode_byte, decode_from, from_utf8_lossy, replacement,
  in_range, IsScalar, encode_char, encode,
}
use blvm_datum.Utf8.Valid.{IsUtf8}

IsUtf8-[] : IsUtf8 []
IsUtf8-[] = record { chars = []; scalars = tt; encodes = unfold encode in refl }

encode-append : (xs ys : List ℕ) → encode (xs ++ ys) ≡ encode xs ++ encode ys
unfolding encode
encode-append [] ys = refl
encode-append (x ∷ xs) ys =
    ap (◌++◌ (encode_char x)) (encode-append xs ys)
    ∙ sym (append_assoc (encode_char x) (encode xs) (encode ys))

IsUtf8-append : (xs ys : Bytes) → IsUtf8 xs → IsUtf8 ys → IsUtf8 (xs ++ ys)
IsUtf8-append xs ys hx hy = record {
  chars = hx.chars ++ hy.chars;
  scalars = All-append IsScalar hx.chars hy.chars hx.scalars hy.scalars;
  encodes = ap₂ ◌++◌ hx.encodes hy.encodes ∙ sym (encode-append hx.chars hy.chars);
}

-- One character.
IsUtf8-char : (c : ℕ) (bytes : Bytes) → IsScalar c → bytes ≡ encode_char c → IsUtf8 bytes
IsUtf8-char c bytes h e = record {
  chars = c ∷ [];
  scalars = (h, tt);
  encodes = unfold encode in e ∙ sym (append-nil (encode_char c));
}

one_byte : (a : ℕ) → a < 0x80 → IsUtf8 (a ∷ [])
one_byte a h = IsUtf8-char a (a ∷ []) (inl (omega arith)) (unfold encode_char in ground arith)

two_bytes : (a b : ℕ) → 0xC2 ≤ a → a ≤ 0xDF → 0x80 ≤ b → b ≤ 0xBF → IsUtf8 (a ∷ b ∷ [])
two_bytes a b ha la hb lb =
    IsUtf8-char ((a - 0xC0) * 64 + (b - 0x80)) (a ∷ b ∷ []) (inl (omega arith))
      (unfold encode_char in ground arith)

-- A first byte, with the range of the second one.
three_bytes :
    (a b c : ℕ)
    → 0xE0 ≤ a
    → a ≤ 0xEF
    → 0x80 ≤ b
    → b ≤ 0xBF
    → 0x80 ≤ c
    → c ≤ 0xBF
    → (a ≡ 0xE0 → 0xA0 ≤ b)
    → (a ≡ 0xED → b ≤ 0x9F)
    → IsUtf8 (a ∷ b ∷ c ∷ [])
three_bytes a b c ha la hb lb hc lc low surrogate =
    IsUtf8-char ((a - 0xE0) * 4096 + (b - 0x80) * 64 + (c - 0x80)) (a ∷ b ∷ c ∷ []) (grind arith)
      (unfold encode_char in ground arith)

four_bytes :
    (a b c d : ℕ)
    → 0xF0 ≤ a
    → a ≤ 0xF4
    → 0x80 ≤ b
    → b ≤ 0xBF
    → 0x80 ≤ c
    → c ≤ 0xBF
    → 0x80 ≤ d
    → d ≤ 0xBF
    → (a ≡ 0xF0 → 0x90 ≤ b)
    → (a ≡ 0xF4 → b ≤ 0x8F)
    → IsUtf8 (a ∷ b ∷ c ∷ d ∷ [])
four_bytes a b c d ha la hb lb hc lc hd ld low high =
    IsUtf8-char ((a - 0xF0) * 262144 + (b - 0x80) * 4096 + (c - 0x80) * 64 + (d - 0x80))
      (a ∷ b ∷ c ∷ d ∷ []) (inr (grind arith)) (unfold encode_char in ground arith)

-- Every way to go on within the ranges makes a character of the bytes.
abbrev Completes : ℕ → Bytes → ℕ → ℕ → Type 0
Completes zero buf lo hi = (c : ℕ) → lo ≤ c → c ≤ hi → IsUtf8 (buf ++ c ∷ [])
Completes (suc left) buf lo hi =
    (c : ℕ) → lo ≤ c → c ≤ hi → Completes left (buf ++ c ∷ []) 0x80 0xBF

abbrev Promises : DecoderState → Type 0
Promises between = Unit
Promises (inside buf left lo hi) = Completes left buf lo hi

-- A step writes characters and promises the rest.
abbrev Writes : Bytes × DecoderState → Type 0
Writes r = IsUtf8 r.0 × Promises r.1

replacement-IsUtf8 : IsUtf8 replacement
replacement-IsUtf8 = IsUtf8-char 0xFFFD replacement (inr (omega arith)) (unfold encode_char in refl)

Writes-if :
    (b : Bool) (r q : Bytes × DecoderState)
    → (b ≡ true → Writes r)
    → (b ≡ false → Writes q)
    → Writes (if b then r else q)
Writes-if true r q hy hn = hy refl
Writes-if false r q hy hn = hn refl

start-Writes : (c : ℕ) → Writes (start c)
unfolding start
start-Writes c =
    Writes-if (ltb c 0x80) _ _ (λ ascii. (one_byte c (ground arith), tt))
      λ n1.
        Writes-if (in_range 0xC2 0xDF c) _ _
          (λ two. (IsUtf8-[], λ d ld hd. two_bytes c d (ground arith) (ground arith) ld hd))
          λ n2.
            Writes-if (c == 0xE0) _ _
              (λ is. (
                IsUtf8-[],
                λ d ld hd e le he.
                    three_bytes c d e (ground arith) (ground arith) (omega arith) hd le he (λ _. ld)
                      (λ k. ground arith),
              ))
              λ n3.
                Writes-if (c == 0xED) _ _
                  (λ is. (
                    IsUtf8-[],
                    λ d ld hd e le he.
                        three_bytes c d e (ground arith) (ground arith) ld (omega arith) le he
                          (λ k. ground arith) (λ _. hd),
                  ))
                  λ n4.
                    Writes-if (in_range 0xE1 0xEF c) _ _
                      (λ is. (
                        IsUtf8-[],
                        λ d ld hd e le he.
                            three_bytes c d e (ground arith) (ground arith) ld hd le he
                              (λ k. ground arith) (λ k. ground arith),
                      ))
                      λ n5.
                        Writes-if (c == 0xF0) _ _
                          (λ is. (
                            IsUtf8-[],
                            λ d ld hd e le he f lf hf.
                                four_bytes c d e f (ground arith) (ground arith) (omega arith) hd le
                                  he lf hf (λ _. ld) (λ k. ground arith),
                          ))
                          λ n6.
                            Writes-if (in_range 0xF1 0xF3 c) _ _
                              (λ is. (
                                IsUtf8-[],
                                λ d ld hd e le he f lf hf.
                                    four_bytes c d e f (ground arith) (ground arith) ld hd le he lf
                                      hf (λ k. ground arith) (λ k. ground arith),
                              ))
                              λ n7.
                                Writes-if (c == 0xF4) _ _
                                  (λ is. (
                                    IsUtf8-[],
                                    λ d ld hd e le he f lf hf.
                                        four_bytes c d e f (ground arith) (ground arith) ld
                                          (omega arith) le he lf hf (λ k. ground arith) (λ _. hd),
                                  ))
                                  λ n8. (replacement-IsUtf8, tt)

inside-Writes :
    (good : Bool) (buf : Bytes) (left lo hi c : ℕ) (r : Bytes × DecoderState)
    → good ≡ in_range lo hi c
    → Completes left buf lo hi
    → Writes r
    → Writes (
        if not good
        then (replacement ++ r.0, r.1)
        else if left == 0
        then (buf ++ c ∷ [], between)
        else ([], inside (buf ++ c ∷ []) (left - 1) 0x80 0xBF))
inside-Writes false buf left lo hi c r e h w =
    (IsUtf8-append replacement r.0 replacement-IsUtf8 w.0, w.1)
inside-Writes true buf zero lo hi c r e h w = (h c (ground arith) (ground arith), tt)
inside-Writes true buf (suc left) lo hi c r e h w =
    let more : (suc left == 0) ≡ false = ground arith in
    let fewer : suc left - 1 ≡ left = omega arith in
    rw (more, fewer) (IsUtf8-[], h c (ground arith) (ground arith))

decode_byte-Writes : (s : DecoderState) (c : ℕ) → Promises s → Writes (decode_byte s c)
unfolding decode_byte
decode_byte-Writes between c h = start-Writes c
decode_byte-Writes (inside buf left lo hi) c h =
    inside-Writes (in_range lo hi c) buf left lo hi c (start c) refl h (start-Writes c)

decode_from-IsUtf8 : (s : DecoderState) (bytes : Bytes) → Promises s → IsUtf8 (decode_from s bytes)
unfolding decode_from
decode_from-IsUtf8 between [] h = IsUtf8-[]
decode_from-IsUtf8 (inside buf left lo hi) [] h = replacement-IsUtf8
decode_from-IsUtf8 between (c ∷ cs) h =
    let writes = decode_byte-Writes between c h in
    IsUtf8-append (decode_byte between c).0 _ writes.0
      (decode_from-IsUtf8 (decode_byte between c).1 cs writes.1)
decode_from-IsUtf8 (inside buf left lo hi) (c ∷ cs) h =
    let writes = decode_byte-Writes (inside buf left lo hi) c h in
    IsUtf8-append (decode_byte (inside buf left lo hi) c).0 _ writes.0
      (decode_from-IsUtf8 (decode_byte (inside buf left lo hi) c).1 cs writes.1)

pub from_utf8_lossy-IsUtf8 : (bytes : Bytes) → IsUtf8 (from_utf8_lossy bytes)
unfolding from_utf8_lossy
from_utf8_lossy-IsUtf8 bytes = decode_from-IsUtf8 between bytes tt
