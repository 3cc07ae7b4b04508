-- ===== src/Header/RoundTrip.antt =====
-- Packing and unpacking a header are inverse, up to the widths of the fields.
use blvm_datum.Common.{
  ◌+◌, ◌*◌, ◌/◌, ◌%◌, ◌^◌, ◌≤◌, ◌<◌, ◌≡◌, refl, ap, ◌∙◌, [], ◌∷◌, length, take, arith, ge→ltb,
}
use blvm_datum.Error.Ensures.{Ensures, holds, failed}
use blvm_datum.Error.{ok, ◌>>=◌}
use blvm_datum.Bytes.{Bytes, IsBytes}
use blvm_datum.Messages.{DatumMessageHeader}
use blvm_datum.Header.{serialize_header, deserialize_header, bool_u8}
use blvm_datum.Header.Masks.{
  cmd_len_byte0_lem, cmd_len_byte1_lem, reserved_byte2_lem, flags_byte3_lem, unpack_header_lem,
}

-- What the format keeps of a header: 22 bits of length, 2 of `reserved` and 5 of the command.
abbrev pub truncate_header : DatumMessageHeader → DatumMessageHeader
truncate_header h = record h {
  cmd_len = h.cmd_len % 2 ^ 22;
  reserved = h.reserved % 4;
  proto_cmd = h.proto_cmd % 32;
}

pub record FitsHeader (h : DatumMessageHeader) : Type 0 where
  pub cmd_len_fits : h.cmd_len < 2 ^ 22
  pub reserved_fits : h.reserved < 4
  pub proto_cmd_fits : h.proto_cmd < 32

truncate_header-FitsHeader : (h : DatumMessageHeader) → FitsHeader (truncate_header h)
truncate_header-FitsHeader h = omega arith

pub truncate_header_lem : (h : DatumMessageHeader) → FitsHeader h → truncate_header h ≡ h
truncate_header_lem h f = ground arith

module _ (h : DatumMessageHeader) where
  pub packed : Bytes
  packed =
      h.cmd_len % 256
      ∷ h.cmd_len / 256 % 256
      ∷ (h.cmd_len / 65536 % 64 + h.reserved % 4 * 64)
      ∷ (bool_u8 h.is_signed
          + 2 * bool_u8 h.is_encrypted_pubkey
          + 4 * bool_u8 h.is_encrypted_channel
          + h.proto_cmd % 32 * 8)
      ∷ []

  pub serialize_header-packed : serialize_header h ≡ ok packed
  unfolding serialize_header packed
  serialize_header-packed = rw (
    cmd_len_byte0_lem h.cmd_len,
    cmd_len_byte1_lem h.cmd_len,
    reserved_byte2_lem h.cmd_len h.reserved,
    flags_byte3_lem h.is_signed h.is_encrypted_pubkey h.is_encrypted_channel h.proto_cmd,
  )

  pub length-packed : length packed ≡ 4
  unfolding packed
  length-packed = refl

  pub take-packed : take 4 packed ≡ packed
  unfolding packed
  take-packed = refl

  pub packed-IsBytes : IsBytes packed
  unfolding packed
  packed-IsBytes = ground arith

  pub deserialize_header-packed : deserialize_header packed ≡ ok (truncate_header h)
  unfolding deserialize_header packed
  deserialize_header-packed = ap ok (
      unpack_header_lem (h.cmd_len % 256) (h.cmd_len / 256 % 256)
        (h.cmd_len / 65536 % 64 + h.reserved % 4 * 64) _ (omega arith) (omega arith) (omega arith)
        (ground arith)
      ∙ ground arith)

-- Any header that is written and read back keeps the low 22 bits of its length, the low 2 of
-- `reserved`, the low 5 of its command, and its flags.
pub deserialize-serialize :
    (h : DatumMessageHeader) → (serialize_header h >>= deserialize_header) ≡ ok (truncate_header h)
deserialize-serialize h = rw (serialize_header-packed h) (deserialize_header-packed h)

-- If at least four bytes are read as a header, then it is written back as the first four of them.
pub serialize-deserialize :
    (bytes : Bytes)
    → IsBytes bytes
    → 4 ≤ length bytes
    → (deserialize_header bytes >>= serialize_header) ≡ ok (take 4 bytes)
unfolding deserialize_header
serialize-deserialize (b0 ∷ b1 ∷ b2 ∷ b3 ∷ rest) (h0, (h1, (h2, (h3, hs)))) le =
    rw (ge→ltb _ 4 le, unpack_header_lem b0 b1 b2 b3 h0 h1 h2 h3)
      (serialize_header-packed _ ∙ unfold packed in ground arith)
serialize-deserialize _ h le = absurd (omega arith)

-- What is read as a header fits the widths of its fields.
pub deserialize_header-Ensures :
    (bytes : Bytes) → IsBytes bytes → Ensures FitsHeader (deserialize_header bytes)
unfolding deserialize_header
deserialize_header-Ensures (b0 ∷ b1 ∷ b2 ∷ b3 ∷ rest) (h0, (h1, (h2, (h3, hs)))) =
    rw
      (
        ge→ltb (length (b0 ∷ b1 ∷ b2 ∷ b3 ∷ rest)) 4 (omega arith),
        unpack_header_lem b0 b1 b2 b3 h0 h1 h2 h3,
      )
      (holds (omega arith))
deserialize_header-Ensures _ h = failed
