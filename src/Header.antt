-- ===== src/Header.antt =====
-- src/datum_protocol.rs: the packed four-byte header, and the XOR that hides it.
pub mod Masks
pub mod RoundTrip
pub mod Commands
pub mod Obfuscation
use Prim.Native.Nat.{bit_and, bit_or, bit_xor}
use blvm_datum.Common.{
  ℕ, ◌+◌, ◌*◌, ◌/◌, ◌%◌, ◌^◌, Bool, true, false, not, List, [], ◌∷◌, length, ltb, ◌==◌,
}
use blvm_datum.Error.{Result, ok, err, DatumError, protocol_error, text, fail_if, ◌>>=◌, ◌>>◌}
use blvm_datum.Bytes.{Bytes, u8, ◌<<<◌, ◌>>>◌, index, from_le_bytes}
use blvm_datum.Messages.{DatumMessageHeader}

-- `b as u8`
abbrev pub bool_u8 : Bool → ℕ
bool_u8 true = 1
bool_u8 false = 0

-- The three bytes that are written first, and the fourth.
unfoldable pub cmd_len_byte0 : ℕ → ℕ
cmd_len_byte0 cmd_len = u8 (bit_and cmd_len 0xFF)

unfoldable pub cmd_len_byte1 : ℕ → ℕ
cmd_len_byte1 cmd_len = u8 (bit_and (cmd_len >>> 8) 0xFF)

unfoldable pub reserved_byte2 : ℕ → ℕ → ℕ
reserved_byte2 cmd_len reserved =
    bit_or (u8 (bit_and (cmd_len >>> 16) 0x3F)) (u8 (bit_and reserved 0x3 <<< 6))

unfoldable pub flags_byte3 : Bool → Bool → Bool → ℕ → ℕ
flags_byte3 signed pubkey channel proto_cmd =
    bit_or
      (bit_or (bit_or (bool_u8 signed) (u8 (bool_u8 pubkey <<< 1))) (u8 (bool_u8 channel <<< 2)))
      (u8 (proto_cmd <<< 3))

-- `serialize_header_static`
unfoldable pub serialize_header : DatumMessageHeader → Result Bytes
serialize_header h = ok (
    cmd_len_byte0 h.cmd_len
    ∷ cmd_len_byte1 h.cmd_len
    ∷ reserved_byte2 h.cmd_len h.reserved
    ∷ flags_byte3 h.is_signed h.is_encrypted_pubkey h.is_encrypted_channel h.proto_cmd
    ∷ [])

-- The fields of four bytes.
unfoldable pub unpack_header : ℕ → ℕ → ℕ → ℕ → DatumMessageHeader
unpack_header b0 b1 b2 b3 = record {
  cmd_len = bit_or (bit_or b0 (b1 <<< 8)) (bit_and b2 0x3F <<< 16);
  reserved = bit_and (b2 >>> 6) 0x3;
  is_signed = not (bit_and b3 0x1 == 0);
  is_encrypted_pubkey = not (bit_and b3 0x2 == 0);
  is_encrypted_channel = not (bit_and b3 0x4 == 0);
  proto_cmd = b3 >>> 3;
}

-- `deserialize_header_static`
unfoldable pub deserialize_header : Bytes → Result DatumMessageHeader
unfolding index
deserialize_header bytes = do
  fail_if (ltb (length bytes) 4) (protocol_error (text "Header too short"))
  b0 ← index bytes 0
  b1 ← index bytes 1
  b2 ← index bytes 2
  b3 ← index bytes 3
  ok (unpack_header b0 b1 b2 b3)

-- `*byte ^= ((xor_key >> (i * 8)) & 0xFF) as u8`
unfoldable pub xor_byte : ℕ → ℕ → ℕ → ℕ
xor_byte xor_key i byte = bit_xor byte (u8 (bit_and (xor_key >>> (i * 8)) 0xFF))

-- The loop over `result.iter_mut().take(n).enumerate()`, from index `i` on.
unfoldable pub xor_prefix : ℕ → ℕ → ℕ → Bytes → Bytes
xor_prefix xor_key i ℕ.zero bytes = bytes
xor_prefix xor_key i (ℕ.suc n) [] = []
xor_prefix xor_key i (ℕ.suc n) (b ∷ bs) = xor_byte xor_key i b ∷ xor_prefix xor_key (i + 1) n bs

-- `apply_header_xor` as a function of the key: the bytes that it returns, and the key that it
-- leaves in `self.header_xor_key`.
unfoldable pub apply_header_xor : Bytes → ℕ → Result (Bytes × ℕ)
unfolding index
apply_header_xor header_bytes xor_key = do
  fail_if (ltb (length header_bytes) 4) (protocol_error (text "Header too short for XOR"))
  let result = xor_prefix xor_key 0 4 header_bytes
  r0 ← index result 0
  r1 ← index result 1
  r2 ← index result 2
  r3 ← index result 3
  ok (result, bit_xor xor_key (from_le_bytes (r0 ∷ r1 ∷ r2 ∷ r3 ∷ [])))
