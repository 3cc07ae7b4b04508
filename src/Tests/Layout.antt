-- ===== src/Tests/Layout.antt =====
-- Headers: src/datum_protocol.rs on concrete bytes.
use blvm_datum.Common.{ℕ, ◌≡◌, ◌↔◌, refl, true, false, none, [], ◌∷◌, arith}
use blvm_datum.Error.{ok, ◌>>=◌}
use blvm_datum.Bytes.{Bytes, IsBytes}
use blvm_datum.Messages.{DatumMessageHeader, job_validation, to_u8}
use blvm_datum.Header.{
  serialize_header, deserialize_header, apply_header_xor, cmd_len_byte0, cmd_len_byte1,
  reserved_byte2, flags_byte3, xor_byte, xor_prefix,
}
use blvm_datum.Header.RoundTrip.{truncate_header, deserialize-serialize, serialize-deserialize}
use blvm_datum.Header.Commands.{received_command, received_command_lem}
use blvm_datum.Header.Obfuscation.{keys_agree_iff}

-- The header of `test_header_roundtrip`, with one command that does not fit.
abbrev wide_header : DatumMessageHeader
wide_header = record {
  cmd_len = 4194305;
  reserved = 5;
  is_signed = true;
  is_encrypted_pubkey = false;
  is_encrypted_channel = true;
  proto_cmd = 0x50;
}

serialize_wide : serialize_header wide_header ≡ ok (1 ∷ 0 ∷ 64 ∷ 133 ∷ [])
serialize_wide =
    unfold serialize_header cmd_len_byte0 cmd_len_byte1 reserved_byte2 flags_byte3 in refl

deserialize-serialize_example :
    (serialize_header wide_header >>= deserialize_header) ≡ ok (truncate_header wide_header)
deserialize-serialize_example = deserialize-serialize wide_header

abbrev header_bytes : Bytes
header_bytes = 10 ∷ 0 ∷ 64 ∷ 141 ∷ []

header_bytes-IsBytes : IsBytes header_bytes
header_bytes-IsBytes = omega arith

serialize-deserialize_example :
    (deserialize_header header_bytes >>= serialize_header) ≡ ok header_bytes
serialize-deserialize_example =
    serialize-deserialize header_bytes header_bytes-IsBytes (omega arith)

received_command_example : received_command wide_header ≡ ok none
received_command_example = received_command_lem job_validation wide_header (unfold to_u8 in refl)

abbrev header_key : ℕ
header_key = 0x01020304

hidden_run : apply_header_xor header_bytes header_key ≡ ok (14 ∷ 3 ∷ 66 ∷ 140 ∷ [], 0x8D40000A)
hidden_run = unfold apply_header_xor xor_prefix xor_byte in refl

shown_run : apply_header_xor (14 ∷ 3 ∷ 66 ∷ 140 ∷ []) header_key ≡ ok (header_bytes, 0x8C42030E)
shown_run = unfold apply_header_xor xor_prefix xor_byte in refl

abbrev hider_key : ℕ
hider_key = 0x8D40000A

abbrev shower_key : ℕ
shower_key = 0x8C42030E

keys_agree_iff_example : (hider_key ≡ shower_key) ↔ (header_key ≡ 0)
keys_agree_iff_example =
    keys_agree_iff header_key header_bytes header_bytes-IsBytes (omega arith) (omega arith)
      (14 ∷ 3 ∷ 66 ∷ 140 ∷ []) hider_key shower_key hidden_run shown_run
