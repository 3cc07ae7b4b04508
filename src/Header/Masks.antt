-- ===== src/Header/Masks.antt =====
-- The header's bytes and fields in plain arithmetic.
use Prim.Native.Nat.{bit_and, bit_or}
use blvm_datum.Common.{
  ℕ, ◌+◌, ◌*◌, ◌/◌, ◌%◌, ◌^◌, ◌<◌, ◌≡◌, refl, ap, Bool, true, false, ◌&&◌, arith, ◌==◌, ◌∙◌,
}
use blvm_datum.Common.Bits.{bit_and_mask, bit_or_fields, all_below, all_below_lem}
use blvm_datum.Bytes.{u8, ◌<<<◌}
use blvm_datum.Header.{
  bool_u8, cmd_len_byte0, cmd_len_byte1, reserved_byte2, flags_byte3, unpack_header,
}

pub mask8 : (a : ℕ) → bit_and a 0xFF ≡ a % 256
mask8 a = bit_and_mask 8 a

pub mask6 : (a : ℕ) → bit_and a 0x3F ≡ a % 64
mask6 a = bit_and_mask 6 a

pub mask2 : (a : ℕ) → bit_and a 0x3 ≡ a % 4
mask2 a = bit_and_mask 2 a

pub cmd_len_byte0_lem : (n : ℕ) → cmd_len_byte0 n ≡ n % 256
unfolding cmd_len_byte0
cmd_len_byte0_lem n = omega (arith, mask8 n)

pub cmd_len_byte1_lem : (n : ℕ) → cmd_len_byte1 n ≡ n / 256 % 256
unfolding cmd_len_byte1
cmd_len_byte1_lem n = omega (arith, mask8 (n / 256))

pub reserved_byte2_lem : (n r : ℕ) → reserved_byte2 n r ≡ n / 65536 % 64 + r % 4 * 64
unfolding reserved_byte2
reserved_byte2_lem n r =
    ground
      (arith, mask6 (n / 65536), mask2 r, bit_or_fields 6 (n / 65536 % 64) (r % 4) (omega arith))

or_command : (r cmd : ℕ) → r < 8 → bit_or r (u8 (cmd <<< 3)) ≡ r + cmd % 32 * 8
or_command r cmd h =
    ap (bit_or r) {x = u8 (cmd <<< 3)} {y = cmd % 32 * 2 ^ 3} (omega arith)
    ∙ bit_or_fields 3 r (cmd % 32) (omega arith)

pub flags_byte3_lem :
    (s p c : Bool) (cmd : ℕ)
    → flags_byte3 s p c cmd ≡ bool_u8 s + 2 * bool_u8 p + 4 * bool_u8 c + cmd % 32 * 8
unfolding flags_byte3
flags_byte3_lem true true true cmd = or_command 7 cmd (omega arith)
flags_byte3_lem true true false cmd = or_command 3 cmd (omega arith)
flags_byte3_lem true false true cmd = or_command 5 cmd (omega arith)
flags_byte3_lem true false false cmd = or_command 1 cmd (omega arith)
flags_byte3_lem false true true cmd = or_command 6 cmd (omega arith)
flags_byte3_lem false true false cmd = or_command 2 cmd (omega arith)
flags_byte3_lem false false true cmd = or_command 4 cmd (omega arith)
flags_byte3_lem false false false cmd = or_command 0 cmd (omega arith)

-- The tests of single flags, over all bytes.
flag_table :
    all_below 256 (λ b.
      (bit_and b 0x1 == b % 2)
      && (bit_and b 0x2 == b / 2 % 2 * 2)
      && (bit_and b 0x4 == b / 4 % 2 * 4))
    ≡ true
unfolding all_below
flag_table = refl

pub flag_masks :
    (b : ℕ)
    → b < 256
    → (bit_and b 0x1 ≡ b % 2) × (bit_and b 0x2 ≡ b / 2 % 2 * 2) × (bit_and b 0x4 ≡ b / 4 % 2 * 4)
flag_masks b h = ground (
  arith,
  all_below_lem 256
      (λ b.
        (bit_and b 0x1 == b % 2)
        && (bit_and b 0x2 == b / 2 % 2 * 2)
        && (bit_and b 0x4 == b / 4 % 2 * 4))
      b flag_table h,
)

abbrev pub cmd_len_of : ℕ → ℕ → ℕ → ℕ
cmd_len_of b0 b1 b2 = b0 + b1 * 256 + b2 % 64 * 65536

pub unpack_header_lem :
    (b0 b1 b2 b3 : ℕ)
    → b0 < 256
    → b1 < 256
    → b2 < 256
    → b3 < 256
    → unpack_header b0 b1 b2 b3 ≡ record {
      cmd_len = cmd_len_of b0 b1 b2;
      reserved = b2 / 64;
      is_signed = b3 % 2 == 1;
      is_encrypted_pubkey = b3 / 2 % 2 == 1;
      is_encrypted_channel = b3 / 4 % 2 == 1;
      proto_cmd = b3 / 8;
    }
unfolding unpack_header
unpack_header_lem b0 b1 b2 b3 h0 h1 h2 h3 = ground (
  arith,
  flag_masks b3 h3,
  mask6 b2,
  mask2 (b2 / 64),
  bit_or_fields 8 b0 b1 (omega arith),
  bit_or_fields 16 (b0 + b1 * 256) (b2 % 64) (omega arith),
)
