-- ===== src/Messages.antt =====
-- src/messages.rs: the message header and the protocol's commands.
use blvm_datum.Common.{
  ℕ, ◌≡◌, refl, Bool, true, Option, some, none, ◌==◌, if◌then◌else◌, arith, ==→eq,
}

pub record DatumMessageHeader : Type 0 where
  pub cmd_len : ℕ
  pub reserved : ℕ
  pub is_signed : Bool
  pub is_encrypted_pubkey : Bool
  pub is_encrypted_channel : Bool
  pub proto_cmd : ℕ

pub data DatumCommand : Type 0 where
  handshake fetch_coinbaser submit_pow job_update : DatumCommand
  client_config job_validation share_response block_notify : DatumCommand

-- `command as u8`
unfoldable pub to_u8 : DatumCommand → ℕ
to_u8 handshake = 0
to_u8 fetch_coinbaser = 0x11
to_u8 submit_pow = 2
to_u8 job_update = 3
to_u8 client_config = 0x99
to_u8 job_validation = 0x50
to_u8 share_response = 0x8F
to_u8 block_notify = 0xF9

-- `command != other`, from the derived `PartialEq`, compares the discriminants.
unfoldable pub same_command : DatumCommand → DatumCommand → Bool
unfolding to_u8
same_command c d = to_u8 c == to_u8 d

-- `DatumCommand::from_u8`
unfoldable pub from_u8 : ℕ → Option DatumCommand
from_u8 v =
    if v == 0
    then some handshake
    else if v == 0x11
    then some fetch_coinbaser
    else if v == 2
    then some submit_pow
    else if v == 3
    then some job_update
    else if v == 0x99
    then some client_config
    else if v == 0x50
    then some job_validation
    else if v == 0x8F
    then some share_response
    else if v == 0xF9
    then some block_notify
    else none

-- The commands of five bits, the only ones that a header can carry.
pub data IsNarrow : DatumCommand → Type 0 where
  narrow_handshake : IsNarrow handshake
  narrow_fetch_coinbaser : IsNarrow fetch_coinbaser
  narrow_submit_pow : IsNarrow submit_pow
  narrow_job_update : IsNarrow job_update

-- The command that a byte decodes to is the one with that discriminant.
pub from_u8_iff : (v : ℕ) (c : DatumCommand) → from_u8 v ≡ some c → to_u8 c ≡ v
unfolding from_u8 to_u8
from_u8_iff v c h = ground arith

pub from_u8-to_u8 : (c : DatumCommand) → from_u8 (to_u8 c) ≡ some c
unfolding from_u8 to_u8
from_u8-to_u8 handshake = refl
from_u8-to_u8 _ = refl

pub same_command-eq : (c d : DatumCommand) → same_command c d ≡ true → c ≡ d
unfolding same_command
same_command-eq c d h = cc (from_u8-to_u8 c, from_u8-to_u8 d, ==→eq (to_u8 c) (to_u8 d) h)
