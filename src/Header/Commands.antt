-- ===== src/Header/Commands.antt =====
-- Which commands survive the five bits that the header gives them.
use blvm_datum.Common.{ℕ, ◌%◌, ◌<◌, ◌≡◌, refl, ap, ◌∙◌, Option, none, some, arith}
use blvm_datum.Error.{Result, ok, ◌>>=◌}
use blvm_datum.Messages.{
  DatumMessageHeader, DatumCommand, handshake, fetch_coinbaser, submit_pow, job_update, to_u8,
  from_u8, IsNarrow, narrow_handshake, narrow_fetch_coinbaser, narrow_submit_pow, narrow_job_update,
}
use blvm_datum.Header.{serialize_header, deserialize_header}
use blvm_datum.Header.RoundTrip.{deserialize-serialize}

-- The command that the other end makes of a header.
abbrev pub received_command : DatumMessageHeader → Result (Option DatumCommand)
received_command h = serialize_header h >>= deserialize_header >>= λ r. ok (from_u8 r.proto_cmd)

abbrev pub narrow_part : DatumCommand → Option DatumCommand
narrow_part handshake = some handshake
narrow_part fetch_coinbaser = some fetch_coinbaser
narrow_part submit_pow = some submit_pow
narrow_part job_update = some job_update
narrow_part _ = none

-- Of a header that carries a command, the other end makes that command if it is handshake,
-- fetch_coinbaser, submit_pow or job_update, and no command if it is one of the other four.
pub received_command_lem :
    (c : DatumCommand) (h : DatumMessageHeader)
    → h.proto_cmd ≡ to_u8 c
    → received_command h ≡ ok (narrow_part c)
received_command_lem c h e =
    rw (deserialize-serialize h) (ap (λ (t : ℕ). ok (from_u8 (t % 32))) e ∙ narrow c)
  where
    narrow : (c : DatumCommand) → ok (from_u8 (to_u8 c % 32)) ≡ ok (narrow_part c)
    narrow handshake = unfold from_u8 to_u8 in refl
    narrow _ = unfold from_u8 to_u8 in refl

-- What five bits decode to is one of the four narrow commands.
pub from_u8-IsNarrow : (v : ℕ) (c : DatumCommand) → v < 32 → from_u8 v ≡ some c → IsNarrow c
unfolding from_u8
from_u8-IsNarrow v handshake h e = narrow_handshake
from_u8-IsNarrow v fetch_coinbaser h e = narrow_fetch_coinbaser
from_u8-IsNarrow v submit_pow h e = narrow_submit_pow
from_u8-IsNarrow v job_update h e = narrow_job_update
from_u8-IsNarrow v _ h e = absurd (ground arith)
