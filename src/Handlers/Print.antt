-- ===== src/Handlers/Print.antt =====
-- The wire form of each message, written from the layouts that src/handlers.rs reads.
use blvm_datum.Common.{ℕ, ◌^◌, ◌<◌, ◌≢◌, Bool, true, false, [], ◌∷◌, ◌++◌}
use blvm_datum.Bytes.{Bytes, IsByte, to_le_bytes}
use blvm_datum.Handlers.{
  ClientConfig, JobValidationResult, valid, invalid, needs_update, ShareResponse, BlockNotify,
}
use blvm_datum.Utf8.Valid.{IsUtf8}

abbrev pub print_client_config : ClientConfig → Bytes
print_client_config c =
    c.max_jobs ∷ (to_le_bytes 4 c.job_timeout ++ (to_le_bytes 8 c.share_difficulty ++ c.params))

pub record FitsClientConfig (c : ClientConfig) : Type 0 where
  pub max_jobs_byte : IsByte c.max_jobs
  pub job_timeout_u32 : c.job_timeout < 2 ^ 32
  pub share_difficulty_u64 : c.share_difficulty < 2 ^ 64

abbrev pub print_job_validation : ℕ → JobValidationResult → Bytes
print_job_validation job_id valid = job_id ∷ 0 ∷ []
print_job_validation job_id (invalid reason) = job_id ∷ 1 ∷ reason
print_job_validation job_id needs_update = job_id ∷ 2 ∷ []

-- A reason is a text, and an empty one cannot be told from a missing one.
abbrev pub HasReason : JobValidationResult → Type 0
HasReason (invalid reason) = IsUtf8 reason × (reason ≢ [])
HasReason _ = Unit

abbrev bool_byte : Bool → ℕ
bool_byte true = 1
bool_byte false = 0

abbrev pub print_share_response : ShareResponse → Bytes
print_share_response r = bool_byte r.accepted ∷ (to_le_bytes 8 r.difficulty ++ r.message)

-- Four more bytes follow the fields, and then anything.
abbrev pub print_block_notify : BlockNotify → Bytes → Bytes
print_block_notify n rest = to_le_bytes 4 n.height ++ (n.hash ++ (n.prev_hash ++ rest))
