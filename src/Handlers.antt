-- ===== src/Handlers.antt =====
-- src/handlers.rs: the messages that a pool sends, their parsers and the default handler.
pub mod Print
pub mod Exact
pub mod Safety
use blvm_datum.Common.{
  ℕ, ◌+◌, Bool, true, false, not, List, [], ◌∷◌, ltb, ◌==◌, if◌then◌else◌, length,
}
use blvm_datum.Error.{Result, ok, err, DatumError, protocol_error, Text, text, fail_if, ◌>>=◌, ◌>>◌}
use blvm_datum.Bytes.{Bytes, index, slice, slice_from, read_u32, read_u64}
use blvm_datum.Messages.{DatumCommand, client_config, job_validation, share_response, block_notify}
use blvm_datum.Utf8.{from_utf8_lossy}

pub record ClientConfig : Type 0 where
  pub max_jobs : ℕ
  pub job_timeout : ℕ
  pub share_difficulty : ℕ
  pub params : Bytes

pub data JobValidationResult : Type 0 where
  valid : JobValidationResult
  invalid : Text → JobValidationResult
  needs_update : JobValidationResult

pub record ShareResponse : Type 0 where
  pub accepted : Bool
  pub difficulty : ℕ
  pub message : Text

pub record BlockNotify : Type 0 where
  pub height : ℕ
  pub hash : Bytes
  pub prev_hash : Bytes

-- The trait. A handler's own state and its log lines are not modelled: a call gives its result.
pub record MessageHandler : Type 0 where
  pub handle_client_config : ClientConfig → Result (Unit {0})
  pub handle_job_validation : ℕ → JobValidationResult → Result (Unit {0})
  pub handle_share_response : ShareResponse → Result (Unit {0})
  pub handle_block_notify : BlockNotify → Result (Unit {0})

-- The trait's default methods, which only write to the log.
unfoldable pub default_message_handler : MessageHandler
default_message_handler = record {
  handle_client_config = λ config. ok tt;
  handle_job_validation = λ job_id result. ok tt;
  handle_share_response = λ response. ok tt;
  handle_block_notify = λ notify. ok tt;
}

unfoldable pub parse_client_config : Bytes → Result ClientConfig
parse_client_config bytes = do
  fail_if (ltb (length bytes) 13) (protocol_error (text "Client config message too short"))
  max_jobs ← index bytes 0
  job_timeout ← read_u32 bytes 1
  share_difficulty ← read_u64 bytes 5
  params ← if ltb 13 (length bytes) then slice_from bytes 13 else ok []
  ok (record {
    max_jobs = max_jobs;
    job_timeout = job_timeout;
    share_difficulty = share_difficulty;
    params = params;
  })

-- The reason behind status 1, which starts at the third byte.
unfoldable pub invalid_reason : Bytes → Result Text
invalid_reason bytes =
    if ltb 2 (length bytes)
    then (slice_from bytes 2 >>= λ rest. ok (from_utf8_lossy rest))
    else ok (text "Unknown error")

-- `match data[1]`
unfoldable pub status_result : Bytes → ℕ → Result JobValidationResult
unfolding invalid_reason
status_result bytes status =
    if status == 0
    then ok valid
    else if status == 1
    then (invalid_reason bytes >>= λ reason. ok (invalid reason))
    else if status == 2
    then ok needs_update
    else ok (invalid (text "Unknown status code"))

unfoldable pub parse_job_validation : Bytes → Result (ℕ × JobValidationResult)
unfolding status_result
parse_job_validation bytes = do
  fail_if (length bytes == 0) (protocol_error (text "Job validation message empty"))
  job_id ← index bytes 0
  result ← if ltb 1 (length bytes) then (index bytes 1 >>= status_result bytes) else ok valid
  ok (job_id, result)

unfoldable pub parse_share_response : Bytes → Result ShareResponse
parse_share_response bytes = do
  fail_if (ltb (length bytes) 9) (protocol_error (text "Share response message too short"))
  first ← index bytes 0
  difficulty ← read_u64 bytes 1
  message ←
      if ltb 9 (length bytes)
      then (slice_from bytes 9 >>= λ rest. ok (from_utf8_lossy rest))
      else ok []
  ok (record { accepted = not (first == 0); difficulty = difficulty; message = message })

unfoldable pub parse_block_notify : Bytes → Result BlockNotify
parse_block_notify bytes = do
  fail_if (ltb (length bytes) 72) (protocol_error (text "Block notify message too short"))
  height ← read_u32 bytes 0
  hash ← slice bytes 4 36
  prev_hash ← slice bytes 36 68
  ok (record { height = height; hash = hash; prev_hash = prev_hash })

-- `match command` of `handle_protocol_message` in src/datum_protocol.rs
unfoldable pub dispatch : MessageHandler → DatumCommand → Bytes → Result (Unit {0})
dispatch handler client_config bytes = do
  config ← parse_client_config bytes
  handler.handle_client_config config
dispatch handler job_validation bytes = do
  (job_id, result) ← parse_job_validation bytes
  handler.handle_job_validation job_id result
dispatch handler share_response bytes = do
  response ← parse_share_response bytes
  handler.handle_share_response response
dispatch handler block_notify bytes = do
  notify ← parse_block_notify bytes
  handler.handle_block_notify notify
dispatch handler _ bytes = ok tt
