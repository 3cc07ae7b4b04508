-- ===== src/Tests/Messages.antt =====
-- The messages of the pool: src/handlers.rs on concrete bytes.
use blvm_datum.Common.{◌≡◌, ◌↔◌, refl, [], ◌∷◌, replicate, arith}
use blvm_datum.Error.{ok, codes}
use blvm_datum.Bytes.{Bytes}
use blvm_datum.Utf8.{from_utf8_lossy, encode, encode_char}
use blvm_datum.Utf8.Valid.{IsUtf8, from_utf8_lossy_valid}
use blvm_datum.Handlers.{
  ClientConfig, BlockNotify, parse_client_config, parse_job_validation, parse_share_response,
  parse_block_notify,
}
use blvm_datum.Handlers.Print.{print_client_config, FitsClientConfig}
use blvm_datum.Handlers.Exact.{parse_client_config_iff}
use blvm_datum.Handlers.Safety.{Answers, parsers-Answers}

abbrev config : ClientConfig
config = record { max_jobs = 10; job_timeout = 60; share_difficulty = 1000; params = 7 ∷ [] }

abbrev config_bytes : Bytes
config_bytes = print_client_config config

parse_client_config_iff_example :
    (parse_client_config config_bytes ≡ ok config)
    ↔ ((config_bytes ≡ print_client_config config) × FitsClientConfig config)
parse_client_config_iff_example = parse_client_config_iff config_bytes config (omega arith)

abbrev reason : Bytes
reason = codes "stale"

reason-IsUtf8 : IsUtf8 reason
reason-IsUtf8 = record {
  chars = reason;
  scalars = omega arith;
  encodes = unfold encode encode_char in refl;
}

from_utf8_lossy_valid_example : from_utf8_lossy reason ≡ reason
from_utf8_lossy_valid_example = from_utf8_lossy_valid reason reason-IsUtf8

abbrev notice : BlockNotify
notice = record { height = 840000; hash = replicate 32 1; prev_hash = replicate 32 2 }

parsers-Answers_example :
    Answers 13 reason (parse_client_config reason)
    × Answers 1 reason (parse_job_validation reason)
    × Answers 9 reason (parse_share_response reason)
    × Answers 72 reason (parse_block_notify reason)
parsers-Answers_example = parsers-Answers reason
