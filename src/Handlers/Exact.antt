-- ===== src/Handlers/Exact.antt =====
-- What each parser reads off the wire form of a message.
use blvm_datum.Common.{
  ℕ, ◌+◌, ◌≤◌, ◌^◌, ◌<◌, ◌≡◌, ◌↔◌, refl, sym, ap, subst, ◌∙◌, not, ◌==◌, [], ◌∷◌, ◌++◌, length,
  arith, ge→ltb, length-append,
}
use blvm_datum.Error.{ok}
use blvm_datum.Bytes.{
  Bytes, IsBytes, to_le_bytes, from_le_bytes, index, read_u32, read_u64, slice_from, slice,
}
use blvm_datum.Bytes.Endian.{from_le_bytes-to_le_bytes, to_le_bytes-from_le_bytes, from_le_bytes-lt}
use blvm_datum.Handlers.{
  ClientConfig, JobValidationResult, valid, invalid, needs_update, ShareResponse, BlockNotify,
  parse_client_config, parse_job_validation, parse_share_response, parse_block_notify,
}
use blvm_datum.Handlers.Print.{
  print_client_config, FitsClientConfig, print_job_validation, HasReason, print_share_response,
  print_block_notify,
}
use blvm_datum.Utf8.{from_utf8_lossy}
use blvm_datum.Bytes.Slices.{At, At-append, slice-At, read_u32-At}
use blvm_datum.Utf8.Valid.{IsUtf8, from_utf8_lossy_valid}

parse_client_config-bytes :
    (b0 b1 b2 b3 b4 b5 b6 b7 b8 b9 b10 b11 b12 : ℕ) (rest : Bytes)
    → parse_client_config (b0 ∷ b1 ∷ b2 ∷ b3 ∷ b4 ∷ b5 ∷ b6 ∷ b7 ∷ b8 ∷ b9 ∷ b10 ∷ b11 ∷ b12 ∷ rest)
      ≡ ok (record {
        max_jobs = b0;
        job_timeout = from_le_bytes (b1 ∷ b2 ∷ b3 ∷ b4 ∷ []);
        share_difficulty = from_le_bytes (b5 ∷ b6 ∷ b7 ∷ b8 ∷ b9 ∷ b10 ∷ b11 ∷ b12 ∷ []);
        params = rest;
      })
unfolding parse_client_config index read_u32 read_u64 slice_from
parse_client_config-bytes b0 b1 b2 b3 b4 b5 b6 b7 b8 b9 b10 b11 b12 [] = refl
parse_client_config-bytes b0 b1 b2 b3 b4 b5 b6 b7 b8 b9 b10 b11 b12 (c ∷ cs) = ground arith

parse_client_config-print :
    (c : ClientConfig) → FitsClientConfig c → parse_client_config (print_client_config c) ≡ ok c
parse_client_config-print c f =
    parse_client_config-bytes _ _ _ _ _ _ _ _ _ _ _ _ _ c.params
    ∙ rw (
      from_le_bytes-to_le_bytes 4 c.job_timeout (omega arith),
      from_le_bytes-to_le_bytes 8 c.share_difficulty (omega arith),
    )

print-parse_client_config :
    (bytes : Bytes) (c : ClientConfig)
    → IsBytes bytes
    → parse_client_config bytes ≡ ok c
    → (bytes ≡ print_client_config c) × FitsClientConfig c
print-parse_client_config (b0 ∷ b1 ∷ b2 ∷ b3 ∷ b4 ∷ b5 ∷ b6 ∷ b7 ∷ b8 ∷ b9 ∷ b10 ∷ b11 ∷ b12 ∷ rest)
      c h e =
    subst (λ r. (◌≡◌ {A = Bytes} bytes (print_client_config r)) × FitsClientConfig r)
      (cc (e, parse_client_config-bytes b0 b1 b2 b3 b4 b5 b6 b7 b8 b9 b10 b11 b12 rest))
      (
        ap (λ (t : Bytes). b0 ∷ (t ++ (difficulty ++ rest)))
              (sym (to_le_bytes-from_le_bytes timeout timeout_bytes))
            ∙ ap (λ (t : Bytes). b0 ∷ (to_le_bytes 4 (from_le_bytes timeout) ++ (t ++ rest)))
                (sym (to_le_bytes-from_le_bytes difficulty difficulty_bytes)),
        record {
          max_jobs_byte = h.0;
          job_timeout_u32 = omega (arith, from_le_bytes-lt timeout timeout_bytes);
          share_difficulty_u64 = omega (arith, from_le_bytes-lt difficulty difficulty_bytes);
        },
      )
  where
    timeout : Bytes
    timeout = b1 ∷ b2 ∷ b3 ∷ b4 ∷ []

    difficulty : Bytes
    difficulty = b5 ∷ b6 ∷ b7 ∷ b8 ∷ b9 ∷ b10 ∷ b11 ∷ b12 ∷ []

    bytes : Bytes
    bytes = b0 ∷ (timeout ++ (difficulty ++ rest))

    timeout_bytes : IsBytes timeout
    timeout_bytes = omega arith

    difficulty_bytes : IsBytes difficulty
    difficulty_bytes = omega arith
print-parse_client_config _ c h e = unfold parse_client_config in cc

-- On any bytes, the parser returns a configuration exactly if the bytes are its wire form and its
-- fields fit their widths.
pub parse_client_config_iff :
    (bytes : Bytes) (c : ClientConfig)
    → IsBytes bytes
    → (parse_client_config bytes ≡ ok c) ↔ ((bytes ≡ print_client_config c) × FitsClientConfig c)
parse_client_config_iff bytes c h = (
  print-parse_client_config bytes c h,
  λ (e, f). ap parse_client_config e ∙ parse_client_config-print c f,
)

-- A verdict comes back with its job from the wire form, if the reason of a refusal is UTF-8 and
-- not empty.
pub parse_job_validation-print :
    (job_id : ℕ) (result : JobValidationResult)
    → HasReason result
    → parse_job_validation (print_job_validation job_id result) ≡ ok (job_id, result)
unfolding parse_job_validation index slice_from
parse_job_validation-print job_id valid h = refl
parse_job_validation-print job_id (invalid []) h = absurd (h.1 refl)
parse_job_validation-print job_id (invalid (c ∷ cs)) h =
    ground (arith, from_utf8_lossy_valid (c ∷ cs) h.0)
parse_job_validation-print job_id needs_update h = refl

parse_share_response-bytes :
    (first b1 b2 b3 b4 b5 b6 b7 b8 : ℕ) (message : Bytes)
    → parse_share_response (first ∷ b1 ∷ b2 ∷ b3 ∷ b4 ∷ b5 ∷ b6 ∷ b7 ∷ b8 ∷ message)
      ≡ ok (record {
        accepted = not (first == 0);
        difficulty = from_le_bytes (b1 ∷ b2 ∷ b3 ∷ b4 ∷ b5 ∷ b6 ∷ b7 ∷ b8 ∷ []);
        message = from_utf8_lossy message;
      })
unfolding parse_share_response index read_u64 slice_from from_utf8_lossy
parse_share_response-bytes first b1 b2 b3 b4 b5 b6 b7 b8 [] = refl
parse_share_response-bytes first b1 b2 b3 b4 b5 b6 b7 b8 (c ∷ cs) = ground arith

-- A share response with a difficulty below 2 ^ 64 and a message in UTF-8, which may be empty,
-- comes back from its wire form.
pub parse_share_response-print :
    (r : ShareResponse)
    → r.difficulty < 2 ^ 64
    → IsUtf8 r.message
    → parse_share_response (print_share_response r) ≡ ok r
parse_share_response-print r h u =
    parse_share_response-bytes _ _ _ _ _ _ _ _ _ r.message
    ∙ rw (from_le_bytes-to_le_bytes 8 r.difficulty (omega arith), from_utf8_lossy_valid r.message u)
        (ground arith)

-- A notice with a height below 2 ^ 32 and two hashes of 32 bytes comes back from its wire form, if
-- at least four more bytes follow it, which are ignored.
pub parse_block_notify-print :
    (n : BlockNotify) (rest : Bytes)
    → n.height < 2 ^ 32
    → length n.hash ≡ 32
    → length n.prev_hash ≡ 32
    → 4 ≤ length rest
    → parse_block_notify (print_block_notify n rest) ≡ ok n
unfolding parse_block_notify
parse_block_notify-print n rest hh h1 h2 h3 = rw (
  ge→ltb (length whole) 72 (omega (arith, long)),
  read_u32-At whole 0 n.height _ hh (refl, omega arith),
  ap (slice whole 4) {x = 36} {y = 4 + length n.hash} (omega arith),
  slice-At whole 4 n.hash (n.prev_hash ++ rest) at_hash,
  prev_range,
  slice-At whole (4 + length n.hash) n.prev_hash rest
      (At-append whole 4 n.hash (n.prev_hash ++ rest) at_hash),
)
  where
    whole : Bytes
    whole = print_block_notify n rest

    long : length whole ≡ 4 + (length n.hash + (length n.prev_hash + length rest))
    long = omega (arith, length-append n.hash (n.prev_hash ++ rest), length-append n.prev_hash rest)

    prev_range :
        slice whole 36 68 ≡ slice whole (4 + length n.hash) (4 + length n.hash + length n.prev_hash)
    prev_range = rw (h1, h2)

    at_hash : At whole 4 (n.hash ++ (n.prev_hash ++ rest))
    at_hash = (refl, omega arith)
