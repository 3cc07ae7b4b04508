-- ===== src/Handlers/Safety.antt =====
-- No parser of src/handlers.rs indexes out of bounds, and each refuses only what is too short.
use blvm_datum.Common.{
  Bool, ℕ, suc, ◌≤◌, ◌<◌, ◌≡◌, ◌⊎◌, inl, inr, refl, true, false, [], ◌∷◌, length, arith, ltb, ◌==◌,
  Bool-cases, ltb→lt, ltb→ge, if◌then◌else◌,
}
use blvm_datum.Error.{Result, ok, DatumError, fail_if, Fails, Returns, bind-Returns, ◌>>=◌, ◌>>◌}
use blvm_datum.Bytes.{Bytes, slice_from}
use blvm_datum.Bytes.Slices.{index-lt, read_u32-le, read_u64-le, slice_from-le, slice-le}
use blvm_datum.Handlers.{
  parse_client_config, parse_job_validation, parse_share_response, parse_block_notify,
  status_result, invalid_reason, valid,
}

-- A value for `least` bytes and more, an error for fewer, and never a panic.
abbrev pub Answers {ℓ} : {A : Type ℓ} → ℕ → Bytes → Result A → Type ℓ
Answers {A = A} least bytes r =
    ((least ≤ length bytes) × ((a : A) × (r ≡ ok a))) ⊎ ((length bytes < least) × Fails r)

module _ {ℓ} {A : Type ℓ} where
  -- Behind a test of the length, the rest of the parser runs on input that is long enough.
  guarded :
      (least : ℕ) (bytes : Bytes) (e : DatumError) (body : Result A)
      → (least ≤ length bytes → (a : A) × (body ≡ ok a))
      → Answers least bytes (fail_if (ltb (length bytes) least) e >> body)
  guarded least bytes e body h = elim (Bool-cases (ltb (length bytes) least)) [
    | inl short ↦ rw short (inr (ltb→lt _ _ short, (e, refl)))
    | inr long ↦
        rw long
          ((let long_enough = ltb→ge (length bytes) least long in inl (long_enough, h long_enough)))
  ]

  if-Returns :
      (b : Bool) (x y : Result A)
      → (b ≡ true → Returns x)
      → Returns y
      → Returns (if b then x else y)
  if-Returns true x y hx hy = hx refl
  if-Returns false x y hx hy = hy

  -- The tail of a message, if there is one.
  tail-Returns :
      (n : ℕ) (bytes : Bytes) (f : Bytes → Result A) (other : Result A)
      → ((rest : Bytes) → Returns (f rest))
      → Returns other
      → Returns (if ltb n (length bytes) then (slice_from bytes n >>= f) else other)
  tail-Returns n bytes f other hf ho =
      if-Returns (ltb n (length bytes)) _ _
        (λ more.
          bind-Returns (slice_from bytes n) f
            (_, slice_from-le bytes n (omega (arith, ltb→lt _ _ more))) hf)
        ho

parse_client_config-Answers : (bytes : Bytes) → Answers 13 bytes (parse_client_config bytes)
unfolding parse_client_config
parse_client_config-Answers bytes = guarded 13 bytes _ _ λ h.
    bind-Returns _ _ (index-lt bytes 0 (omega arith)) λ b0.
      bind-Returns _ _ (_, read_u32-le bytes 1 (omega arith))
        λ timeout.
          bind-Returns _ _ (_, read_u64-le bytes 5 (omega arith))
            λ difficulty.
              bind-Returns _ _
                (if-Returns (ltb 13 (length bytes)) _ _ (λ more. (_, slice_from-le bytes 13 h))
                  ([], refl))
                λ params. (_, refl)

parse_share_response-Answers : (bytes : Bytes) → Answers 9 bytes (parse_share_response bytes)
unfolding parse_share_response
parse_share_response-Answers bytes = guarded 9 bytes _ _ λ h.
    bind-Returns _ _ (index-lt bytes 0 (omega arith)) λ first.
      bind-Returns _ _ (_, read_u64-le bytes 1 (omega arith))
        λ difficulty.
          bind-Returns _ _ (tail-Returns 9 bytes _ _ (λ rest. (_, refl)) ([], refl))
            λ message. (_, refl)

parse_block_notify-Answers : (bytes : Bytes) → Answers 72 bytes (parse_block_notify bytes)
unfolding parse_block_notify
parse_block_notify-Answers bytes = guarded 72 bytes _ _ λ h.
    bind-Returns _ _ (_, read_u32-le bytes 0 (omega arith))
      λ height.
        bind-Returns _ _ (_, slice-le bytes 4 36 (omega arith) (omega arith))
          λ hash.
            bind-Returns _ _ (_, slice-le bytes 36 68 (omega arith) (omega arith))
              λ prev_hash. (_, refl)

invalid_reason-Returns : (bytes : Bytes) → Returns (invalid_reason bytes)
unfolding invalid_reason
invalid_reason-Returns bytes = tail-Returns 2 bytes _ _ (λ rest. (_, refl)) (_, refl)

status_result-Returns : (bytes : Bytes) (status : ℕ) → Returns (status_result bytes status)
unfolding status_result
status_result-Returns bytes status =
    if-Returns (status == 0) _ _ (λ e. (valid, refl))
      (if-Returns (status == 1) _ _
        (λ e. bind-Returns _ _ (invalid_reason-Returns bytes) λ reason. (_, refl))
        (if-Returns (status == 2) _ _ (λ e. (_, refl)) (_, refl)))

not_empty : (rest : Bytes) → (suc (length rest) == 0) ≡ false
not_empty rest = ground arith

parse_job_validation-Answers : (bytes : Bytes) → Answers 1 bytes (parse_job_validation bytes)
unfolding parse_job_validation
parse_job_validation-Answers [] = inr (omega arith, (_, refl))
parse_job_validation-Answers (job_id ∷ rest) = inl (
  omega arith,
  rw (not_empty rest) (
      bind-Returns _ _ (index-lt (job_id ∷ rest) 0 (omega arith)) λ id.
        bind-Returns _ _
          (if-Returns (ltb 1 (length (job_id ∷ rest))) _ _
            (λ more.
              bind-Returns _ _ (index-lt (job_id ∷ rest) 1 (ltb→lt _ _ more))
                (status_result-Returns (job_id ∷ rest)))
            (valid, refl))
          λ result. (_, refl)),
)

-- On any input the four parsers of messages do not panic: they return a value from 13, 1, 9 and 72
-- bytes on, and an error below that.
pub parsers-Answers :
    (bytes : Bytes)
    → Answers 13 bytes (parse_client_config bytes)
      × Answers 1 bytes (parse_job_validation bytes)
      × Answers 9 bytes (parse_share_response bytes)
      × Answers 72 bytes (parse_block_notify bytes)
parsers-Answers bytes = (
  parse_client_config-Answers bytes,
  parse_job_validation-Answers bytes,
  parse_share_response-Answers bytes,
  parse_block_notify-Answers bytes,
)
