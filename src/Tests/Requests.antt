-- ===== src/Tests/Requests.antt =====
-- Requests: src/datum_protocol.rs with a cryptography that is easy to compute.
use blvm_datum.Common.{ℕ, ◌≡◌, ◌↔◌, true, [], ◌∷◌, arith}
use blvm_datum.Error.{ok}
use blvm_datum.Bytes.{Bytes}
use blvm_datum.Client.Logic.{Meets}
use blvm_datum.Client.Transport.{read_verdict, submit_pow_request}
use blvm_datum.Client.Requests.{Answered, lasting, submit_pow_request-Meets}
use blvm_datum.Client.Verdict.{IsVerdict, read_verdict_iff}
use blvm_datum.Tests.Toy.{toy, online, waiting-IsBytes}

submit_pow_request-Meets_example :
    Meets
      (λ _ d. Answered online d)
      (λ d. lasting d ≡ lasting online)
      (submit_pow_request toy (1 ∷ 2 ∷ []) online).0
      (submit_pow_request toy (1 ∷ 2 ∷ []) online).1
submit_pow_request-Meets_example =
    submit_pow_request-Meets toy (1 ∷ 2 ∷ []) online (omega arith) waiting-IsBytes

read_verdict_iff_example :
    (read_verdict (0x55 ∷ 7 ∷ []) ≡ ok true)
    ↔ ((code : ℕ) × (rest : Bytes) × (0x55 ∷ 7 ∷ [] ≡ code ∷ rest) × IsVerdict code true)
read_verdict_iff_example = read_verdict_iff (0x55 ∷ 7 ∷ []) true
