-- ===== src/Server/Loop/Termination.antt =====
-- The receive loop ends, and where.
use blvm_datum.Common.{
  ℕ, zero, suc, ◌+◌, ◌*◌, ◌^◌, ◌≤◌, ◌<◌, ◌≡◌, ◌⊎◌, refl, ap, ◌∙◌, inl, inr, ◌∷◌, length, All, arith,
}
use blvm_datum.Error.{Result, DatumError}
use blvm_datum.Bytes.{Bytes, u64}
use blvm_datum.Crypto.{Crypto}
use blvm_datum.Messages.{DatumCommand, IsNarrow}
use blvm_datum.Client.{Client}
use blvm_datum.Client.Logic.{Meets, returns, fails}
use blvm_datum.Client.Transport.{receive_message}
use blvm_datum.Client.Receive.{
  ReadsBytes, unread, session_of, Received, Attempted, receive_message_internal-Meets,
}
use blvm_datum.Client.Dispatch.{receive_message-internal}
use blvm_datum.Server.Loop.{stopped, Listened, next_round, receive_rounds, receive_loop}

-- A loop that has ended: by an error of its last receive, after commands of which each has taken at
-- least four bytes and one step of the read counter.
pub record HasEnded (c : Client) (l : Listened) : Type 0 where
  pub cause : DatumError
  pub by_error : l.end ≡ stopped cause
  pub narrow : All IsNarrow l.heard
  pub session : session_of l.client ≡ session_of c
  pub counter :
      (l.client.recv_nonce ≡ u64 (c.recv_nonce + length l.heard))
      ⊎ (l.client.recv_nonce ≡ u64 (c.recv_nonce + length l.heard + 1))
  pub readable : ReadsBytes l.client.stream
  pub consumed : unread l.client.stream + 4 * length l.heard ≤ unread c.stream

-- The counter of a loop that has heard `n` commands and one that may have failed.
counted :
    (c d n e : ℕ)
    → d ≡ u64 (c + 1)
    → (e ≡ u64 (d + n)) ⊎ (e ≡ u64 (d + n + 1))
    → (e ≡ u64 (c + suc n)) ⊎ (e ≡ u64 (c + suc n + 1))
counted c d n e step (inl h) = inl (omega (arith, step, h))
counted c d n e step (inr h) = inr (omega (arith, step, h))

first_counted :
    (c e : ℕ) → c < 2 ^ 64 → (e ≡ c) ⊎ (e ≡ u64 (c + 1)) → (e ≡ u64 (c + 0)) ⊎ (e ≡ u64 (c + 0 + 1))
first_counted c e fits (inl h) = inl (omega (arith, h))
first_counted c e fits (inr h) = inr (omega (arith, h))

-- One round, and a rest that ends on what the round leaves to be read.
next_round-HasEnded :
    (c : Client) (rest : Client → Listened) (r : Result (DatumCommand × Bytes)) (d : Client)
    → c.recv_nonce < 2 ^ 64
    → ((e : Client)
        → ReadsBytes e.stream
        → e.recv_nonce < 2 ^ 64
        → unread e.stream + 4 ≤ unread c.stream
        → HasEnded e (rest e))
    → Meets (Received c) (Attempted c) r d
    → HasEnded c (next_round r d rest)
next_round-HasEnded c rest _ d fits ends (fails {e} (same, step, reads, less, _, _)) = record {
  cause = e;
  by_error = refl;
  narrow = tt;
  session = same;
  counter = first_counted c.recv_nonce d.recv_nonce fits step;
  readable = reads;
  consumed = omega (arith, less);
}
next_round-HasEnded c rest _ d fits ends (returns {a} (narrow, same, step, reads, less, _, _)) =
    let after = ends d reads (omega (arith, step)) less in
    record {
      cause = after.cause;
      by_error = after.by_error;
      narrow = (narrow, after.narrow);
      session = after.session ∙ same;
      counter =
          counted c.recv_nonce d.recv_nonce (length (rest d).heard) (rest d).client.recv_nonce step
            after.counter;
      readable = after.readable;
      consumed = omega (arith, less, after.consumed);
    }

next_round-same :
    (c : Client) (rest other : Client → Listened) (r : Result (DatumCommand × Bytes)) (d : Client)
    → ((e : Client)
        → ReadsBytes e.stream
        → unread e.stream + 4 ≤ unread c.stream
        → rest e ≡ other e)
    → Meets (Received c) (Attempted c) r d
    → next_round r d rest ≡ next_round r d other
next_round-same c rest other _ d same (fails _) = refl
next_round-same c rest other _ d same (returns {a} (_, _, _, reads, less, _, _)) =
    ap (λ (l : Listened). record l { heard = a.0 ∷ l.heard }) (same d reads less)

module _ (crypto : Crypto) where
  pub receive_message-Meets :
      (c : Client)
      → ReadsBytes c.stream
      → Meets (Received c) (Attempted c) (receive_message crypto c).0 (receive_message crypto c).1
  receive_message-Meets c h =
      rw (receive_message-internal crypto c h) (receive_message_internal-Meets crypto c h)

  receive_rounds-HasEnded :
      (fuel : ℕ) (c : Client)
      → ReadsBytes c.stream
      → c.recv_nonce < 2 ^ 64
      → unread c.stream < 4 * fuel
      → HasEnded c (receive_rounds crypto fuel c)
  unfolding receive_rounds
  receive_rounds-HasEnded zero c h counter enough = absurd (omega arith)
  receive_rounds-HasEnded (suc fuel) c h counter enough =
      next_round-HasEnded c (receive_rounds crypto fuel) (receive_message crypto c).0
        (receive_message crypto c).1 counter
        (λ e reads fits less. receive_rounds-HasEnded fuel e reads fits (omega (arith, less)))
        (receive_message-Meets c h)

  receive_rounds-more :
      (fuel more : ℕ) (c : Client)
      → ReadsBytes c.stream
      → unread c.stream < 4 * fuel
      → fuel ≤ more
      → receive_rounds crypto more c ≡ receive_rounds crypto fuel c
  unfolding receive_rounds
  receive_rounds-more zero more c h enough le = absurd (omega arith)
  receive_rounds-more (suc fuel) zero c h enough le = absurd (omega arith)
  receive_rounds-more (suc fuel) (suc more) c h enough le =
      next_round-same c (receive_rounds crypto more) (receive_rounds crypto fuel) _ _
        (λ e reads less. receive_rounds-more fuel more e reads (omega (arith, less)) (omega arith))
        (receive_message-Meets c h)

  -- On a stream that gives finitely many bytes and then an error, with a read counter below 2 ^
  -- 64, the receive loop ends, by an error of its last receive and without a panic, and it is a
  -- fixed point of its own body. Each command that it has logged is handshake, fetch_coinbaser,
  -- submit_pow or job_update, and has taken at least four bytes of the stream and one step of the
  -- read counter; the last receive may have taken one step more. The session's other state is as
  -- it was, the write counter included.
  pub receive_loop-HasEnded :
      (c : Client)
      → ReadsBytes c.stream
      → c.recv_nonce < 2 ^ 64
      → HasEnded c (receive_loop crypto c)
        × (receive_loop crypto c
            ≡ next_round
                (receive_message crypto c).0
                (receive_message crypto c).1
                (receive_loop crypto))
  unfolding receive_loop receive_rounds
  receive_loop-HasEnded c h fits = (
    receive_rounds-HasEnded (suc (unread c.stream)) c h fits (omega arith),
    next_round-same c (receive_rounds crypto (unread c.stream)) (receive_loop crypto) _ _
        (λ e reads less.
          receive_rounds-more (suc (unread e.stream)) (unread c.stream) e reads (omega arith)
            (omega (arith, less)))
        (receive_message-Meets c h),
  )
