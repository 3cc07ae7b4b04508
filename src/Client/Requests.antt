-- ===== src/Client/Requests.antt =====
-- The two requests: a send and the receipt of its answer.
use blvm_datum.Common.{
  ℕ, suc, ◌+◌, ◌^◌, ◌<◌, ◌≡◌, refl, sym, subst, ap, ◌∙◌, Bool, true, false, not, Option, none, some,
  [], ◌∷◌, length, ◌==◌,
}
use blvm_datum.Error.{Result, fail_if, protocol_error, text}
use blvm_datum.Error.Ensures.{Ensures, holds, failed, Ensures-if, fail_if-Ensures}
use blvm_datum.Bytes.{Bytes, IsBytes, u64, to_le_bytes}
use blvm_datum.Crypto.{Crypto}
use blvm_datum.Stream.{Stream}
use blvm_datum.Messages.{DatumCommand, fetch_coinbaser, submit_pow, same_command}
use blvm_datum.Client.{Client, M, ◌>>=◌, ◌>>◌}
use blvm_datum.Client.Logic.{Meets, returns, fails, Meets-map, Meets-bind, Meets-lift}
use blvm_datum.Client.Transport.{
  send_message, receive_message, verdict_of, first_verdict, read_verdict, fetch_coinbaser_request,
  submit_pow_request,
}
use blvm_datum.Client.Receive.{ReadsBytes, receive_message_internal-Meets}
use blvm_datum.Client.Dispatch.{receive_message-internal}
use blvm_datum.Client.Send.{SendOutcome, send_message_lem}

-- What no request changes.
abbrev pub lasting : Client → Client
lasting c = record c { stream = none; send_nonce = 0; recv_nonce = 0; header_xor_key = 0 }

-- A request has been sent, and nothing has been received since.
abbrev pub Asked : Client → Client → Type 0
Asked c d =
    (c.connected ≡ true)
    × (d.send_nonce ≡ u64 (c.send_nonce + 1))
    × (d.recv_nonce ≡ c.recv_nonce)
    × (lasting d ≡ lasting c)
    × ReadsBytes d.stream

-- A request has been answered.
abbrev pub Answered : Client → Client → Type 0
Answered c d =
    (c.connected ≡ true)
    × (d.send_nonce ≡ u64 (c.send_nonce + 1))
    × (d.recv_nonce ≡ u64 (c.recv_nonce + 1))
    × (lasting d ≡ lasting c)

verdict_of-Ensures : (code : ℕ) → Ensures (λ b. Unit {0}) (verdict_of code)
unfolding verdict_of
verdict_of-Ensures code =
    Ensures-if (code == 0x50) (λ _. holds tt)
      λ _.
        Ensures-if (code == 0x55) (λ _. holds tt)
          λ _. Ensures-if (code == 0x66) (λ _. holds tt) λ _. failed

pub read_verdict-Ensures : (message : Bytes) → Ensures (λ b. Unit {0}) (read_verdict message)
unfolding read_verdict first_verdict
read_verdict-Ensures [] = failed
read_verdict-Ensures (code ∷ rest) =
    Ensures-if (suc (length rest) == 0) (λ _. failed) λ _. verdict_of-Ensures code

module _ (crypto : Crypto) where
  send_message-Asked :
      (command : DatumCommand) (message : Bytes) (c : Client)
      → c.header_xor_key < 2 ^ 32
      → ReadsBytes c.stream
      → Meets
          (λ _ d. Asked c d)
          (λ d. lasting d ≡ lasting c)
          (send_message crypto command message c).0
          (send_message crypto command message c).1
  send_message-Asked command message c fits readable =
      go c.connected c.stream refl readable (send_message_lem crypto command message c fits)
    where
      out : Result (Unit {0}) × Client
      out = send_message crypto command message c

      go :
          (b : Bool) (o : Option Stream)
          → c.connected ≡ b
          → ReadsBytes o
          → SendOutcome command message c b o out
          → Meets (λ _ d. Asked c d) (λ d. lasting d ≡ lasting c) out.0 out.1
      go false o on h e = rw e (fails refl)
      go true none on h e = rw e (fails refl)
      go true (some s) on h m =
          Meets-map m
            (λ _ d (t, i, e).
              rw e
                (on, refl, refl, refl, subst IsBytes {x = s.incoming} {y = t.incoming} (sym i) h))
            (λ d (t, i, e). ap lasting e)

  Meets-request {ℓ} :
      {A : Type ℓ} (command : DatumCommand) (message : Bytes) (k : DatumCommand × Bytes → M A)
      (c : Client)
      → c.header_xor_key < 2 ^ 32
      → ReadsBytes c.stream
      → ((r : DatumCommand × Bytes) (d : Client)
          → Answered c d
          → Meets (λ _ f. Answered c f) (λ f. lasting f ≡ lasting c) (k r d).0 (k r d).1)
      → Meets
          (λ _ d. Answered c d)
          (λ d. lasting d ≡ lasting c)
          ((send_message crypto command message >> (receive_message crypto >>= k)) c).0
          ((send_message crypto command message >> (receive_message crypto >>= k)) c).1
  Meets-request command message k c fits readable rest =
      Meets-bind (send_message crypto command message) _
        (send_message-Asked command message c fits readable)
        λ _ d (on, sent, same, kept, reads).
          Meets-bind {P' = λ r f. Answered c f} (receive_message crypto) k
            (rw (receive_message-internal crypto d reads) (
              Meets-map (receive_message_internal-Meets crypto d reads)
                (λ r f p. (
                  on,
                  ap (λ (x : Client). x.send_nonce) p.1 ∙ sent,
                  p.2 ∙ ap (λ n. u64 (n + 1)) same,
                  ap lasting p.1 ∙ kept,
                ))
                (λ f e. ap lasting (e.0) ∙ kept)))
            rest

  -- With a header key below 2 ^ 32 and bytes to read, a fetch does not panic. If it returns, then the
  -- client was connected and both counters have taken one step. Returning or not, it changes nothing
  -- but the stream, the counters and the header's key.
  pub fetch_coinbaser_request-Meets :
      (value : ℕ) (c : Client)
      → c.header_xor_key < 2 ^ 32
      → ReadsBytes c.stream
      → Meets
          (λ _ d. Answered c d)
          (λ d. lasting d ≡ lasting c)
          (fetch_coinbaser_request crypto value c).0
          (fetch_coinbaser_request crypto value c).1
  unfolding fetch_coinbaser_request
  fetch_coinbaser_request-Meets value c fits readable =
      Meets-request fetch_coinbaser (to_le_bytes 8 value) _ c fits readable
        λ (command, message) d answered.
          Meets-lift
            (fail_if (not (same_command command fetch_coinbaser))
              (protocol_error (text "Unexpected response command")))
            _ d (fail_if-Ensures _ _) (answered.3) λ _ _. returns answered

  -- With a header key below 2 ^ 32 and bytes to read, a submission does not panic, whatever the answer
  -- holds, an empty one included. If it returns, then the client was connected and both counters have
  -- taken one step. Returning or not, it changes nothing but the stream, the counters and the
  -- header's key.
  pub submit_pow_request-Meets :
      (pow_data : Bytes) (c : Client)
      → c.header_xor_key < 2 ^ 32
      → ReadsBytes c.stream
      → Meets
          (λ _ d. Answered c d)
          (λ d. lasting d ≡ lasting c)
          (submit_pow_request crypto pow_data c).0
          (submit_pow_request crypto pow_data c).1
  unfolding submit_pow_request
  submit_pow_request-Meets pow_data c fits readable =
      Meets-request submit_pow pow_data _ c fits readable λ (command, message) d answered.
        Meets-lift
          (fail_if (not (same_command command submit_pow))
            (protocol_error (text "Unexpected response command")))
          _ d (fail_if-Ensures _ _) (answered.3)
          λ _ _. answer (read_verdict message) d (read_verdict-Ensures message) answered
    where
      answer :
          (r : Result Bool) (d : Client)
          → Ensures (λ b. Unit {0}) r
          → Answered c d
          → Meets (λ _ f. Answered c f) (λ f. lasting f ≡ lasting c) r d
      answer _ d (holds h) answered = returns answered
      answer _ d failed answered = fails (answered.3)
