-- ===== src/Tests/LoopRuns.antt =====
-- The receive loop of src/server.rs, with a cryptography that is easy to compute.
use blvm_datum.Common.{
  ◌^◌, ◌≡◌, refl, ap, true, false, some, [], ◌∷◌, ◌++◌, length, take, replicate, arith, All-append,
  All-take, length-take, ◌∙◌,
}
use blvm_datum.Bytes.{Bytes, IsByte, IsBytes, from_le_bytes}
use blvm_datum.Bytes.Endian.{from_le_bytes-lt}
use blvm_datum.Stream.{Stream}
use blvm_datum.Messages.{DatumMessageHeader, DatumCommand, submit_pow, handshake, to_u8}
use blvm_datum.Header.RoundTrip.{packed, packed-IsBytes, length-packed, FitsHeader}
use blvm_datum.Header.Obfuscation.{exchange, IsExchanged}
use blvm_datum.Client.{Client}
use blvm_datum.Client.Transport.{receive_message, check_signature, decrypt_with}
use blvm_datum.Server.Loop.{next_round, receive_loop}
use blvm_datum.Server.Loop.Termination.{HasEnded, receive_loop-HasEnded}
use blvm_datum.Server.Loop.Hearing.{Frames, silence, frame, HasHeard, receive_loop-HasHeard}
use blvm_datum.Tests.Toy.{toy, online, waiting-IsBytes, empty_stream}

receive_loop-HasEnded_example :
    HasEnded online (receive_loop toy online)
    × (receive_loop toy online
        ≡ next_round
            (receive_message toy online).0
            (receive_message toy online).1
            (receive_loop toy))
receive_loop-HasEnded_example = receive_loop-HasEnded toy online waiting-IsBytes (omega arith)

-- A signed message of one byte.
abbrev header : DatumCommand → DatumMessageHeader
header command = record {
  cmd_len = 1;
  reserved = 0;
  is_signed = true;
  is_encrypted_pubkey = false;
  is_encrypted_channel = true;
  proto_cmd = to_u8 command;
}

hidden : (h : DatumMessageHeader) → (out : Bytes) × IsExchanged (packed h) 0 out
hidden h = exchange 0 (packed h) (packed-IsBytes h) (omega (arith, length-packed h)) (omega arith)

-- A message behind another one.
hidden_next :
    (h : DatumMessageHeader) (before : Bytes)
    → IsBytes before
    → length before ≡ 4
    → (out : Bytes) × IsExchanged (packed h) (from_le_bytes (take 4 before)) out
hidden_next h before bytes four =
    exchange (from_le_bytes (take 4 before)) (packed h) (packed-IsBytes h)
      (omega (arith, length-packed h))
      (omega (
        arith,
        from_le_bytes-lt (take 4 before) (All-take IsByte 4 before bytes),
        ap (λ n. 256 ^ n) (length-take 4 before (omega (arith, four))),
      ))

first : (out : Bytes) × IsExchanged (packed (header submit_pow)) 0 out
first = hidden (header submit_pow)

first_length : length first.0 ≡ 4
first_length = first.1.same_length ∙ length-packed (header submit_pow)

second :
    (out : Bytes) × IsExchanged (packed (header handshake)) (from_le_bytes (take 4 first.0)) out
second = hidden_next (header handshake) first.0 first.1.out_bytes first_length

abbrev body_of : Bytes → Bytes
body_of message = replicate 64 0 ++ (message ++ [])

two_frames : Bytes
two_frames = first.0 ++ (replicate 64 0 ++ ((9 ∷ []) ++ (second.0 ++ body_of (8 ∷ []))))

two_frames-IsBytes : IsBytes two_frames
unfolding two_frames
two_frames-IsBytes = All-append IsByte first.0 _ first.1.out_bytes (
    All-append IsByte (replicate 64 0 ++ (9 ∷ [])) _ (omega arith)
      (All-append IsByte second.0 _ second.1.out_bytes (omega arith)))

abbrev speaking : Stream
speaking = record empty_stream { incoming = two_frames }

abbrev listening : Client
listening = record online { stream = some speaking; pool_ed25519_public = some [] }

frames :
    Frames toy listening.recv_cipher listening.pool_ed25519_public 0 7
      (submit_pow ∷ handshake ∷ [])
      two_frames
unfolding two_frames check_signature decrypt_with
frames =
    frame submit_pow (9 ∷ []) first.0 (replicate 64 0) (9 ∷ [])
      (record {
        header = header submit_pow;
        fits = submit_pow-FitsHeader;
        signed = refl;
        is_command = refl;
        hidden = first.1;
        sig_length = refl;
        body_length = refl;
        accepted = refl;
        opens = refl;
      })
      (frame handshake (8 ∷ []) second.0 (replicate 64 0) (8 ∷ [])
        (record {
          header = header handshake;
          fits = handshake-FitsHeader;
          signed = refl;
          is_command = refl;
          hidden = second.1;
          sig_length = refl;
          body_length = refl;
          accepted = refl;
          opens = refl;
        })
        silence)
  where
    submit_pow-FitsHeader : FitsHeader (header submit_pow)
    submit_pow-FitsHeader = unfold to_u8 in omega arith

    handshake-FitsHeader : FitsHeader (header handshake)
    handshake-FitsHeader = unfold to_u8 in omega arith

receive_loop-HasHeard_example :
    HasHeard (submit_pow ∷ handshake ∷ []) speaking (receive_loop toy listening)
receive_loop-HasHeard_example =
    receive_loop-HasHeard toy listening speaking (submit_pow ∷ handshake ∷ []) refl
      two_frames-IsBytes (omega arith) frames
