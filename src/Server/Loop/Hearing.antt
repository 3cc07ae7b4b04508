-- ===== src/Server/Loop/Hearing.antt =====
-- What the receive loop hears from a pool that hides each header with the key that the client holds.
use blvm_datum.Common.{
  ℕ, ◌+◌, ◌^◌, ◌<◌, ◌≡◌, refl, ap, subst, Option, some, List, [], ◌∷◌, ◌++◌, take, arith,
}
use blvm_datum.Error.{ok, io_error}
use blvm_datum.Bytes.{Bytes, IsBytes, u64, from_le_bytes}
use blvm_datum.Crypto.{Crypto}
use blvm_datum.Stream.{Stream}
use blvm_datum.Messages.{DatumCommand}
use blvm_datum.Client.{Client}
use blvm_datum.Client.Logic.{Meets, Meets-ok}
use blvm_datum.Client.Transport.{receive_message}
use blvm_datum.Client.Receive.{ReadsBytes, unread, Received, Attempted}
use blvm_datum.Client.Answer.{
  nothing_to_read, IsFrame, IsFrameFor, after_frame, receive_message-IsFrame,
}
use blvm_datum.Server.Loop.{stopped, Listened, receive_loop}
use blvm_datum.Server.Loop.Termination.{receive_message-Meets, receive_loop-HasEnded}

-- Frames with these commands, as bytes: each is accepted with the key that the frame before has left
-- and with the nonce whose turn it is.
pub data Frames (crypto : Crypto) (cipher pool_key : Option Bytes)
    : ℕ → ℕ → List DatumCommand → Bytes → Type 0 where
  silence : {key nonce : ℕ} → Frames crypto cipher pool_key key nonce [] []
  frame :
      {key nonce : ℕ} {commands : List DatumCommand} {bytes : Bytes} (command : DatumCommand)
      (message out sig body : Bytes)
      → IsFrame crypto cipher pool_key key nonce command message out sig body
      → Frames crypto cipher pool_key (from_le_bytes (take 4 out)) (u64 (nonce + 1)) commands bytes
      → Frames crypto cipher pool_key key nonce
          (command ∷ commands)
          (out ++ (sig ++ (body ++ bytes)))

-- The loop has heard the commands, and has stopped because there was nothing more to read.
abbrev pub HasHeard : List DatumCommand → Stream → Listened → Type 0
HasHeard commands t l =
    (l.heard ≡ commands) × (l.end ≡ stopped (io_error t.read_end)) × (unread l.client.stream ≡ 0)

module _ (crypto : Crypto) (cipher pool_key : Option Bytes) where
  hear :
      {key nonce : ℕ} {commands : List DatumCommand} {bytes : Bytes} (c : Client) (t : Stream)
      → Frames crypto cipher pool_key key nonce commands bytes
      → c.recv_cipher ≡ cipher
      → c.pool_ed25519_public ≡ pool_key
      → c.stream ≡ some (record t { incoming = bytes })
      → c.header_xor_key ≡ key
      → c.recv_nonce ≡ nonce
      → nonce < 2 ^ 64
      → ReadsBytes c.stream
      → HasHeard commands t (receive_loop crypto c)
  hear c t silence e_cipher e_pool has e_key e_nonce fits reads =
      rw
        (
          (receive_loop-HasEnded crypto c reads (omega (arith, e_nonce))).1,
          nothing_to_read crypto c t has,
        )
        (refl, refl, refl)
  hear c t (frame {key} {nonce} {bytes = bytes} command message out sig body f rest) e_cipher e_pool
        has e_key e_nonce fits reads =
      rw ((receive_loop-HasEnded crypto c reads (omega (arith, e_nonce))).1, received)
        (let (heard, end, read) =
            hear (after_frame c t out bytes) t rest e_cipher e_pool refl refl
              (ap (λ n. u64 (n + 1)) e_nonce) (omega arith)
              (readable (receive_message-Meets crypto c reads)) in
          (ap (◌∷◌ command) heard, end, read))
    where
      for_c : IsFrameFor crypto c command message out sig body
      for_c = rw (e_cipher, e_pool, e_key, e_nonce) f

      received : receive_message crypto c ≡ (ok (command, message), after_frame c t out bytes)
      received =
          receive_message-IsFrame crypto c t command message out sig body bytes has reads for_c

      readable :
          Meets (Received c) (Attempted c) (receive_message crypto c).0 (receive_message crypto c).1
          → ReadsBytes (after_frame c t out bytes).stream
      readable m =
          subst (λ (d : Client). ReadsBytes d.stream) (ap (λ r. r.1) received)
            (Meets-ok m (ap (λ r. r.0) received)).3

module _ (crypto : Crypto) where
  -- If what can be read is frames, hidden one after the other from the client's header key on,
  -- accepted under the pool's key and decrypted from the read counter on, then the loop hears all
  -- of their commands in their order, and stops because it has read everything.
  pub receive_loop-HasHeard :
      (c : Client) (t : Stream) (commands : List DatumCommand)
      → c.stream ≡ some t
      → IsBytes t.incoming
      → c.recv_nonce < 2 ^ 64
      → Frames crypto c.recv_cipher c.pool_ed25519_public c.header_xor_key c.recv_nonce commands
          t.incoming
      → HasHeard commands t (receive_loop crypto c)
  receive_loop-HasHeard c t commands has reads fits frames =
      hear crypto c.recv_cipher c.pool_ed25519_public c t frames refl refl has refl refl fits
        (rw has reads)
