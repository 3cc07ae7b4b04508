-- ===== src/Client/Hello.antt =====
-- What sending the hello message of the handshake leaves behind.
use blvm_datum.Common.{ℕ, ◌≡◌, refl, sym, ap, subst, Option, none, some, List, [], ◌∷◌}
use blvm_datum.Error.{Result, ok}
use blvm_datum.Error.Ensures.{Ensures, holds, Ensures-any, Ensures-bind, map_err-Ensures}
use blvm_datum.Bytes.{Bytes, IsBytes}
use blvm_datum.Crypto.{Crypto}
use blvm_datum.Stream.{Stream, WriteResult, written, broken, write_all, write_next, flush}
use blvm_datum.Messages.{DatumMessageHeader}
use blvm_datum.Header.{serialize_header}
use blvm_datum.Header.RoundTrip.{serialize_header-packed, packed-IsBytes}
use blvm_datum.Client.{Client, DatumEncryptionKeys, M, ◌>>=◌, on_stream}
use blvm_datum.Client.Logic.{
  Meets, returns, fails, Meets-lift, Meets-on_stream, StreamMeets, stream_ok, stream_err,
}
use blvm_datum.Client.Receive.{session_of, Meets-xor_header}
use blvm_datum.Client.Handshake.{Entropy, hello_header, encrypt_hello, hello_message, send_hello}

serialize_header-Ensures : (h : DatumMessageHeader) → Ensures IsBytes (serialize_header h)
serialize_header-Ensures h = rw (serialize_header-packed h) (holds (packed-IsBytes h))

-- A write does not touch what is to be read.
write_all-incoming :
    (inc bytes : Bytes) (s : Stream)
    → s.incoming ≡ inc
    → StreamMeets
        (λ b t. t.incoming ≡ inc)
        (λ t. t.incoming ≡ inc)
        (write_all bytes s).0
        (write_all bytes s).1
unfolding write_all
write_all-incoming inc bytes s h = go s.writes
  where
    go :
        (w : List WriteResult)
        → StreamMeets
            (λ (b : Unit {0}) t. t.incoming ≡ inc)
            (λ t. t.incoming ≡ inc)
            (write_next w bytes s).0
            (write_next w bytes s).1
    go [] = unfold write_next in stream_ok h
    go (written ∷ later) = unfold write_next in stream_ok h
    go (broken n e ∷ later) = unfold write_next in stream_err h

encrypt_hello-Ensures :
    (crypto : Crypto) (pool_key : Option Bytes) (randomness hello : Bytes)
    → Ensures (λ b. Unit {0}) (encrypt_hello crypto pool_key randomness hello)
unfolding encrypt_hello
encrypt_hello-Ensures crypto none randomness hello = holds tt
encrypt_hello-Ensures crypto (some pool_key) randomness hello =
    Ensures-bind (map_err-Ensures (crypto.read_sealing_key pool_key) _)
      λ key _. Ensures-any (map_err-Ensures (crypto.seal key randomness hello) _)

-- What a failing hello leaves.
abbrev pub Kept : Client → Client → Type 0
Kept c d = session_of d ≡ session_of c

abbrev at : Client → Option Stream → ℕ → Client
at c o key = record c { stream = o; header_xor_key = key }

Meets-write {κ κ'} :
    {P : Unit {0} → Client → Type κ} {Q : Client → Type κ'} (inc bytes : Bytes)
    (k : Unit {0} → M (Unit {0})) (c : Client) (s : Stream)
    → s.incoming ≡ inc
    → Q (record c { stream = some s })
    → ((t : Stream) → Q (record c { stream = some t }))
    → ((t : Stream)
        → t.incoming ≡ inc
        → Meets P Q (k tt (record c { stream = some t })).0 (k tt (record c { stream = some t })).1)
    → Meets P Q
        ((on_stream (write_all bytes) >>= k) (record c { stream = some s })).0
        ((on_stream (write_all bytes) >>= k) (record c { stream = some s })).1
Meets-write inc bytes k c s h q qs hk =
    Meets-on_stream (write_all bytes) k (record c { stream = some s })
      (λ t e.
        write_all-incoming inc bytes t
          (subst (λ (r : Stream). r.incoming ≡ inc) {x = s} {y = t} (cc) h))
      q (λ t _. qs t) (λ _ t r. hk t r)

-- What can be read of a stream, if there is one.
abbrev pub unread_bytes : Option Stream → Bytes
unread_bytes none = []
unread_bytes (some s) = s.incoming

-- The hello message has gone out: only the stream, the read counter and the header's key have
-- changed, and what can be read from the open stream has not.
abbrev pub HelloSent : Client → Client → Type 0
HelloSent c d =
    (session_of d ≡ session_of c)
    × (t : Stream) × (d.stream ≡ some t)
    × (t.incoming ≡ unread_bytes c.stream)

module _ (crypto : Crypto) (e : Entropy) (local session : DatumEncryptionKeys) (c : Client) where
  last_flush :
      (s : Stream) (key : ℕ)
      → s.incoming ≡ unread_bytes c.stream
      → Meets
          (λ (_ : Unit {0}) d. HelloSent c d)
          (Kept c)
          (flush s).0
          (record c { stream = some (flush s).1; header_xor_key = key })
  unfolding flush
  last_flush s key h =
      go (write_all [] s).0 (write_all [] s).1 (write_all-incoming (unread_bytes c.stream) [] s h)
    where
      go :
          (r : Result (Unit {0})) (t : Stream)
          → StreamMeets
              (λ b t. t.incoming ≡ unread_bytes c.stream)
              (λ t. t.incoming ≡ unread_bytes c.stream)
              r
              t
          → Meets
              (λ (_ : Unit {0}) d. HelloSent c d)
              (Kept c)
              r
              (record c { stream = some t; header_xor_key = key })
      go _ t (stream_ok h) = returns (refl, t, refl, h)
      go _ t (stream_err h) = fails refl

  pub send_hello-Meets :
      Meets
        (λ _ d. HelloSent c d)
        (Kept c)
        (send_hello crypto e local session c).0
        (send_hello crypto e local session c).1
  unfolding send_hello
  send_hello-Meets =
      let hello = hello_message crypto local session e.header_key e.padding in
      Meets-lift (encrypt_hello crypto c.pool_public_key e.seal_randomness hello) _ c
        (encrypt_hello-Ensures crypto c.pool_public_key e.seal_randomness hello) refl
        λ body _.
          Meets-on_stream {R = λ _ t. t.incoming ≡ unread_bytes c.stream} {S = λ s. ⊥}
            (λ s. (ok tt, s)) _ (at c c.stream e.header_key)
            (λ s has. stream_ok (ap unread_bytes (sym has))) refl (λ s r. absurd r)
            λ _ s hs.
              Meets-lift (serialize_header (hello_header c.pool_public_key body)) _
                (at c (some s) e.header_key)
                (serialize_header-Ensures (hello_header c.pool_public_key body)) refl
                λ header hb.
                  Meets-xor_header header e.header_key _ (at c (some s) e.header_key) hb refl
                    λ out key _ _.
                      Meets-write (unread_bytes c.stream) out _ (at c (some s) key) s hs refl
                        (λ _. refl)
                        λ s2 hs2.
                          Meets-write (unread_bytes c.stream) body _ (at c (some s2) key) s2 hs2
                            refl (λ _. refl) λ s3 hs3. last_flush s3 key hs3
