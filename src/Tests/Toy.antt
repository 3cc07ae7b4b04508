-- ===== src/Tests/Toy.antt =====
-- A cryptography that is easy to compute, for src/datum_protocol.rs.
use blvm_datum.Common.{
  All-take, none, some, ◌≡◌, ◌⊎◌, ◌∷◌, subst, ap, ◌∙◌, length-append, ◌-◌, inl, refl, true, [],
  ◌++◌, replicate, length, take, arith,
}
use blvm_datum.Crypto.{Crypto, Signs, AppendsTag, DecryptsBytes}
use blvm_datum.Stream.{Stream}
use blvm_datum.Error.{unexpected_eof}
use blvm_datum.Client.{Client, DatumEncryptionKeys, new_client}
use blvm_datum.Error.{Text, codes}
use blvm_datum.Bytes.{IsByte, IsBytes}
use blvm_datum.Client.Handshake.{Entropy}

-- Every key and signature is zeros, and a cipher appends its tag.
abbrev pub toy : Crypto
toy = record {
  verifying_key = λ key. replicate 32 0;
  sign = λ key message. replicate 64 0;
  read_verifying_key = λ key. inl key;
  verify = λ key message signature. true;
  x25519_public = λ secret. replicate 32 0;
  diffie_hellman = λ secret public. replicate 32 0;
  read_sealing_key = λ key. inl key;
  seal = λ key randomness plain. inl plain;
  encrypt = λ key nonce plain. inl (plain ++ replicate 16 0);
  decrypt = λ key nonce cipher. inl (take (length cipher - 16) cipher);
  sha256 = λ bytes. replicate 32 0;
}

pub toy-Signs : Signs toy
toy-Signs = record {
  signature_length = λ key message. refl;
  signature_bytes = λ key message. omega arith;
  verifies = λ key message. refl;
}

abbrev pub empty_stream : Stream
empty_stream = record { incoming = []; read_end = unexpected_eof; sent = []; writes = [] }

abbrev pub keys : DatumEncryptionKeys
keys = record { ed25519_signing = []; x25519_secret = []; x25519_public = replicate 32 0 }

pub toy-AppendsTag : AppendsTag toy
toy-AppendsTag = record {
  tag_length = λ key nonce plain cipher e.
      ap length {x = cipher} {y = plain ++ replicate 16 0} (cc e)
      ∙ length-append plain (replicate 16 0);
}

pub toy-DecryptsBytes : DecryptsBytes toy
toy-DecryptsBytes key nonce cipher plain h e =
    subst IsBytes {x = take (length cipher - 16) cipher} {y = plain} (cc e)
      (All-take IsByte (length cipher - 16) cipher h)

abbrev pub entropy : Entropy
entropy = record {
  local_signing = [];
  local_secret = [];
  session_signing = [];
  session_secret = [];
  header_key = 0x01020304;
  padding = 0 ∷ [];
  seal_randomness = [];
  dummy_signing = [];
  dummy_secret = [];
}

-- The pool's answer to the hello message, hidden by the key that the hello header has left.
abbrev pub answering : Stream
answering = record empty_stream { incoming = 18 ∷ 0 ∷ 0 ∷ 1 ∷ replicate 192 0 ++ codes "hi!" }

abbrev pub dial : Text → Stream ⊎ Text
dial address = inl answering

pub dial-IsBytes : (address : Text) (s : Stream) → dial address ≡ inl s → IsBytes s.incoming
dial-IsBytes address s e =
    subst (λ (t : Stream). IsBytes t.incoming) {x = answering} {y = s} (cc) answering-IsBytes
  where
    answering-IsBytes : IsBytes answering.incoming
    answering-IsBytes = omega arith

-- A narrow command behind a header that nothing hides, signed, with a body of one byte.
abbrev pub waiting : Stream
waiting = record empty_stream { incoming = 1 ∷ 0 ∷ 0 ∷ 0x15 ∷ replicate 64 0 ++ (9 ∷ []) }

abbrev pub online : Client
online = record {
  pool_url = codes "tcp://pool:23334";
  pool_public_key = none;
  stream = some waiting;
  local_keys = some keys;
  remote_keys = none;
  send_cipher = some (replicate 32 0);
  recv_cipher = none;
  send_nonce = 18446744073709551615;
  recv_nonce = 7;
  header_xor_key = 0;
  message_handler = (new_client []).message_handler;
  pool_ed25519_public = none;
  connected = true;
}

pub waiting-IsBytes : IsBytes waiting.incoming
waiting-IsBytes = omega arith
