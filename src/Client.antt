-- ===== src/Client.antt =====
-- src/datum_protocol.rs: the state of `DatumProtocolClient`, and its smaller functions. The locks
-- are held one call at a time, so a call is a function of the state; `u64` counters wrap, as in a
-- release build.
pub mod Transport
pub mod Handshake
pub mod Logic
pub mod Receive
pub mod Received
pub mod Dispatch
pub mod Send
pub mod Interleaving
pub mod Locks
pub mod Nonces
pub mod Requests
pub mod Verdict
pub mod Session
pub mod Hello
pub mod Announced
pub mod Connect
pub mod Frame
pub mod Delivery
pub mod Answer
pub mod Overtaking
use Prim.Native.Nat.{bit_xor}
use blvm_datum.Common.{
  ℕ, ◌+◌, ◌%◌, ◌^◌, Bool, true, false, Option, none, some, List, [], ◌∷◌, ◌++◌, length, take, ltb,
}
use blvm_datum.Error.{Result, ok, err, panic, DatumError, pool_connection_error, Text, text, codes}
use blvm_datum.Bytes.{Bytes, to_le_bytes, from_le_bytes}
use blvm_datum.Crypto.{Crypto}
use blvm_datum.Stream.{Stream}
use blvm_datum.Header.{apply_header_xor}
use blvm_datum.Handlers.{MessageHandler, default_message_handler}

-- `DATUM_PROTOCOL_VERSION.as_bytes()`
unfoldable pub datum_protocol_version : Bytes
datum_protocol_version = codes "v0.4.1-beta"

-- `DatumEncryptionKeys`, by the secrets' bytes.
pub record DatumEncryptionKeys : Type 0 where
  pub ed25519_signing : Bytes
  pub x25519_secret : Bytes
  pub x25519_public : Bytes

pub record Client : Type 0 where
  pub pool_url : Text
  pub pool_public_key : Option Bytes
  pub stream : Option Stream
  pub local_keys : Option DatumEncryptionKeys
  pub remote_keys : Option DatumEncryptionKeys
  -- a cipher is its key
  pub send_cipher : Option Bytes
  pub recv_cipher : Option Bytes
  pub send_nonce : ℕ
  pub recv_nonce : ℕ
  pub header_xor_key : ℕ
  pub message_handler : MessageHandler
  pub pool_ed25519_public : Option Bytes
  pub connected : Bool

-- `DatumProtocolClient::new`
unfoldable pub new_client : Text → Client
new_client pool_url = record {
  pool_url = pool_url;
  pool_public_key = none;
  stream = none;
  local_keys = none;
  remote_keys = none;
  send_cipher = none;
  recv_cipher = none;
  send_nonce = 0;
  recv_nonce = 0;
  header_xor_key = 0;
  message_handler = default_message_handler;
  pool_ed25519_public = none;
  connected = false;
}

unfoldable pub new_with_pool_key : Text → Bytes → Client
unfolding new_client
new_with_pool_key pool_url key = record (new_client pool_url) { pool_public_key = some key }

unfoldable pub set_pool_public_key : Bytes → Client → Client
set_pool_public_key key c = record c { pool_public_key = some key }

unfoldable pub set_message_handler : MessageHandler → Client → Client
set_message_handler handler c = record c { message_handler = handler }

-- A method of the client: its result, and the state that it leaves, on an error too.
abbrev pub M {ℓ} : Type ℓ → Type ℓ
M A = Client → Result A × Client

abbrev pub then_result {ℓ κ} :
    {A : Type ℓ} {B : Type κ} → Result A → Client → (A → M B) → Result B × Client
then_result (ok a) c f = f a c
then_result (err e) c f = (err e, c)
then_result panic c f = (panic, c)

infixl 5 ◌>>=◌ ◌>>◌
abbrev pub ◌>>=◌ {ℓ κ} : {A : Type ℓ} {B : Type κ} → M A → (A → M B) → M B
◌>>=◌ m f c = then_result (m c).0 (m c).1 f

abbrev pub ◌>>◌ {ℓ} : {B : Type ℓ} → M (Unit {0}) → M B → M B
m >> k = m >>= λ _. k

abbrev pub lift {ℓ} : {A : Type ℓ} → Result A → M A
lift r c = (r, c)

abbrev pub get {ℓ} : {A : Type ℓ} → (Client → A) → M A
get f c = (ok (f c), c)

abbrev pub modify : (Client → Client) → M (Unit {0})
modify f c = (ok tt, f c)

-- `stream.as_mut().ok_or_else(...)`
unfoldable pub no_stream : DatumError
no_stream = pool_connection_error (text "Stream not available")

abbrev pub run_stream {ℓ} : {A : Type ℓ} → Option Stream → (Stream → Result A × Stream) → M A
run_stream none f c = (err no_stream, c)
run_stream (some s) f c = ((f s).0, record c { stream = some (f s).1 })

-- A call on the stream of the client.
abbrev pub on_stream {ℓ} : {A : Type ℓ} → (Stream → Result A × Stream) → M A
on_stream f c = run_stream c.stream f c

abbrev pub require_stream : M (Unit {0})
require_stream = on_stream (λ s. (ok tt, s))

abbrev pub store_key {ℓ} : {A : Type ℓ} → Result (A × ℕ) → Client → Result A × Client
store_key (ok (a, key)) c = (ok a, record c { header_xor_key = key })
store_key (err e) c = (err e, c)
store_key panic c = (panic, c)

-- `apply_header_xor`, which leaves the new key in the client.
unfoldable pub xor_header : Bytes → ℕ → M Bytes
xor_header header_bytes key c = store_key (apply_header_xor header_bytes key) c

-- `create_nonce`
unfoldable pub create_nonce : ℕ → Bytes
create_nonce counter = to_le_bytes 8 counter ++ (0 ∷ 0 ∷ 0 ∷ 0 ∷ [])

module _ (crypto : Crypto) where
  -- `initialize_session_nonce_static`
  unfoldable pub initialize_session_nonce : ℕ → ℕ
  initialize_session_nonce header_key = from_le_bytes (
      take 8 (
        crypto.sha256
          (text "datum_nonce_init" ++ (to_le_bytes 4 header_key ++ datum_protocol_version))))

  -- `derive_key_from_shared_secret_static`
  unfoldable pub derive_key : Bytes → Bytes → Bytes
  derive_key shared_secret label = crypto.sha256 (shared_secret ++ (label ++ text "datum_v0.4.1"))

  -- `DatumEncryptionKeys::generate`, from the random bytes of the two secrets
  unfoldable pub generate_keys : Bytes → Bytes → DatumEncryptionKeys
  generate_keys signing secret = record {
    ed25519_signing = signing;
    x25519_secret = secret;
    x25519_public = crypto.x25519_public secret;
  }

  -- `ed25519_public().to_bytes()`
  unfoldable pub ed25519_public : DatumEncryptionKeys → Bytes
  ed25519_public keys = crypto.verifying_key keys.ed25519_signing
