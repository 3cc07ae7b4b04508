-- ===== src/Pool/Answer.antt =====
-- A payout from the pool's printed answer to the request for it.
use blvm_datum.Common.{ℕ, ◌^◌, ◌<◌, ◌≡◌, refl, some, ◌++◌, length}
use blvm_datum.Error.{ok}
use blvm_datum.Bytes.{Bytes, IsBytes, to_le_bytes}
use blvm_datum.Crypto.{Crypto, Signs}
use blvm_datum.Stream.{Stream}
use blvm_datum.Messages.{fetch_coinbaser}
use blvm_datum.Coinbase.{CoinbasePayout}
use blvm_datum.Coinbase.Print.{print_response, print_coinbase_data, FitsPayout}
use blvm_datum.Coinbase.RoundTrip.{parse_coinbase_response-payout}
use blvm_datum.Client.{Client, DatumEncryptionKeys}
use blvm_datum.Client.Transport.{message_header, encrypt_with}
use blvm_datum.Client.Send.{header_number}
use blvm_datum.Client.Frame.{sender}
use blvm_datum.Client.Answer.{IsFrame, fetch_coinbaser_request-IsFrame}
use blvm_datum.Pool.{Pool, fetch_coinbase_payout}

-- The message that a pool answers with.
abbrev pub payout_message : ℕ → CoinbasePayout → Bytes → Bytes → Bytes
payout_message value payout inner outer =
    print_response value
      (print_coinbase_data payout.primary_tag payout.unique_id payout.outputs ++ inner) outer

-- The pool's client can write, and has signing keys and a header key below 2 ^ 32. The fetch's request
-- encrypts, and signatures have 64 bytes. What there is to be read begins with a frame that the client
-- accepts as the answer to a fetch, with its header hidden by the key that the request leaves, whose
-- body decrypts to a printed payout with fields that fit, for whichever value and with whatever
-- bytes behind the payout and behind the terminator. Then the fetch returns that payout and stores
-- it, and the client stays.
pub fetch_coinbase_payout-print :
    {Block : Type 0} (crypto : Crypto) (coinbase_value value : ℕ) (payout : CoinbasePayout)
    (inner outer encrypted out sig body rest : Bytes) (c : Client) (s : Stream)
    (keys : DatumEncryptionKeys) (p : Pool Block)
    → Signs crypto
    → p.protocol_client ≡ some (sender c s keys)
    → c.header_xor_key < 2 ^ 32
    → encrypt_with crypto c.send_cipher c.send_nonce (to_le_bytes 8 coinbase_value) ≡ ok encrypted
    → s.incoming ≡ out ++ (sig ++ (body ++ rest))
    → IsBytes s.incoming
    → IsFrame crypto c.recv_cipher c.pool_ed25519_public
        (header_number (message_header fetch_coinbaser (to_le_bytes 8 coinbase_value)))
        c.recv_nonce
        fetch_coinbaser
        (payout_message value payout inner outer)
        out
        sig
        body
    → value < 2 ^ 64
    → FitsPayout payout
    → length (print_coinbase_data payout.primary_tag payout.unique_id payout.outputs ++ inner)
      < 2 ^ 32
    → (d : Client) × (fetch_coinbase_payout crypto coinbase_value p
        ≡ (ok payout, record p { protocol_client = some d; current_coinbase = some payout }))
unfolding fetch_coinbase_payout
fetch_coinbase_payout-print crypto coinbase_value value payout inner outer encrypted out sig body
      rest c s keys p signs has_client fits enc has reads frame value_fits payout_fits short =
    let (d, e) =
      fetch_coinbaser_request-IsFrame crypto coinbase_value
        (payout_message value payout inner outer) encrypted out sig body rest c s keys signs fits
        enc has reads frame in
    (
      d,
      rw
          (
            has_client,
            e,
            parse_coinbase_response-payout value payout inner outer value_fits payout_fits short,
          )
          refl,
    )
