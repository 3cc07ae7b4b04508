-- ===== src/Pool/Payouts.antt =====
-- The payout that the pool keeps, for as long as its client's session lasts.
use blvm_datum.Common.{ℕ, ◌≡◌, refl, Bool, Option, none, some}
use blvm_datum.Error.{Result, ok, err, panic, ◌>>=◌}
use blvm_datum.Bytes.{Bytes, IsBytes}
use blvm_datum.Crypto.{Crypto, DecryptsBytes}
use blvm_datum.Coinbase.{CoinbasePayout, parse_coinbase_response}
use blvm_datum.Coinbase.Typed.{IsPayout, parse_coinbase_response-IsPayout}
use blvm_datum.Client.{Client, M}
use blvm_datum.Client.Interleaving.{IsOnline, Onward}
use blvm_datum.Client.Logic.{Meets, returns, fails}
use blvm_datum.Client.Received.{fetch_coinbaser_request-IsBytes, submit_pow_request-IsOnline}
use blvm_datum.Client.Transport.{fetch_coinbaser_request, submit_pow_request}
use blvm_datum.Pool.{
  Pool, BlockParts, Int64, as_u64, on_client, keep_payout, fetch_coinbase_payout,
  fetch_if_connected, first_element, set_template, submit_to_pool,
}

abbrev pub EachOnline : Option Client → Type 0
EachOnline none = Unit
EachOnline (some c) = IsOnline c

abbrev pub EachPayout : Option CoinbasePayout → Type 0
EachPayout none = Unit
EachPayout (some payout) = IsPayout payout

-- A client has a session, and a payout is one of its type.
pub record IsSound {Block : Type 0} (p : Pool Block) : Type 0 where
  pub online : EachOnline p.protocol_client
  pub typed : EachPayout p.current_coinbase

-- Calls of the pool one after the other, failing ones too.
pub data PoolRun {Block : Type 0} (crypto : Crypto) (parts : BlockParts Block) (p : Pool Block)
    : Pool Block → Type 0 where
  no_call : PoolRun crypto parts p p
  fetches :
      {q : Pool Block} (value : ℕ)
      → PoolRun crypto parts p q
      → PoolRun crypto parts p (fetch_coinbase_payout crypto value q).1
  sets_template :
      {q : Pool Block} (template : Block)
      → PoolRun crypto parts p q
      → PoolRun crypto parts p (set_template crypto parts template q).1
  submits :
      {q : Pool Block} (pow_data : Bytes)
      → PoolRun crypto parts p q
      → PoolRun crypto parts p (submit_to_pool crypto pow_data q).1

module _ {Block : Type 0} (crypto : Crypto) (decrypts : DecryptsBytes crypto) where
  kept-IsSound :
      (r : Result Bytes) (b d : Client) (p : Pool Block)
      → Meets (λ message c. IsBytes message × Onward b 1 c) (Onward b 1) r d
      → EachPayout p.current_coinbase
      → IsSound
          (keep_payout (r >>= parse_coinbase_response) (record p { protocol_client = some d })).1
  kept-IsSound _ b d p (returns {a = message} (are_bytes, onward)) typed =
      go (parse_coinbase_response message) refl
    where
      go :
          (r : Result CoinbasePayout)
          → parse_coinbase_response message ≡ r
          → IsSound (keep_payout r (record p { protocol_client = some d })).1
      go (ok payout) e = record {
        online = onward.0;
        typed = parse_coinbase_response-IsPayout message payout are_bytes e;
      }
      go (err x) e = record { online = onward.0; typed = typed }
      go panic e = record { online = onward.0; typed = typed }
  kept-IsSound _ b d p (fails onward) typed = record { online = onward.0; typed = typed }

  fetch_coinbase_payout-IsSound :
      (value : ℕ) (p : Pool Block) → IsSound p → IsSound (fetch_coinbase_payout crypto value p).1
  unfolding fetch_coinbase_payout
  fetch_coinbase_payout-IsSound value p sound = go p.protocol_client sound.online
    where
      call : M Bytes
      call = fetch_coinbaser_request crypto value

      go :
          (o : Option Client)
          → EachOnline o
          → IsSound
              (keep_payout
                ((on_client o call p).0 >>= parse_coinbase_response)
                (on_client o call p).1).1
      go none h = sound
      go (some c) h =
          kept-IsSound (call c).0 c (call c).1 p
            (fetch_coinbaser_request-IsBytes crypto decrypts value c h) sound.typed

  set_template-IsSound :
      (parts : BlockParts Block) (template : Block) (p : Pool Block)
      → IsSound p
      → IsSound (set_template crypto parts template p).1
  unfolding set_template
  set_template-IsSound parts template p sound =
      go p.protocol_client (first_element (parts.output_values template) >>= first_element)
    where
      q : Pool Block
      q = record p { current_template = some template }

      q-IsSound : IsSound q
      q-IsSound = record { online = sound.online; typed = sound.typed }

      go : (o : Option Client) (r : Result Int64) → IsSound (fetch_if_connected crypto o r q).1
      go none r = q-IsSound
      go (some c) (ok value) = fetch_coinbase_payout-IsSound (as_u64 value) q q-IsSound
      go (some c) (err x) = q-IsSound
      go (some c) panic = q-IsSound

  submit_to_pool-IsSound :
      (pow_data : Bytes) (p : Pool Block) → IsSound p → IsSound (submit_to_pool crypto pow_data p).1
  unfolding submit_to_pool
  submit_to_pool-IsSound pow_data p sound = go p.protocol_client sound.online
    where
      after :
          (r : Result Bool) (b d : Client)
          → Meets (λ _ c. Unit {0} × Onward b 1 c) (Onward b 1) r d
          → IsSound (record p { protocol_client = some d })
      after _ b d (returns h) = record { online = h.1.0; typed = sound.typed }
      after _ b d (fails on) = record { online = on.0; typed = sound.typed }

      go :
          (o : Option Client)
          → EachOnline o
          → IsSound (on_client o (submit_pow_request crypto pow_data) p).1
      go none h = sound
      go (some c) h = after _ c _ (submit_pow_request-IsOnline crypto decrypts pow_data c h)

  -- Let decryption give bytes. From a pool whose client, if it has one, has a session, and whose payout,
  -- if it has one, is of its type, in every state that fetches, new templates and submissions can reach
  -- in any order, failing and panicking ones among them, both are still so, whatever bytes arrive.
  pub PoolRun-IsSound :
      {parts : BlockParts Block} {p q : Pool Block}
      → IsSound p
      → PoolRun crypto parts p q
      → IsSound q
  PoolRun-IsSound sound no_call = sound
  PoolRun-IsSound sound (fetches {q} value run) =
      fetch_coinbase_payout-IsSound value q (PoolRun-IsSound sound run)
  PoolRun-IsSound {parts} sound (sets_template {q} template run) =
      set_template-IsSound parts template q (PoolRun-IsSound sound run)
  PoolRun-IsSound sound (submits {q} pow_data run) =
      submit_to_pool-IsSound pow_data q (PoolRun-IsSound sound run)
