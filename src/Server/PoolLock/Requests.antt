-- ===== src/Server/PoolLock/Requests.antt =====
-- The calls of the pool that do something to its client.
use blvm_datum.Common.{
  ℕ, ◌+◌, ◌^◌, ◌<◌, ◌≡◌, ◌≢◌, refl, sym, subst, ap, ◌∙◌, Option, some, List, ◌∷◌, arith,
}
use blvm_datum.Error.{Result, ok, err, panic, ◌>>=◌}
use blvm_datum.Bytes.{u64}
use blvm_datum.Crypto.{Crypto, DecryptsBytes}
use blvm_datum.Coinbase.{CoinbasePayout}
use blvm_datum.Client.{Client}
use blvm_datum.Client.Logic.{Meets, returns, fails}
use blvm_datum.Client.Interleaving.{IsOnline, Onward}
use blvm_datum.Client.Received.{fetch_coinbaser_request-IsBytes, submit_pow_request-IsOnline}
use blvm_datum.Pool.{
  Pool, BlockParts, Int64, as_u64, keep_payout, first_element, fetch_if_connected,
  fetch_coinbase_payout, set_template, submit_to_pool,
}
use blvm_datum.Server.PoolLock.{
  PoolCall, submit_pow, update_block_template, reconnect_pool, query, pool_with, client_of,
}

-- A submission, or a template of which the first transaction has an output.
abbrev pub Requests : {Block : Type 0} → BlockParts Block → PoolCall Block → Type 0
Requests parts (submit_pow pow_data) = Unit
Requests parts (update_block_template template) =
    (value : Int64) × (outputs : List Int64) × (others : List (List Int64)) × (parts.output_values
        template
      ≡ (value ∷ outputs) ∷ others)
Requests parts reconnect_pool = ⊥
Requests parts query = ⊥

-- The write counter has moved.
moved :
    (c d : Client) → c.send_nonce < 2 ^ 64 → d.send_nonce ≡ u64 (c.send_nonce + 1) → some d ≢ some c
moved c d fits e same =
    let back : d ≡ c = cc same in omega (arith, ap (λ (x : Client). x.send_nonce) back, e, fits)

moved_by :
    {A : Type 0} {P : A → Type 0} (c : Client) {r : Result A} {d : Client}
    → IsOnline c
    → Meets (λ a d. P a × Onward c 1 d) (Onward c 1) r d
    → some d ≢ some c
moved_by c {d = d} online (returns (h, onward)) = moved c d online.send_nonce_fits onward.2
moved_by c {d = d} online (fails onward) = moved c d online.send_nonce_fits onward.2

keep_payout-client :
    {Block : Type 0} (r : Result CoinbasePayout) (p : Pool Block)
    → (keep_payout r p).1.protocol_client ≡ p.protocol_client
keep_payout-client (ok payout) p = refl
keep_payout-client (err e) p = refl
keep_payout-client panic p = refl

module _ (crypto : Crypto) (decrypts : DecryptsBytes crypto) {Block : Type 0}
    (parts : BlockParts Block) where
  fetch_coinbase_payout-moves :
      (value : ℕ) (template : Option Block) (c : Client)
      → IsOnline c
      → (fetch_coinbase_payout crypto value
          (record (pool_with crypto parts c) { current_template = template })).1.protocol_client
        ≢ some c
  unfolding fetch_coinbase_payout
  fetch_coinbase_payout-moves value template c online same =
      moved_by c online (fetch_coinbaser_request-IsBytes crypto decrypts value c online)
        (sym (keep_payout-client {Block = Block} _ _) ∙ same)

  -- A request changes an online client.
  pub client_of-Requests :
      (call : PoolCall Block) (c : Client)
      → IsOnline c
      → Requests parts call
      → client_of crypto parts call c ≢ some c
  unfolding submit_to_pool set_template
  client_of-Requests (submit_pow pow_data) c online asking same =
      moved_by c online (submit_pow_request-IsOnline crypto decrypts pow_data c online) same
  client_of-Requests (update_block_template template) c online (value, outputs, others, e) same =
      fetch_coinbase_payout-moves (as_u64 value) (some template) c online (
        subst
          (λ values.
            (fetch_if_connected crypto (some c) (first_element values >>= first_element)
              (record (pool_with crypto parts c) {
                current_template = some template;
              })).1.protocol_client
            ≡ some c)
          e same)
  client_of-Requests reconnect_pool c online asking same = absurd asking
  client_of-Requests query c online asking same = absurd asking
