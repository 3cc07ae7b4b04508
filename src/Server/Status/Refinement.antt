-- ===== src/Server/Status/Refinement.antt =====
-- The server's operations keep to the specification of its status.
use blvm_datum.Common.{
  ℕ, ◌≡◌, ◌⊎◌, inl, refl, sym, ap, ◌∙◌, Bool, true, false, Option, none, some, List, [], ◌∷◌, arith,
}
use blvm_datum.Error.{Result, ok, err, panic, Text, ◌>>=◌}
use blvm_datum.Bytes.{Bytes, IsBytes}
use blvm_datum.Crypto.{Crypto}
use blvm_datum.Stream.{Stream}
use blvm_datum.Coinbase.{CoinbasePayout}
use blvm_datum.Client.{Client, M}
use blvm_datum.Client.Handshake.{Entropy}
use blvm_datum.Pool.{
  Pool, BlockParts, Int64, is_some, keep_payout, on_client, fetch_coinbase_payout, fetch_for,
  fetch_if_connected, first_element, set_template, submit_to_pool, as_u64,
}
use blvm_datum.Pool.Operations.{has_settings}
use blvm_datum.Server.{
  Block, NodeApi, block_parts, ModuleMessage, event, other_message, block_template_updated,
  new_block, chain_reorg, other_event, block_mined, mining_difficulty_changed, share_submitted,
  Server, start_server, spawn_loop, update_block_template, update_with, generate_template,
  handle_event, reconnect_pool, submit_to_server, get_status,
}
use blvm_datum.Server.Events.{
  renews, ServerReconnects, reconnected, without_client, as_it_was, reconnect_pool-ServerReconnects,
}
use blvm_datum.Server.Status.{
  Status, status_of, Change, starting, hearing, reconnecting, submitting, Allowed, starts,
  learns_template, keeps_template, connects, disconnects, lacks_settings, submits, Follows,
  unchanged, changed,
}

pub data Operation (Header Tx : Type 0) : Type 0 where
  start : Operation Header Tx
  handle : NodeApi Header Tx → ModuleMessage → Operation Header Tx
  reconnect : Entropy → Operation Header Tx
  submit : Bytes → Operation Header Tx

abbrev has_returned : {A : Type 0} → Result A → Bool
has_returned (ok a) = true
has_returned _ = false

-- Whether there is a client, the template that there is, and whether the settings are known.
abbrev outlook : {Block : Type 0} → Pool Block → Bool × Option Block × Bool
outlook p = (is_some p.protocol_client, p.current_template, has_settings p)

-- The status of a server that has got another pool.
abbrev status_with :
    {Header Tx : Type 0} → Server Header Tx → Bool × Option (Block Header Tx) × Bool → Status
status_with s o = record (status_of s) {
  connected = o.0;
  has_template = is_some o.1;
  configured = o.2;
}

keep_payout-outlook :
    {Block : Type 0} (r : Result CoinbasePayout) (p : Pool Block)
    → outlook (keep_payout r p).1 ≡ outlook p
keep_payout-outlook (ok payout) p = refl
keep_payout-outlook (err e) p = refl
keep_payout-outlook panic p = refl

on_client-outlook :
    {Block A : Type 0} (o : Option Client) (call : M A) (p : Pool Block)
    → p.protocol_client ≡ o
    → outlook (on_client o call p).1 ≡ outlook p
on_client-outlook none call p e = refl
on_client-outlook (some c) call p e =
    ap (λ b. (b, p.current_template, has_settings p)) (sym (ap (λ o. is_some o) e))

module _ (crypto : Crypto) where
  fetch_coinbase_payout-outlook :
      {Block : Type 0} (value : ℕ) (p : Pool Block)
      → outlook (fetch_coinbase_payout crypto value p).1 ≡ outlook p
  unfolding fetch_coinbase_payout
  fetch_coinbase_payout-outlook value p =
      keep_payout-outlook _ _ ∙ on_client-outlook p.protocol_client _ p refl

  fetch_for-outlook :
      {Block : Type 0} (r : Result Int64) (p : Pool Block)
      → outlook (fetch_for crypto r p).1 ≡ outlook p
  fetch_for-outlook (ok value) p = fetch_coinbase_payout-outlook (as_u64 value) p
  fetch_for-outlook (err e) p = refl
  fetch_for-outlook panic p = refl

  set_template-outlook :
      {Block : Type 0} (parts : BlockParts Block) (template : Block) (p : Pool Block)
      → outlook (set_template crypto parts template p).1
        ≡ outlook (record p { current_template = some template })
  unfolding set_template
  set_template-outlook parts template p =
      go p.protocol_client (first_element (parts.output_values template) >>= first_element)
    where
      go :
          (o : Option Client) (r : Result Int64)
          → outlook
              (fetch_if_connected crypto o r (record p { current_template = some template })).1
            ≡ outlook (record p { current_template = some template })
      go none r = refl
      go (some c) r = fetch_for-outlook r (record p { current_template = some template })

module _ {Header Tx : Type 0} (crypto : Crypto) (dial : Text → Stream ⊎ Text)
    (values : Tx → List Int64) where
  -- What an operation does, as the specification sees it.
  abbrev pub change_of : Operation Header Tx → Server Header Tx → Change
  change_of start s = starting
  change_of (handle node message) s = hearing (renews message)
  change_of (reconnect e) s = reconnecting (has_returned (reconnect_pool crypto dial e s).0)
  change_of (submit pow_data) s = submitting

  -- The server that an operation leaves, whether it returns or fails.
  abbrev pub apply : Operation Header Tx → Server Header Tx → Server Header Tx
  apply start s = (start_server s).1
  apply (handle node message) s = (handle_event crypto values node message s).1
  apply (reconnect e) s = (reconnect_pool crypto dial e s).1
  apply (submit pow_data) s = (submit_to_server crypto pow_data s).1

  start_server-Allowed :
      (s : Server Header Tx) → Allowed (status_of s) starting (status_of (start_server s).1)
  unfolding start_server get_status
  start_server-Allowed s = go (is_some s.pool.protocol_client) refl
    where
      with_loops : ℕ → Status
      with_loops n = record {
        running = true;
        configured = has_settings s.pool;
        connected = false;
        has_template = is_some s.pool.current_template;
        loops = n;
      }

      go :
          (b : Bool)
          → is_some s.pool.protocol_client ≡ b
          → Allowed (status_of s) starting (status_of (spawn_loop (record s { running = true })))
      go true e = rw (e, e) (starts refl)
      go false e = rw (e, e) (starts (ap with_loops (omega arith)))

  renewed-Allowed :
      (r : Result (Block Header Tx)) (s : Server Header Tx)
      → Allowed (status_of s) (hearing true) (status_of (update_with crypto values r s).1)
  unfolding update_block_template get_status
  renewed-Allowed (ok template) s =
      let e = set_template-outlook crypto (block_parts values) template s.pool in
      learns_template (ap (status_with s) e)
  renewed-Allowed (err e) s = keeps_template true refl
  renewed-Allowed panic s = keeps_template true refl

  handle_event-Allowed :
      (node : NodeApi Header Tx) (message : ModuleMessage) (s : Server Header Tx)
      → Allowed
          (status_of s)
          (hearing (renews message))
          (status_of (handle_event crypto values node message s).1)
  unfolding handle_event
  handle_event-Allowed node (event block_template_updated) s =
      renewed-Allowed (generate_template node) s
  handle_event-Allowed node (event chain_reorg) s = renewed-Allowed (generate_template node) s
  handle_event-Allowed node (event block_mined) s = keeps_template false refl
  handle_event-Allowed node (event mining_difficulty_changed) s = keeps_template false refl
  handle_event-Allowed node (event share_submitted) s = keeps_template false refl
  handle_event-Allowed node (event new_block) s = keeps_template false refl
  handle_event-Allowed node (event other_event) s = keeps_template false refl
  handle_event-Allowed node other_message s = keeps_template false refl

  reconnected-Allowed :
      (s : Server Header Tx) {out : Result Text × Server Header Tx}
      → ServerReconnects s out
      → Allowed (status_of s) (reconnecting (has_returned out.0)) (status_of out.1)
  unfolding get_status
  reconnected-Allowed s (reconnected t c known on e) = rw e (connects known refl)
  reconnected-Allowed s (without_client known e) = rw e (disconnects known refl)
  reconnected-Allowed s (as_it_was lacks e) = rw e (lacks_settings lacks refl)

  submit_to_server-Allowed :
      (pow_data : Bytes) (s : Server Header Tx)
      → Allowed (status_of s) submitting (status_of (submit_to_server crypto pow_data s).1)
  unfolding submit_to_server submit_to_pool get_status
  submit_to_server-Allowed pow_data s =
      let e = on_client-outlook s.pool.protocol_client _ s.pool refl in
      submits (ap (status_with s) e)

  apply-Allowed :
      ((address : Text) (t : Stream) → dial address ≡ inl t → IsBytes t.incoming)
      → (op : Operation Header Tx) (s : Server Header Tx)
      → Allowed (status_of s) (change_of op s) (status_of (apply op s))
  apply-Allowed readable start s = start_server-Allowed s
  apply-Allowed readable (handle node message) s = handle_event-Allowed node message s
  apply-Allowed readable (reconnect e) s =
      reconnected-Allowed s (reconnect_pool-ServerReconnects crypto dial e s readable)
  apply-Allowed readable (submit pow_data) s = submit_to_server-Allowed pow_data s

  -- Operations one after the other.
  pub data Serves (s : Server Header Tx) : Server Header Tx → Type 0 where
    idle : Serves s s
    and_then :
        {t : Server Header Tx} (op : Operation Header Tx) → Serves s t → Serves s (apply op t)

module _ {Header Tx : Type 0} (crypto : Crypto) (dial : Text → Stream ⊎ Text)
    (values : Tx → List Int64) where
  -- The changes of a run, the last one first.
  abbrev pub changes_of : {s t : Server Header Tx} → Serves crypto dial values s t → List Change
  changes_of idle = []
  changes_of (and_then {t} op run) = change_of crypto dial values op t ∷ changes_of run

  pub Serves-Follows :
      {s t : Server Header Tx}
      → ((address : Text) (u : Stream) → dial address ≡ inl u → IsBytes u.incoming)
      → (run : Serves crypto dial values s t) → Follows (status_of s) (changes_of run) (status_of t)
  Serves-Follows readable idle = unchanged
  Serves-Follows readable (and_then {t} op run) =
      changed (Serves-Follows readable run) (apply-Allowed crypto dial values readable op t)
