-- ===== src/Server/Status.antt =====
-- What the server promises of its status: a specification of its changes.
pub mod Refinement
use blvm_datum.Common.{
  ℕ, suc, [], ◌∷◌, ◌+◌, ◌≤◌, ◌≡◌, ◌⊎◌, ◌&&◌, inl, refl, sym, ap, ap₂, ◌∙◌, Bool, true, false,
  Option, none, some, List, arith,
}
use blvm_datum.Error.{Result, ok, err, panic, Text, ◌>>=◌}
use blvm_datum.Bytes.{Bytes, IsBytes}
use blvm_datum.Crypto.{Crypto}
use blvm_datum.Stream.{Stream}
use blvm_datum.Coinbase.{CoinbasePayout}
use blvm_datum.Client.{Client, M}
use blvm_datum.Client.Handshake.{Entropy}
use blvm_datum.Pool.{
  Pool, BlockParts, Int64, is_some, keep_payout, on_client, fetch_coinbase_payout, fetch_for,
  fetch_if_connected, first_element, set_template, submit_to_pool, as_u64,
}
use blvm_datum.Pool.Operations.{has_settings}
use blvm_datum.Server.{
  Block, NodeApi, block_parts, ModuleMessage, event, other_message, block_template_updated,
  new_block, chain_reorg, other_event, Server, start_server, spawn_loop, update_block_template,
  update_with, generate_template, handle_event, reconnect_pool, submit_to_server, get_status,
}
use blvm_datum.Server.Events.{
  ServerReconnects, reconnected, without_client, as_it_was, reconnect_pool-ServerReconnects,
}

-- What the server is from outside; `configured`: the settings of a pool are known.
pub record Status : Type 0 where
  pub running : Bool
  pub configured : Bool
  pub connected : Bool
  pub has_template : Bool
  pub loops : ℕ

abbrev pub status_of : {Header Tx : Type 0} → Server Header Tx → Status
status_of s = record {
  running = (get_status s).running;
  configured = has_settings s.pool;
  connected = (get_status s).pool_connected;
  has_template = is_some s.pool.current_template;
  loops = s.receive_loops;
}

abbrev pub one_if : Bool → ℕ
one_if true = 1
one_if false = 0

-- What has been done: a start, a message, by whether it asks for a new template, a reconnect, by
-- whether it returned, and a submission.
pub data Change : Type 0 where
  starting : Change
  hearing : Bool → Change
  reconnecting : Bool → Change
  submitting : Change

-- How the status may change with it. A connection comes with a loop that reads from it.
pub data Allowed (v : Status) : Change → Status → Type 0 where
  starts :
      {w : Status}
      → w ≡ record v { running = true; loops = v.loops + one_if v.connected }
      → Allowed v starting w
  learns_template : {w : Status} → w ≡ record v { has_template = true } → Allowed v (hearing true) w
  keeps_template : {w : Status} (renewal : Bool) → w ≡ v → Allowed v (hearing renewal) w
  connects :
      {w : Status}
      → v.configured ≡ true
      → w ≡ record v { connected = true; loops = v.loops + 1 }
      → Allowed v (reconnecting true) w
  disconnects :
      {w : Status}
      → v.configured ≡ true
      → w ≡ record v { connected = false }
      → Allowed v (reconnecting false) w
  lacks_settings : {w : Status} → v.configured ≡ false → w ≡ v → Allowed v (reconnecting false) w
  submits : {w : Status} → w ≡ v → Allowed v submitting w

-- Allowed changes one after the other, the last one first.
pub data Follows (v : Status) : List Change → Status → Type 0 where
  unchanged : Follows v [] v
  changed :
      {changes : List Change} {change : Change} {w u : Status}
      → Follows v changes w
      → Allowed w change u
      → Follows v (change ∷ changes) u

-- The reconnects that returned.
abbrev pub reconnects : List Change → ℕ
reconnects [] = 0
reconnects (reconnecting true ∷ rest) = suc (reconnects rest)
reconnects (_ ∷ rest) = reconnects rest

-- A server that runs, with a loop for each of `n` connections that it has made.
pub record IsAttended (n : ℕ) (v : Status) : Type 0 where
  pub on : v.running ≡ true
  pub attended : n ≤ v.loops

Allowed-IsAttended :
    (n : ℕ) {v w : Status} (changes : List Change) (change : Change)
    → IsAttended (n + reconnects changes) v
    → Allowed v change w
    → IsAttended (n + reconnects (change ∷ changes)) w
Allowed-IsAttended n {v} changes _ h (starts e) =
    rw e (record { on = refl; attended = omega (arith, h.attended) })
Allowed-IsAttended n changes _ h (learns_template e) =
    rw e (record { on = h.on; attended = h.attended })
Allowed-IsAttended n changes _ h (keeps_template renewal e) = rw e h
Allowed-IsAttended n changes _ h (connects known e) =
    rw e (record { on = h.on; attended = omega (arith, h.attended) })
Allowed-IsAttended n changes _ h (disconnects known e) =
    rw e (record { on = h.on; attended = h.attended })
Allowed-IsAttended n changes _ h (lacks_settings lacks e) = rw e h
Allowed-IsAttended n changes _ h (submits e) = rw e h

pub Follows-IsAttended :
    (n : ℕ) {v w : Status} {changes : List Change}
    → IsAttended n v
    → Follows v changes w
    → IsAttended (n + reconnects changes) w
Follows-IsAttended n h unchanged = record { on = h.on; attended = omega (arith, h.attended) }
Follows-IsAttended n h (changed {changes} {change} path step) =
    Allowed-IsAttended n changes change (Follows-IsAttended n h path) step
