-- ===== src/Server.antt =====
-- src/server.rs and src/template.rs: the server over the pool, and the templates that it makes. The
-- node's interface and the types of the blvm-protocol crate are parameters; of a transaction, the
-- program reads the values of its outputs.
pub mod Events
pub mod Loop
pub mod Status
pub mod PoolLock
use blvm_datum.Common.{
  ℕ, ◌+◌, Bool, true, false, Option, none, some, List, [], ◌∷◌, ◌⊎◌, ◌++◌, map, length, ◌==◌,
  if◌then◌else◌,
}
use blvm_datum.Error.{
  Result, ok, err, panic, DatumError, template_error, node_api_error, Text, text, codes, map_err,
  ◌>>=◌, ◌>>◌,
}
use blvm_datum.Bytes.{Bytes}
use blvm_datum.Crypto.{Crypto}
use blvm_datum.Stream.{Stream}
use blvm_datum.Coinbase.{CoinbasePayout}
use blvm_datum.Client.Handshake.{Entropy}
use blvm_datum.Pool.{
  Int64, BlockParts, Pool, DatumPoolInfo, is_some, new_pool, set_key, connect_pool, reconnect,
  set_template, submit_to_pool, pool_info,
}

-- `Block` and `BlockTemplate`, by the fields that are used.
pub record Block (Header Tx : Type 0) : Type 0 where
  pub header : Header
  pub transactions : List Tx

pub record BlockTemplate (Header Tx : Type 0) : Type 0 where
  pub header : Header
  pub coinbase_tx : Tx
  pub transactions : List Tx

-- The node's answers; a request for a template carries its rules.
pub record NodeApi (Header Tx : Type 0) : Type 0 where
  pub get_block_template : List Text → BlockTemplate Header Tx ⊎ Text
  pub register_module_api : Unit {0} ⊎ Text

-- The node's events that the module asks for, and the others.
pub data EventType : Type 0 where
  block_mined block_template_updated mining_difficulty_changed new_block chain_reorg : EventType
  share_submitted other_event : EventType

pub data ModuleMessage : Type 0 where
  event : EventType → ModuleMessage
  other_message : ModuleMessage

pub record DatumStatus : Type 0 where
  pub running : Bool
  pub pool_connected : Bool

module _ {Header Tx : Type 0} where
  unfoldable pub to_block : BlockTemplate Header Tx → Block Header Tx
  to_block t = record { header = t.header; transactions = t.coinbase_tx ∷ t.transactions }

  unfoldable pub generate_template : NodeApi Header Tx → Result (Block Header Tx)
  unfolding to_block
  generate_template node = do
    template ←
        map_err (node.get_block_template (codes "segwit" ∷ []))
          (λ e. template_error (text "Failed to get block template: " ++ e))
    ok (to_block template)

  abbrev pub block_parts : (Tx → List Int64) → BlockParts (Block Header Tx)
  block_parts values = record { output_values = λ b. map values b.transactions }

-- `DatumServer`; `receive_loops` counts the loops that it has spawned.
pub record Server (Header Tx : Type 0) : Type 0 where
  pub pool : Pool (Block Header Tx)
  pub running : Bool
  pub receive_loops : ℕ

-- Hex that decodes to 32 bytes.
unfoldable pub pool_key_of : (Text → Option Bytes) → Option Text → Option Bytes
pool_key_of decode_hex none = none
pool_key_of decode_hex (some hex) = long_enough (decode_hex hex)
  where
    long_enough : Option Bytes → Option Bytes
    long_enough none = none
    long_enough (some key) = if length key == 32 then some key else none

module _ {Header Tx : Type 0} where
  abbrev pub with_key : Option Bytes → Pool (Block Header Tx) → Pool (Block Header Tx)
  with_key none p = p
  with_key (some key) p = set_key key p

  module _ (crypto : Crypto) (dial : Text → Stream ⊎ Text) (e : Entropy) where
    abbrev pub first_connect :
        Option Text → Option Text → Option Text → Option Bytes → Result (Pool (Block Header Tx))
    first_connect (some url) (some username) (some password) key =
        let run = connect_pool crypto dial e url username password (with_key key new_pool) in
        run.0 >>= λ _. ok run.1
    first_connect _ _ _ key = ok new_pool

    -- `DatumServer::new`; `config` looks a name up in the context's map.
    unfoldable pub new_server :
        (Text → Option Bytes) → NodeApi Header Tx → (Text → Option Text) → Result (Server Header Tx)
    new_server decode_hex node config = do
      pool ←
          first_connect (config (codes "pool_url")) (config (codes "pool_username"))
            (config (codes "pool_password"))
            (pool_key_of decode_hex (config (codes "pool_public_key")))
      map_err node.register_module_api
          (λ x. node_api_error (text "Failed to register module API: " ++ x))
      ok (record { pool = pool; running = false; receive_loops = 0 })

  -- A loop is spawned if there is a client.
  abbrev pub spawn_loop : Server Header Tx → Server Header Tx
  spawn_loop s =
      if is_some s.pool.protocol_client then record s { receive_loops = s.receive_loops + 1 } else s

  unfoldable pub start_server : Server Header Tx → Result (Unit {0}) × Server Header Tx
  start_server s = (ok tt, spawn_loop (record s { running = true }))

  abbrev pub after_reconnect : Result (Unit {0}) → Server Header Tx → Result Text × Server Header Tx
  after_reconnect (ok v) s = (ok (text "Reconnected to DATUM pool"), spawn_loop s)
  after_reconnect (err e) s = (err e, s)
  after_reconnect panic s = (panic, s)

  unfoldable pub reconnect_pool :
      Crypto → (Text → Stream ⊎ Text) → Entropy → Server Header Tx → Result Text × Server Header Tx
  reconnect_pool crypto dial e s =
      let run = reconnect crypto dial e s.pool in after_reconnect run.0 (record s { pool = run.1 })

  module _ (crypto : Crypto) (values : Tx → List Int64) where
    unfoldable pub update_block_template :
        Block Header Tx → Server Header Tx → Result (Unit {0}) × Server Header Tx
    update_block_template template s =
        let run = set_template crypto (block_parts values) template s.pool in
        (run.0, record s { pool = run.1 })

    abbrev pub update_with :
        Result (Block Header Tx) → Server Header Tx → Result (Unit {0}) × Server Header Tx
    update_with (ok template) s = update_block_template template s
    update_with (err e) s = (err e, s)
    update_with panic s = (panic, s)

    unfoldable pub handle_event :
        NodeApi Header Tx → ModuleMessage → Server Header Tx → Result (Unit {0}) × Server Header Tx
    handle_event node (event block_template_updated) s = update_with (generate_template node) s
    handle_event node (event chain_reorg) s = update_with (generate_template node) s
    handle_event node _ s = (ok tt, s)

  -- `DatumServer::submit_pow`
  unfoldable pub submit_to_server :
      Crypto → Bytes → Server Header Tx → Result Bool × Server Header Tx
  submit_to_server crypto pow_data s =
      let run = submit_to_pool crypto pow_data s.pool in (run.0, record s { pool = run.1 })

  -- `DatumServer::get_coinbase_payout`, and the accessor of the pool behind it
  abbrev pub get_coinbase_payout : Server Header Tx → Option CoinbasePayout
  get_coinbase_payout s = s.pool.current_coinbase

  abbrev pub get_pool_info : Server Header Tx → DatumPoolInfo
  get_pool_info s = pool_info s.pool

  unfoldable pub get_status : Server Header Tx → DatumStatus
  get_status s = record { running = s.running; pool_connected = is_some s.pool.protocol_client }
