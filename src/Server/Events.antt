-- ===== src/Server/Events.antt =====
-- What events and reconnects do to the server.
use blvm_datum.Common.{
  ◌+◌, ◌≡◌, ◌⊎◌, inl, inr, ap, Bool, true, false, Option, none, some, List, [], ◌∷◌, ◌++◌,
}
use blvm_datum.Error.{Result, ok, err, panic, DatumError, template_error, Text, text}
use blvm_datum.Bytes.{IsBytes}
use blvm_datum.Crypto.{Crypto}
use blvm_datum.Stream.{Stream}
use blvm_datum.Client.{Client}
use blvm_datum.Client.Handshake.{Entropy}
use blvm_datum.Pool.{Int64, Pool}
use blvm_datum.Pool.Operations.{
  Reconnects, unconfigured, connected, refused, reconnect-Reconnects, has_settings, settings,
}
use blvm_datum.Server.{
  Block, BlockTemplate, block_template_updated, chain_reorg, ModuleMessage, event, to_block, Server,
  reconnect_pool, after_reconnect,
}

-- The messages that ask for a new template.
abbrev pub renews : ModuleMessage → Bool
renews (event block_template_updated) = true
renews (event chain_reorg) = true
renews _ = false

module _ {Header Tx : Type 0} where
  -- What storing a template does to the server, by the client that there is and the outputs of the
  -- template's coinbase transaction.
  abbrev pub Renewed :
      Server Header Tx
      → Block Header Tx
      → Option Client
      → List Int64
      → Result (Unit {0}) × Server Header Tx
      → Type 0
  Renewed s block none outputs out =
      out ≡ (ok tt, record s { pool = record s.pool { current_template = some block } })
  Renewed s block (some c) [] out =
      out ≡ (panic, record s { pool = record s.pool { current_template = some block } })
  Renewed s block (some c) (_ ∷ _) out =
      (settings out.1.pool ≡ settings (record s.pool { current_template = some block }))
      × (out.1.running ≡ s.running)
      × (out.1.receive_loops ≡ s.receive_loops)

  -- What a message does, by the node's answer to a request for a template.
  abbrev pub Handled :
      (Tx → List Int64)
      → Server Header Tx
      → Bool
      → BlockTemplate Header Tx ⊎ Text
      → Result (Unit {0}) × Server Header Tx
      → Type 0
  Handled values s false answer out = out ≡ (ok tt, s)
  Handled values s true (inr problem) out =
      out ≡ (err (template_error (text "Failed to get block template: " ++ problem)), s)
  Handled values s true (inl template) out =
      Renewed s (to_block template) s.pool.protocol_client (values template.coinbase_tx) out

  -- How a reconnect of the server can end.
  pub data ServerReconnects (s : Server Header Tx) : Result Text × Server Header Tx → Type 0 where
    reconnected :
        {out : Result Text × Server Header Tx} (t : Text) (c : Client)
        → has_settings s.pool ≡ true
        → c.connected ≡ true
        → out ≡ (
          ok t,
          record s {
            pool = record s.pool { protocol_client = some c };
            receive_loops = s.receive_loops + 1;
          },
        )
        → ServerReconnects s out
    without_client :
        {e : DatumError} {out : Result Text × Server Header Tx}
        → has_settings s.pool ≡ true
        → out ≡ (err e, record s { pool = record s.pool { protocol_client = none } })
        → ServerReconnects s out
    as_it_was :
        {e : DatumError} {out : Result Text × Server Header Tx}
        → has_settings s.pool ≡ false
        → out ≡ (err e, s)
        → ServerReconnects s out

  -- A reconnect of the server, if what every dialled stream can read is bytes: it does not panic. If
  -- it returns, then the server has a connected client and one receive loop more; if it fails, then
  -- the pool has no client, or it is as it was because it is not configured, and no loop is spawned.
  pub reconnect_pool-ServerReconnects :
      (crypto : Crypto) (dial : Text → Stream ⊎ Text) (e : Entropy) (s : Server Header Tx)
      → ((address : Text) (t : Stream) → dial address ≡ inl t → IsBytes t.incoming)
      → ServerReconnects s (reconnect_pool crypto dial e s)
  unfolding reconnect_pool
  reconnect_pool-ServerReconnects crypto dial e s readable =
      go (reconnect-Reconnects crypto dial e s.pool readable)
    where
      after : Result (Unit {0}) × Pool (Block Header Tx) → Result Text × Server Header Tx
      after out = after_reconnect out.0 (record s { pool = out.1 })

      go :
          {out : Result (Unit {0}) × Pool (Block Header Tx)}
          → Reconnects s.pool out
          → ServerReconnects s (after out)
      go (unconfigured lacks h) = as_it_was lacks (ap after h)
      go (connected c known on h) = reconnected _ c known on (ap after h)
      go (refused known h) = without_client known (ap after h)
