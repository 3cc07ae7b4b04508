-- ===== src/Server/PoolLock.antt =====
-- Tasks that wait for the pool's lock, `self.pool.read().await` and `self.pool.write().await` in
-- src/server.rs and src/api.rs, over those that wait for the stream of its client. tokio hands the lock
-- on in the order in which it was asked for: a read also waits for a write that asked before it. A
-- call holds the lock until it returns.
pub mod Requests
pub mod Blocked
use blvm_datum.Common.{
  ℕ, zero, suc, ◌+◌, ◌<◌, ◌≡◌, Bool, true, false, Option, some, ◌⊎◌, List, [], ◌∷◌, ◌++◌, All,
}
use blvm_datum.Bytes.{Bytes}
use blvm_datum.Crypto.{Crypto}
use blvm_datum.Client.{Client}
use blvm_datum.Pool.{Pool, BlockParts, new_pool, submit_to_pool, set_template}
use blvm_datum.Client.Locks.{System, Step, asks, locks, unlocks, arrives, closes}

-- The calls that take the lock: `submit_pow` of the server and of the module API,
-- `update_block_template`, `reconnect_pool`, and the questions about the pool's state.
pub data PoolCall (Block : Type 0) : Type 0 where
  submit_pow : Bytes → PoolCall Block
  update_block_template : Block → PoolCall Block
  reconnect_pool query : PoolCall Block

-- Which lock a call takes.
abbrev pub writes : {Block : Type 0} → PoolCall Block → Bool
writes (submit_pow pow_data) = false
writes (update_block_template template) = true
writes reconnect_pool = true
writes query = false

-- The client that the pool has, with its tasks and the number of their sends and receives that have
-- returned; the calls that hold the pool's lock, each with that number when it got it; and those that
-- wait for it.
pub record Shared (Block : Type 0) : Type 0 where
  pub system : System
  pub returned : ℕ
  pub holders : List (PoolCall Block × ℕ)
  pub queue : List (PoolCall Block)

-- The client behind a call: a reconnect, which ends here, can leave any other.
abbrev pub ClientAfter : {Block : Type 0} → PoolCall Block → System → System → Type 0
ClientAfter reconnect_pool before after = Unit
ClientAfter _ before after = after ≡ before

module _ (crypto : Crypto) {Block : Type 0} (parts : BlockParts Block) where
  -- A pool with that client. What a call does to a client depends on no other field.
  abbrev pub pool_with : Client → Pool Block
  pool_with c = record new_pool { protocol_client = some c }

  -- The client when nothing but the call has run.
  abbrev pub client_of : PoolCall Block → Client → Option Client
  client_of (submit_pow pow_data) c =
      (submit_to_pool crypto pow_data (pool_with c)).1.protocol_client
  client_of (update_block_template template) c =
      (set_template crypto parts template (pool_with c)).1.protocol_client
  client_of reconnect_pool c = some c
  client_of query c = some c

  -- A call that does something to the client can end only when a send or a receive on the client has
  -- returned since the call got the lock.
  abbrev pub CanEnd : PoolCall Block → ℕ → Shared Block → Type 0
  CanEnd call since s =
      (client_of call s.system.client ≡ some s.system.client) ⊎ (since < s.returned)

  -- How many sends and receives return with a step of the client's tasks.
  abbrev pub returns_with : {speaks : Bytes → Type 0} {s t : System} → Step crypto speaks s t → ℕ
  returns_with (asks call connected) = 0
  returns_with (locks free first) = 0
  returns_with (unlocks has h) = 1
  returns_with (arrives n said le) = 0
  returns_with (closes said) = 0

  pub data PoolStep (speaks : Bytes → Type 0) (s : Shared Block) : Shared Block → Type 0 where
    calls : (call : PoolCall Block) → PoolStep speaks s (record s { queue = s.queue ++ call ∷ [] })
    shares :
        {call : PoolCall Block} {rest : List (PoolCall Block)}
        → s.queue ≡ call ∷ rest
        → writes call ≡ false
        → All (λ (h : PoolCall Block × ℕ). writes h.0 ≡ false) s.holders
        → PoolStep speaks s (record s { holders = (call, s.returned) ∷ s.holders; queue = rest })
    takes :
        {call : PoolCall Block} {rest : List (PoolCall Block)}
        → s.queue ≡ call ∷ rest
        → s.holders ≡ []
        → PoolStep speaks s (record s { holders = (call, s.returned) ∷ []; queue = rest })
    ends :
        (call : PoolCall Block) (since : ℕ) (before after : List (PoolCall Block × ℕ))
        (next : System)
        → s.holders ≡ before ++ (call, since) ∷ after
        → CanEnd call since s
        → ClientAfter call s.system next
        → PoolStep speaks s (record s { system = next; holders = before ++ after })
    on_client :
        {t : System}
        → (step : Step crypto speaks s.system t)
        → PoolStep speaks s (record s { system = t; returned = s.returned + returns_with step })

  pub data PoolReach (speaks : Bytes → Type 0) (s : Shared Block) : Shared Block → Type 0 where
    here : PoolReach speaks s s
    later : {t u : Shared Block} → PoolReach speaks s t → PoolStep speaks t u → PoolReach speaks s u
