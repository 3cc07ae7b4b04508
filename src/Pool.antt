-- ===== src/Pool.antt =====
-- src/pool.rs: the state of `DatumPool` and its operations, over the client. The blocks of the
-- blvm-protocol crate are a parameter, by the parts of a block that the pool looks at.
pub mod Operations
pub mod Payouts
pub mod Answer
use blvm_datum.Common.{
  ℕ, ◌+◌, ◌-◌, ◌%◌, ◌^◌, Bool, true, false, Option, none, some, List, [], ◌∷◌, length, ◌⊎◌,
}
use blvm_datum.Error.{
  Result, ok, err, panic, DatumError, pool_connection_error, Text, text, codes, ◌>>=◌,
}
use blvm_datum.Bytes.{Bytes, u64}
use blvm_datum.Crypto.{Crypto}
use blvm_datum.Stream.{Stream}
use blvm_datum.Coinbase.{CoinbasePayout, parse_coinbase_response}
use blvm_datum.Client.{Client, M, new_client, new_with_pool_key}
use blvm_datum.Client.Transport.{fetch_coinbaser_request, submit_pow_request}
use blvm_datum.Client.Handshake
use blvm_datum.Client.Handshake.{Entropy}

-- An `i64`.
pub data Int64 : Type 0 where
  pos negsuc : ℕ → Int64

-- `as u64`
unfoldable pub as_u64 : Int64 → ℕ
as_u64 (pos n) = u64 n
as_u64 (negsuc n) = 2 ^ 64 - 1 - n

-- What the pool reads of a block: the values of the outputs of each transaction.
pub record BlockParts (Block : Type 0) : Type 0 where
  pub output_values : Block → List (List Int64)

pub record Pool (Block : Type 0) : Type 0 where
  pub pool_url : Option Text
  pub pool_username : Option Text
  pub pool_password : Option Text
  pub pool_public_key : Option Bytes
  pub protocol_client : Option Client
  pub current_coinbase : Option CoinbasePayout
  pub current_template : Option Block
  -- an association list in place of the hash map
  pub jobs : List (ℕ × Block)

pub record DatumPoolInfo : Type 0 where
  pub pool_url : Text
  pub pool_connected : Bool
  pub has_coinbase : Bool
  pub job_count : ℕ
  pub has_template : Bool

abbrev pub is_some {ℓ} : {A : Type ℓ} → Option A → Bool
is_some none = false
is_some (some _) = true

abbrev pub first_element {ℓ} : {A : Type ℓ} → List A → Result A
first_element [] = panic
first_element (x ∷ _) = ok x

abbrev pub PoolM : Type 0 → Type 0 → Type 0
PoolM Block A = Pool Block → Result A × Pool Block

-- The client that `connect` makes.
unfoldable pub make_client : Option Bytes → Text → Client
make_client none url = new_client url
make_client (some key) url = new_with_pool_key url key

abbrev url_or_default : Option Text → Text
url_or_default none = codes "(not configured)"
url_or_default (some url) = url

module _ {Block : Type 0} where
  -- `DatumPool::new`
  unfoldable pub new_pool : Pool Block
  new_pool = record {
    pool_url = none;
    pool_username = none;
    pool_password = none;
    pool_public_key = none;
    protocol_client = none;
    current_coinbase = none;
    current_template = none;
    jobs = [];
  }

  -- `DatumPool::set_pool_public_key`
  unfoldable pub set_key : Bytes → Pool Block → Pool Block
  set_key key p = record p { pool_public_key = some key }

  -- A client is kept only if it is connected.
  abbrev pub keep_client : Result (Unit {0}) → Client → PoolM Block (Unit {0})
  keep_client (ok v) c p = (ok tt, record p { protocol_client = some c })
  keep_client (err e) c p = (err e, p)
  keep_client panic c p = (panic, p)

  -- `self.protocol_client.as_ref().ok_or_else(...)?` and a call on that client
  abbrev pub on_client : {A : Type 0} → Option Client → M A → PoolM Block A
  on_client none call p = (err (pool_connection_error (text "Not connected to pool")), p)
  on_client (some c) call p = ((call c).0, record p { protocol_client = some (call c).1 })

  abbrev pub keep_payout : Result CoinbasePayout → PoolM Block CoinbasePayout
  keep_payout (ok payout) p = (ok payout, record p { current_coinbase = some payout })
  keep_payout (err e) p = (err e, p)
  keep_payout panic p = (panic, p)

  module _ (crypto : Crypto) (dial : Text → Stream ⊎ Text) (e : Entropy) where
    -- `DatumPool::connect`
    unfoldable pub connect_pool : Text → Text → Text → PoolM Block (Unit {0})
    unfolding make_client
    connect_pool url username password p =
        let q = record p {
          pool_url = some url;
          pool_username = some username;
          pool_password = some password;
        } in
        let run = Handshake.connect crypto dial e (make_client q.pool_public_key url) in
        keep_client run.0 run.1 q

    abbrev pub reconnect_with : Option Text → Option Text → Option Text → PoolM Block (Unit {0})
    reconnect_with (some url) (some username) (some password) p =
        connect_pool url username password (record p { protocol_client = none })
    reconnect_with _ _ _ p = (
      err (pool_connection_error (text "Pool not configured (missing url/username/password)")),
      p,
    )

    unfoldable pub reconnect : PoolM Block (Unit {0})
    reconnect p = reconnect_with p.pool_url p.pool_username p.pool_password p

  module _ (crypto : Crypto) where
    unfoldable pub fetch_coinbase_payout : ℕ → PoolM Block CoinbasePayout
    fetch_coinbase_payout coinbase_value p =
        let run = on_client p.protocol_client (fetch_coinbaser_request crypto coinbase_value) p in
        keep_payout (run.0 >>= parse_coinbase_response) run.1

    -- The value of the first output of the first transaction, and the fetch that it is for.
    abbrev pub fetch_for : Result Int64 → PoolM Block CoinbasePayout
    fetch_for (ok value) p = fetch_coinbase_payout (as_u64 value) p
    fetch_for (err x) p = (err x, p)
    fetch_for panic p = (panic, p)

    abbrev pub fetch_if_connected : Option Client → Result Int64 → PoolM Block (Unit {0})
    fetch_if_connected none value p = (ok tt, p)
    fetch_if_connected (some c) value p =
        let run = fetch_for value p in ((run.0 >>= λ _. ok tt), run.1)

    unfoldable pub set_template : BlockParts Block → Block → PoolM Block (Unit {0})
    set_template parts template p =
        fetch_if_connected p.protocol_client
          (first_element (parts.output_values template) >>= first_element)
          (record p { current_template = some template })

    -- `DatumPool::submit_pow`
    unfoldable pub submit_to_pool : Bytes → PoolM Block Bool
    submit_to_pool pow_data p = on_client p.protocol_client (submit_pow_request crypto pow_data) p

  unfoldable pub pool_info : Pool Block → DatumPoolInfo
  pool_info p = record {
    pool_url = url_or_default p.pool_url;
    pool_connected = is_some p.protocol_client;
    has_coinbase = is_some p.current_coinbase;
    job_count = length p.jobs;
    has_template = is_some p.current_template;
  }
