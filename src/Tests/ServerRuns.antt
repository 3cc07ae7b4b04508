-- ===== src/Tests/ServerRuns.antt =====
-- The server and the configuration: src/server.rs and src/config.rs over transactions that are a
-- number.
use blvm_datum.Common.{ℕ, none, some, [], ◌∷◌, List, true, inl}
use blvm_datum.Error.{codes}
use blvm_datum.Pool.{Int64, pos, new_pool}
use blvm_datum.Config.{DatumConfig}
use blvm_datum.Server.{Server, NodeApi, Block}

abbrev config : DatumConfig
config = record {
  pool_url = some (codes "tcp://pool:23334");
  pool_username = none;
  pool_password = some (codes "password");
  pool_public_key = none;
  reconnect_interval = 30;
  min_difficulty = none;
}

abbrev pub node : NodeApi ℕ ℕ
node = record {
  get_block_template =
      λ rules. inl (record { header = 1; coinbase_tx = 5000; transactions = 7 ∷ [] });
  register_module_api = inl tt;
}

abbrev pub values : ℕ → List Int64
values tx = pos tx ∷ []

abbrev pub server : Server ℕ ℕ
server = record {
  pool = record (new_pool {Block = Block ℕ ℕ}) {
    pool_url = some (codes "tcp://pool:23334");
    pool_username = some (codes "user");
    pool_password = some (codes "password");
  };
  running = true;
  receive_loops = 0;
}
