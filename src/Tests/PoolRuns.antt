-- ===== src/Tests/PoolRuns.antt =====
-- The pool: src/pool.rs over blocks that are a number.
use blvm_datum.Common.{ℕ, none, some, [], ◌∷◌}
use blvm_datum.Error.{codes}
use blvm_datum.Pool.{pos, Pool, BlockParts, fetch_coinbase_payout, set_template, submit_to_pool}
use blvm_datum.Pool.Operations.{
  Fetched, fetch_coinbase_payout-Fetched, TemplateSet, set_template-TemplateSet,
}
use blvm_datum.Pool.Payouts.{IsSound, no_call, sets_template, submits, PoolRun-IsSound}
use blvm_datum.Client.{new_client}
use blvm_datum.Tests.Session.{online-IsOnline}
use blvm_datum.Tests.Payout.{payout, payout-IsPayout}
use blvm_datum.Tests.Toy.{online, toy-DecryptsBytes, toy}

abbrev parts : BlockParts ℕ
parts = record { output_values = λ value. (pos value ∷ []) ∷ [] }

abbrev pub configured : Pool ℕ
configured = record {
  pool_url = some (codes "tcp://pool:23334");
  pool_username = some (codes "user");
  pool_password = some (codes "password");
  pool_public_key = none;
  protocol_client = some (new_client (codes "tcp://pool:23334"));
  current_coinbase = none;
  current_template = none;
  jobs = [];
}

fetch_coinbase_payout-Fetched_example :
    Fetched configured
      (fetch_coinbase_payout toy 5000 configured).0
      (fetch_coinbase_payout toy 5000 configured).1
fetch_coinbase_payout-Fetched_example = fetch_coinbase_payout-Fetched toy 5000 configured

set_template-TemplateSet_example :
    TemplateSet configured 5000 configured.protocol_client
      (parts.output_values 5000)
      (set_template toy parts 5000 configured)
set_template-TemplateSet_example = set_template-TemplateSet toy parts 5000 configured

abbrev working : Pool ℕ
working = record configured { protocol_client = some online; current_coinbase = some payout }

working-IsSound : IsSound working
working-IsSound = record { online = online-IsOnline; typed = payout-IsPayout }

-- A submission and then a new template.
abbrev after_template : Pool ℕ
after_template = (set_template toy parts 5000 (submit_to_pool toy (5 ∷ []) working).1).1

PoolRun-IsSound_example : IsSound after_template
PoolRun-IsSound_example =
    PoolRun-IsSound toy toy-DecryptsBytes {parts = parts} working-IsSound
      (sets_template 5000 (submits (5 ∷ []) no_call))
