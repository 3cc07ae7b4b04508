-- ===== src/Tests/LockRuns.antt =====
-- Tasks that wait for the lock of one client's stream: src/datum_protocol.rs on concrete
-- systems.
use blvm_datum.Common.{ℕ, inl, ◌≤◌, refl, false, some, none, [], ◌∷◌, length, arith}
use blvm_datum.Bytes.{Bytes}
use blvm_datum.Messages.{submit_pow}
use blvm_datum.Client.Locks.{sending, receiving, System, asks, locks, Reach, here, later}
use blvm_datum.Client.Locks.Stall.{IsStalled, Reach-IsStalled}
use blvm_datum.Pool.{BlockParts, pos}
use blvm_datum.Server.PoolLock.{
  Shared, submit_pow as pool_submit, update_block_template, reconnect_pool, query, PoolReach, calls,
}
use blvm_datum.Server.PoolLock.Blocked.{IsBlocked, PoolReach-IsBlocked}
use blvm_datum.Tests.Session.{online-IsOnline}
use blvm_datum.Tests.Toy.{toy-DecryptsBytes, online, toy}

-- A pool that waits for the first request.
abbrev AnswersOnly : Bytes → Type 0
AnswersOnly sent = 1 ≤ length sent

-- The receive loop has been started, and nothing has arrived.
abbrev started : System
started = record {
  client = online;
  holder = none;
  waiting = receiving ∷ [];
  arrived = 0;
  closed = false;
}

AnswersOnly-quiet : ¬ AnswersOnly []
AnswersOnly-quiet spoken = omega (arith, spoken)

started-IsStalled : IsStalled online started
started-IsStalled = record {
  same = refl;
  next = tt;
  stream_open = refl;
  missing = omega arith;
  still_open = refl;
}

-- The receive gets the lock, and a submission asks for it.
abbrev submitting : System
submitting = record started { holder = some receiving; waiting = sending submit_pow (5 ∷ []) ∷ [] }

submitting-Reach : Reach toy AnswersOnly started submitting
submitting-Reach = later (later here (locks refl refl)) (asks (sending submit_pow (5 ∷ [])) refl)

Reach-IsStalled_example : IsStalled online submitting
Reach-IsStalled_example = Reach-IsStalled toy AnswersOnly-quiet started-IsStalled submitting-Reach

abbrev parts : BlockParts ℕ
parts = record { output_values = λ value. (pos value ∷ []) ∷ [] }

-- A new template has come, and a reconnect and a question about the status wait.
abbrev updating : Shared ℕ
updating = record {
  system = started;
  returned = 0;
  holders = (update_block_template 5000, 0) ∷ [];
  queue = reconnect_pool ∷ query ∷ [];
}

updating-IsBlocked :
    IsBlocked online (update_block_template 5000, 0) reconnect_pool (query ∷ []) updating
updating-IsBlocked = record {
  stalled = started-IsStalled;
  since = refl;
  holds = inl refl;
  keeps = ((λ e. cc), tt);
  waits = ([], [], refl);
}

PoolReach-IsBlocked_example :
    IsBlocked online
      (update_block_template 5000, 0)
      reconnect_pool
      (query ∷ [])
      (record updating { queue = reconnect_pool ∷ query ∷ pool_submit (5 ∷ []) ∷ [] })
PoolReach-IsBlocked_example =
    PoolReach-IsBlocked toy toy-DecryptsBytes parts {speaks = AnswersOnly} AnswersOnly-quiet
      online-IsOnline (pos 5000, [], [], refl) refl updating-IsBlocked
      (PoolReach.later PoolReach.here (calls (pool_submit (5 ∷ []))))
