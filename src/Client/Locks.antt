-- ===== src/Client/Locks.antt =====
-- Tasks that wait for the lock of one client's stream: `stream.write().await` in `send_message` and in
-- `receive_message_internal` of src/datum_protocol.rs. tokio hands the lock on in the order in which it
-- was asked for. A call holds it until it returns, and a receive waits while what has arrived is
-- not enough for it.
pub mod Stall
use blvm_datum.Common.{
  ℕ, ◌+◌, ◌-◌, ◌≤◌, ◌≡◌, Bool, true, Option, none, some, List, [], ◌∷◌, ◌++◌, ◌⊎◌, length, take,
}
use blvm_datum.Error.{Result, ok, err, panic, IoError, io_error}
use blvm_datum.Bytes.{Bytes}
use blvm_datum.Crypto.{Crypto}
use blvm_datum.Stream.{Stream}
use blvm_datum.Messages.{DatumCommand}
use blvm_datum.Client.{Client}
use blvm_datum.Client.Transport.{send_message, receive_message}
use blvm_datum.Client.Receive.{unread}

-- A call that takes the lock.
pub data Call : Type 0 where
  sending : DatumCommand → Bytes → Call
  receiving : Call

-- The client, the call that holds the lock, those that wait for it, how much of what the stream can
-- read has arrived, and whether the pool has closed the stream.
pub record System : Type 0 where
  pub client : Client
  pub holder : Option Call
  pub waiting : List Call
  pub arrived : ℕ
  pub closed : Bool

abbrev pub sent_on : Option Stream → Bytes
sent_on none = []
sent_on (some s) = s.sent

-- The first bytes of a stream, and then an error.
abbrev pub front : ℕ → IoError → Option Stream → Option Stream
front n e none = none
front n e (some t) = some (record t { incoming = take n t.incoming; read_end = e })

-- The client with just what has arrived on its stream, of which the end is the error `e`.
abbrev pub seen : IoError → System → Client
seen e s = record s.client { stream = front s.arrived e s.client.stream }

-- A send by a client that is not connected returns before it asks for the lock.
abbrev pub Asks : Call → Client → Type 0
Asks (sending command message) c = c.connected ≡ true
Asks receiving c = Unit

module _ (crypto : Crypto) where
  -- The client that a call leaves.
  abbrev pub perform : Call → Client → Client
  perform (sending command message) c = (send_message crypto command message c).1
  perform receiving c = (receive_message crypto c).1

  -- The receive runs into the end of what has arrived, whatever that is.
  abbrev pub Waits : System → Type 0
  Waits s = (e : IoError) → (receive_message crypto (seen e s)).0 ≡ err (io_error e)

  -- A send never waits for the pool. A receive waits unless it comes to an end with what has arrived,
  -- or the stream has been closed behind that.
  abbrev pub CanReturn : Call → System → Type 0
  CanReturn (sending command message) s = Unit
  CanReturn receiving s = ((s.closed ≡ true) × (s.arrived ≡ unread s.client.stream)) ⊎ (¬ Waits s)

  -- The call returns and gives the lock up.
  abbrev pub after_call : Call → System → System
  after_call call s = record s {
    client = perform call s.client;
    holder = none;
    arrived = s.arrived + unread (perform call s.client).stream - unread s.client.stream;
  }

  -- The steps of the tasks and of the pool, which sends or closes only when `speaks` holds of what it
  -- has been sent.
  pub data Step (speaks : Bytes → Type 0) (s : System) : System → Type 0 where
    asks :
        (call : Call)
        → Asks call s.client
        → Step speaks s (record s { waiting = s.waiting ++ call ∷ [] })
    locks :
        {call : Call} {rest : List Call}
        → s.holder ≡ none
        → s.waiting ≡ call ∷ rest
        → Step speaks s (record s { holder = some call; waiting = rest })
    unlocks :
        {call : Call} → s.holder ≡ some call → CanReturn call s → Step speaks s (after_call call s)
    arrives :
        (n : ℕ)
        → speaks (sent_on s.client.stream)
        → s.arrived + n ≤ unread s.client.stream
        → Step speaks s (record s { arrived = s.arrived + n })
    closes : speaks (sent_on s.client.stream) → Step speaks s (record s { closed = true })

  pub data Reach (speaks : Bytes → Type 0) (s : System) : System → Type 0 where
    here : Reach speaks s s
    later : {t u : System} → Reach speaks s t → Step speaks t u → Reach speaks s u
