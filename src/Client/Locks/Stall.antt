-- ===== src/Client/Locks/Stall.antt =====
-- The receive loop and a pool that only answers.
use blvm_datum.Common.{
  ℕ, zero, suc, ◌≤◌, ap, true, length, take, leb, inl, inr, ◌<◌, ◌≡◌, refl, subst, subst₂, false,
  Option, none, some, List, [], ◌∷◌, ◌++◌, arith,
}
use blvm_datum.Error.{err, io_error}
use blvm_datum.Bytes.{Bytes}
use blvm_datum.Crypto.{Crypto}
use blvm_datum.Client.{Client}
use blvm_datum.Stream.{Stream, read_exact}
use blvm_datum.Client.Receive.{is_open}
use blvm_datum.Client.Transport.{receive_message, receive_message_internal}
use blvm_datum.Client.Locks.{
  Call, sending, receiving, System, sent_on, front, seen, Waits, CanReturn, Step, asks, locks,
  unlocks, arrives, closes, Reach, here, later,
}

-- A receive has the lock, or is the next to get it.
abbrev pub ReceivesNext : Option Call → List Call → Type 0
ReceivesNext (some receiving) waiting = Unit
ReceivesNext none (receiving ∷ rest) = Unit
ReceivesNext _ _ = ⊥

-- The client `c` has an open stream, and waits for a header that has not arrived.
pub record IsStalled (c : Client) (s : System) : Type 0 where
  pub same : s.client ≡ c
  pub next : ReceivesNext s.holder s.waiting
  pub stream_open : is_open s.client.stream ≡ true
  pub missing : s.arrived < 4
  pub still_open : s.closed ≡ false

length-take_le : (n : ℕ) (xs : Bytes) → length (take n xs) ≤ n
length-take_le zero xs = omega arith
length-take_le (suc n) [] = omega arith
length-take_le (suc n) (x ∷ xs) = omega (arith, length-take_le n xs)

-- A receive on a stream that ends before the header.
short_receive :
    (crypto : Crypto) (c : Client) (t : Stream)
    → c.stream ≡ some t
    → length t.incoming < 4
    → (receive_message crypto c).0 ≡ err (io_error t.read_end)
unfolding receive_message receive_message_internal read_exact
short_receive crypto c t has short =
    let runs_out : leb 4 (length t.incoming) ≡ false = ground arith in rw (has, runs_out) refl

ReceivesNext-asked :
    (holder : Option Call) (waiting : List Call) (call : Call)
    → ReceivesNext holder waiting
    → ReceivesNext holder (waiting ++ call ∷ [])
ReceivesNext-asked (some receiving) waiting call h = tt
ReceivesNext-asked (some (sending command message)) waiting call h = h
ReceivesNext-asked none (receiving ∷ rest) call h = tt
ReceivesNext-asked none (sending command message ∷ rest) call h = h
ReceivesNext-asked none [] call h = absurd h

first_receives :
    (call : Call) (rest : List Call) → ReceivesNext none (call ∷ rest) → call ≡ receiving
first_receives receiving rest h = refl
first_receives (sending command message) rest h = absurd h

holder_receives :
    (call : Call) (rest : List Call) → ReceivesNext (some call) rest → call ≡ receiving
holder_receives receiving rest h = refl
holder_receives (sending command message) rest h = absurd h

module _ (crypto : Crypto) where
  IsStalled-Waits : {c : Client} (s : System) → IsStalled c s → Waits crypto s
  IsStalled-Waits s w e = go s.client.stream refl w.stream_open
    where
      go :
          (o : Option Stream)
          → s.client.stream ≡ o
          → is_open o ≡ true
          → (receive_message crypto (seen e s)).0 ≡ err (io_error e)
      go none has open_stream = cc
      go (some t) has open_stream =
          short_receive crypto (seen e s)
            (record t { incoming = take s.arrived t.incoming; read_end = e })
            (ap (front s.arrived e) has)
            (omega (arith, length-take_le s.arrived t.incoming, w.missing))

  -- No call returns.
  pub IsStalled-ne-CanReturn :
      {c : Client} (s : System) (call : Call)
      → IsStalled c s
      → s.holder ≡ some call
      → ¬ CanReturn crypto call s
  IsStalled-ne-CanReturn s call w has h =
      let is_receive =
        holder_receives call s.waiting (subst (λ o. ReceivesNext o s.waiting) has w.next) in
      elim (subst (λ k. CanReturn crypto k s) is_receive h) [
        | inl (closed, all) ↦ cc (w.still_open, closed)
        | inr ends ↦ ends (IsStalled-Waits s w)
      ]

  Step-IsStalled :
      {speaks : Bytes → Type 0} {c : Client} {s t : System}
      → ¬ speaks (sent_on c.stream)
      → IsStalled c s
      → Step crypto speaks s t
      → IsStalled c t
  Step-IsStalled {s = s} quiet w (asks call connected) = record {
    same = w.same;
    next = ReceivesNext-asked s.holder s.waiting call w.next;
    stream_open = w.stream_open;
    missing = w.missing;
    still_open = w.still_open;
  }
  Step-IsStalled {s = s} quiet w (locks {call} {rest} free first) =
      let is_receive = first_receives call rest (subst₂ ReceivesNext free first w.next) in
      record {
        same = w.same;
        next = rw is_receive tt;
        stream_open = w.stream_open;
        missing = w.missing;
        still_open = w.still_open;
      }
  Step-IsStalled {s = s} quiet w (unlocks {call} has h) =
      absurd (IsStalled-ne-CanReturn s call w has h)
  Step-IsStalled {speaks} quiet w (arrives n said le) =
      absurd (quiet (subst (λ (x : Client). speaks (sent_on x.stream)) w.same said))
  Step-IsStalled {speaks} quiet w (closes said) =
      absurd (quiet (subst (λ (x : Client). speaks (sent_on x.stream)) w.same said))

  -- Let a client have an open stream, let a receive have the lock of it or be the next to get it, as the
  -- receive loop from a start on, let fewer than four bytes have arrived, and let the pool neither send
  -- nor close before it is sent more than it has been. Then nothing is ever sent: in every state that the tasks and the pool
  -- can reach, however many calls ask for the lock, the client is as it was, and the receive waits.
  pub Reach-IsStalled :
      {speaks : Bytes → Type 0} {c : Client} {s t : System}
      → ¬ speaks (sent_on c.stream)
      → IsStalled c s
      → Reach crypto speaks s t
      → IsStalled c t
  Reach-IsStalled quiet w here = w
  Reach-IsStalled quiet w (later path step) =
      Step-IsStalled quiet (Reach-IsStalled quiet w path) step
