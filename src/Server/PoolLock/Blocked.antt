-- ===== src/Server/PoolLock/Blocked.antt =====
-- A request that waits for a pool that only answers, and what waits behind it.
use blvm_datum.Common.{
  ℕ, ◌<◌, ◌≡◌, ◌⊎◌, inl, inr, refl, sym, subst, ap, ◌∙◌, true, false, some, List, [], ◌∷◌, ◌++◌,
  All, All-append, All-append_left, All-append_right, ◌≢◌, append_assoc, arith,
}
use blvm_datum.Bytes.{Bytes}
use blvm_datum.Crypto.{Crypto, DecryptsBytes}
use blvm_datum.Pool.{BlockParts}
use blvm_datum.Client.Interleaving.{IsOnline}
use blvm_datum.Server.PoolLock.Requests.{Requests, client_of-Requests}
use blvm_datum.Client.{Client}
use blvm_datum.Client.Locks.{
  System, sent_on, Step, asks, locks, unlocks, arrives, closes, here, later,
}
use blvm_datum.Client.Locks.Stall.{IsStalled, IsStalled-ne-CanReturn, Reach-IsStalled}
use blvm_datum.Server.PoolLock.{
  PoolCall, submit_pow, update_block_template, reconnect_pool, query, writes, Shared, CanEnd,
  client_of, ClientAfter, returns_with, PoolStep, calls, shares, takes, ends, on_client, PoolReach,
}

-- An element of a list.
abbrev Holds : {A : Type 0} → A → List A → Type 0
Holds a [] = ⊥
Holds a (x ∷ xs) = (a ≡ x) ⊎ Holds a xs

Holds-removed :
    {A : Type 0} (a x : A) (before after : List A)
    → Holds a (before ++ x ∷ after)
    → ¬ (a ≡ x)
    → Holds a (before ++ after)
Holds-removed a x [] after (inl e) other = absurd (other e)
Holds-removed a x [] after (inr h) other = h
Holds-removed a x (b ∷ before) after (inl e) other = inl e
Holds-removed a x (b ∷ before) after (inr h) other = inr (Holds-removed a x before after h other)

abbrev Keeps : {Block : Type 0} → PoolCall Block × ℕ → Type 0
Keeps held = held.0 ≢ reconnect_pool

reads-Keeps : {Block : Type 0} (call : PoolCall Block) → writes call ≡ false → call ≢ reconnect_pool
reads-Keeps call reads e = cc (sym reads ∙ ap writes e)

ClientAfter-same :
    {Block : Type 0} (call : PoolCall Block) (before after : System)
    → call ≢ reconnect_pool
    → ClientAfter call before after
    → after ≡ before
ClientAfter-same (submit_pow pow_data) before after other h = h
ClientAfter-same (update_block_template template) before after other h = h
ClientAfter-same reconnect_pool before after other h = absurd (other refl)
ClientAfter-same query before after other h = h

-- The writer `w` waits, and the calls of `behind` come next after it.
abbrev Queues :
    {Block : Type 0} → PoolCall Block → List (PoolCall Block) → List (PoolCall Block) → Type 0
Queues {Block} w behind queue =
    (ahead : List (PoolCall Block)) × (new : List (PoolCall Block)) × (queue
      ≡ ahead ++ w ∷ (behind ++ new))

Queues-asked :
    {Block : Type 0} (w : PoolCall Block) (behind queue : List (PoolCall Block))
    (call : PoolCall Block)
    → Queues w behind queue
    → Queues w behind (queue ++ call ∷ [])
Queues-asked w behind queue call (ahead, new, e) = (
  ahead,
  new ++ call ∷ [],
  ap (λ q. q ++ call ∷ []) e
      ∙ append_assoc ahead (w ∷ (behind ++ new)) (call ∷ [])
      ∙ ap (λ q. ahead ++ w ∷ q) (append_assoc behind new (call ∷ [])),
)

reads-ne-writes :
    {Block : Type 0} (call : PoolCall Block) → writes call ≡ false → ¬ (writes call ≡ true)
reads-ne-writes call reads wants = cc (sym reads ∙ wants)

Queues-shared :
    {Block : Type 0} (w : PoolCall Block) (behind queue rest : List (PoolCall Block))
    (call : PoolCall Block)
    → writes w ≡ true
    → writes call ≡ false
    → queue ≡ call ∷ rest
    → Queues w behind queue
    → Queues w behind rest
Queues-shared w behind queue rest call wants reads first ([], new, e) =
    let same : w ≡ call = cc (sym e ∙ first) in
    absurd (reads-ne-writes call reads (subst (λ k. writes k ≡ true) same wants))
Queues-shared w behind queue rest call wants reads first (a ∷ ahead, new, e) =
    (ahead, new, cc (sym first ∙ e))

-- The call `held` has the lock since before anything returned on the client, which is stalled; and `w`
-- waits with the calls of `behind` next after it.
pub record IsBlocked {Block : Type 0} (c : Client) (held : PoolCall Block × ℕ) (w : PoolCall Block)
    (behind : List (PoolCall Block)) (s : Shared Block) : Type 0 where
  pub stalled : IsStalled c s.system
  pub since : held.1 ≡ s.returned
  pub holds : Holds held s.holders
  pub keeps : All Keeps s.holders
  pub waits : Queues w behind s.queue

module _ (crypto : Crypto) {Block : Type 0} (parts : BlockParts Block)
    {speaks : Bytes → Type 0} where
  returns_nothing :
      {c : Client} {s t : System}
      → IsStalled c s
      → (step : Step crypto speaks s t) → returns_with crypto parts step ≡ 0
  returns_nothing stalled (asks call connected) = refl
  returns_nothing stalled (locks free first) = refl
  returns_nothing {s} stalled (unlocks {call} has h) =
      absurd (IsStalled-ne-CanReturn crypto s call stalled has h)
  returns_nothing stalled (arrives n said le) = refl
  returns_nothing stalled (closes said) = refl

-- The held call is not one that can end.
held_can :
    {Block : Type 0} (crypto : Crypto) (decrypts : DecryptsBytes crypto) (parts : BlockParts Block)
    (held : PoolCall Block × ℕ) (call : PoolCall Block) (since : ℕ) (c : Client) (s : Shared Block)
    → IsOnline c
    → Requests parts held.0
    → s.system.client ≡ c
    → held ≡ (call, since)
    → CanEnd crypto parts call since s
    → held.1 < s.returned
held_can crypto decrypts parts held call since c s online asking same e can =
    elim (subst (λ (h : PoolCall _ × ℕ). CanEnd crypto parts h.0 h.1 s) (sym e) can) [
      | inl alone ↦ absurd (
          client_of-Requests crypto decrypts parts held.0 c online asking
            (subst (λ d. client_of crypto parts held.0 d ≡ some d) same alone))
      | inr less ↦ less
    ]

module _ (crypto : Crypto) (decrypts : DecryptsBytes crypto) {Block : Type 0}
    (parts : BlockParts Block) {speaks : Bytes → Type 0} {c : Client} {held : PoolCall Block × ℕ}
    {w : PoolCall Block} {behind : List (PoolCall Block)} (quiet : ¬ speaks (sent_on c.stream))
    (online : IsOnline c) (asking : Requests parts held.0) (wants : writes w ≡ true) where
  PoolStep-IsBlocked :
      {s t : Shared Block}
      → IsBlocked c held w behind s
      → PoolStep crypto parts speaks s t
      → IsBlocked c held w behind t
  PoolStep-IsBlocked {s = s} b (calls call) = record {
    stalled = b.stalled;
    since = b.since;
    holds = b.holds;
    keeps = b.keeps;
    waits = Queues-asked w behind s.queue call b.waits;
  }
  PoolStep-IsBlocked {s = s} b (shares {call} {rest} first reads all_read) = record {
    stalled = b.stalled;
    since = b.since;
    holds = inr b.holds;
    keeps = (reads-Keeps call reads, b.keeps);
    waits = Queues-shared w behind s.queue rest call wants reads first b.waits;
  }
  PoolStep-IsBlocked b (takes first free) = absurd (subst (Holds held) free b.holds)
  PoolStep-IsBlocked {s = s} b (ends call since before after next has can same) =
      let keeps = subst (All Keeps) has b.keeps in
      let others = All-append_right Keeps before ((call, since) ∷ after) keeps in
      record {
        stalled =
            subst (IsStalled c) (sym (ClientAfter-same call s.system next others.0 same)) b.stalled;
        since = b.since;
        holds =
            Holds-removed held (call, since) before after (subst (Holds held) has b.holds)
              λ e. omega (
                arith,
                held_can crypto decrypts parts held call since c s online asking b.stalled.same e
                    can,
                b.since,
              );
        keeps =
            All-append Keeps before after
              (All-append_left Keeps before ((call, since) ∷ after) keeps) others.1;
        waits = b.waits;
      }
  PoolStep-IsBlocked b (on_client step) = record {
    stalled = Reach-IsStalled crypto quiet b.stalled (later here step);
    since = omega (arith, returns_nothing crypto parts b.stalled step, b.since);
    holds = b.holds;
    keeps = b.keeps;
    waits = b.waits;
  }

  -- Let decryption give bytes and let the pool's client be online. Let a submission, or the update to a
  -- template of which the first transaction has an output, hold the pool's lock, since before any send or receive returned on
  -- the pool's client; let a receive have the stream's lock or be the next to get it, with fewer than
  -- four bytes arrived; let the pool neither send nor close before it is sent more than it has been;
  -- and let a call wait for the write lock. Then in every state that the tasks and the pool can reach,
  -- the call still holds the lock, nothing has returned on the client, and that call and the ones
  -- behind it, questions about the status and reconnects too, still wait.
  pub PoolReach-IsBlocked :
      {s t : Shared Block}
      → IsBlocked c held w behind s
      → PoolReach crypto parts speaks s t
      → IsBlocked c held w behind t
  PoolReach-IsBlocked b PoolReach.here = b
  PoolReach-IsBlocked b (PoolReach.later path step) =
      PoolStep-IsBlocked (PoolReach-IsBlocked b path) step
