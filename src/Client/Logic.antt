-- ===== src/Client/Logic.antt =====
-- Postconditions of the client's methods.
use blvm_datum.Common.{◌≡◌, ◌≢◌, refl, subst, Option, some, none}
use blvm_datum.Error.{Result, ok, err, panic, DatumError}
use blvm_datum.Error.Ensures.{Ensures, holds, failed}
use blvm_datum.Stream.{Stream}
use blvm_datum.Client.{Client, M, then_result, ◌>>=◌, lift, on_stream, run_stream}

-- The call does not panic; `P` holds of its value and the state that it leaves, or `Q` of the state
-- that a failing call leaves.
pub data Meets {ℓ κ κ'} {A : Type ℓ} (P : A → Client → Type κ) (Q : Client → Type κ')
    : Result A → Client → Type (ℓ ⊔ κ ⊔ κ') where
  returns : {a : A} {c : Client} → P a c → Meets P Q (ok a) c
  fails : {e : DatumError} {c : Client} → Q c → Meets P Q (err e) c

-- The same for a call on a stream.
pub data StreamMeets {ℓ κ κ'} {B : Type ℓ} (R : B → Stream → Type κ) (S : Stream → Type κ')
    : Result B → Stream → Type (ℓ ⊔ κ ⊔ κ') where
  stream_ok : {b : B} {s : Stream} → R b s → StreamMeets R S (ok b) s
  stream_err : {e : DatumError} {s : Stream} → S s → StreamMeets R S (err e) s

module _ {ℓ κ κ'} {A : Type ℓ} {P : A → Client → Type κ} {Q : Client → Type κ'} where
  pub Meets-ok : {r : Result A} {c : Client} {a : A} → Meets P Q r c → r ≡ ok a → P a c
  Meets-ok (returns {c = d} h) e = subst (λ a. P a d) (cc) h
  Meets-ok (fails h) e = cc

  pub Meets-err : {r : Result A} {c : Client} {x : DatumError} → Meets P Q r c → r ≡ err x → Q c
  Meets-err (returns h) e = cc
  Meets-err (fails h) e = h

  pub Meets-ne-panic : {r : Result A} {c : Client} → Meets P Q r c → r ≢ panic
  Meets-ne-panic (returns h) e = cc
  Meets-ne-panic (fails h) e = cc

  pub Meets-map {κ₁ κ₂} :
      {P' : A → Client → Type κ₁} {Q' : Client → Type κ₂} {r : Result A} {c : Client}
      → Meets P Q r c
      → ((a : A) (d : Client) → P a d → P' a d)
      → ((d : Client) → Q d → Q' d)
      → Meets P' Q' r c
  Meets-map (returns {a} {c = d} h) f g = returns (f a d h)
  Meets-map (fails {c = d} h) f g = fails (g d h)

  -- What was called returned that value and left that state.
  pub Meets-called :
      {r : Result A} {c : Client}
      → Meets P Q r c
      → Meets (λ a d. P a d × (◌≡◌ {A = Result A × Client} (r, c) (ok a, d))) Q r c
  Meets-called (returns h) = returns (h, refl)
  Meets-called (fails h) = fails h

  pub Meets-and {κ₁ κ₂} :
      {P' : A → Client → Type κ₁} {Q' : Client → Type κ₂} {r : Result A} {c : Client}
      → Meets P Q r c
      → Meets P' Q' r c
      → Meets (λ a d. P a d × P' a d) (λ d. Q d × Q' d) r c
  Meets-and (returns h) (returns k) = returns (h, k)
  Meets-and (fails h) (fails k) = fails (h, k)

  pub Meets-bind {ℓ' μ} :
      {B : Type ℓ'} {P' : B → Client → Type μ} (m : M B) (f : B → M A) {c : Client}
      → Meets P' Q (m c).0 (m c).1
      → ((b : B) (d : Client) → P' b d → Meets P Q (f b d).0 (f b d).1)
      → Meets P Q ((m >>= f) c).0 ((m >>= f) c).1
  Meets-bind {P' = P'} m f {c} h k = go (m c).0 (m c).1 h
    where
      go :
          (r : Result _) (d : Client)
          → Meets P' Q r d
          → Meets P Q (then_result r d f).0 (then_result r d f).1
      go _ _ (returns {a} {c = e} p) = k a e p
      go _ _ (fails q) = fails q

  pub Meets-lift {ℓ' μ} :
      {B : Type ℓ'} {P' : B → Type μ} (r : Result B) (f : B → M A) (c : Client)
      → Ensures P' r
      → Q c
      → ((b : B) → P' b → Meets P Q (f b c).0 (f b c).1)
      → Meets P Q ((lift r >>= f) c).0 ((lift r >>= f) c).1
  Meets-lift _ f c (holds {a} h) q k = k a h
  Meets-lift _ f c failed q k = fails q

  -- A call on the stream: `Q` survives a call that fails, and the rest may rely on what the call
  -- returned.
  pub Meets-on_stream {ℓ' μ ν} :
      {B : Type ℓ'} {R : B → Stream → Type μ} {S : Stream → Type ν} (f : Stream → Result B × Stream)
      (k : B → M A) (c : Client)
      → ((s : Stream) → c.stream ≡ some s → StreamMeets R S (f s).0 (f s).1)
      → Q c
      → ((s : Stream) → S s → Q (record c { stream = some s }))
      → ((b : B) (s : Stream)
          → R b s
          → Meets P Q (k b (record c { stream = some s })).0 (k b (record c { stream = some s })).1)
      → Meets P Q ((on_stream f >>= k) c).0 ((on_stream f >>= k) c).1
  Meets-on_stream {R = R} {S = S} f k c hf q qs hk = go c.stream hf
    where
      after :
          (r : Result _) (s : Stream)
          → StreamMeets R S r s
          → Meets P Q
              (then_result r (record c { stream = some s }) k).0
              (then_result r (record c { stream = some s }) k).1
      after _ _ (stream_ok {b} {s} h) = hk b s h
      after _ _ (stream_err {s = s} h) = fails (qs s h)

      go :
          (o : Option Stream)
          → ((s : Stream) → o ≡ some s → StreamMeets R S (f s).0 (f s).1)
          → Meets P Q
              (then_result (run_stream o f c).0 (run_stream o f c).1 k).0
              (then_result (run_stream o f c).0 (run_stream o f c).1 k).1
      go none h = fails q
      go (some s) h = after (f s).0 (f s).1 (h s refl)
