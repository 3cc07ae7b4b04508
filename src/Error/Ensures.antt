-- ===== src/Error/Ensures.antt =====
-- Postconditions of fallible code: the call does not panic, and `P` holds of the value if it
-- returns one.
use blvm_datum.Common.{
  ◌≡◌, ◌≢◌, refl, subst, Bool, true, false, if◌then◌else◌, ◌⊎◌, inl, inr, Option, some, none,
}
use blvm_datum.Error.{
  Result, ok, err, panic, DatumError, fail_if, Text, map_err, ok_or, ◌>>=◌, ◌>>◌,
}

pub data Ensures {ℓ κ} {A : Type ℓ} (P : A → Type κ) : Result A → Type (ℓ ⊔ κ) where
  holds : {a : A} → P a → Ensures P (ok a)
  failed : {e : DatumError} → Ensures P (err e)

module _ {ℓ κ} {A : Type ℓ} {P : A → Type κ} where
  pub Ensures-ok : {r : Result A} {a : A} → Ensures P r → r ≡ ok a → P a
  Ensures-ok (holds h) e = subst P (cc) h
  Ensures-ok failed e = cc

  pub Ensures-ne-panic : {r : Result A} → Ensures P r → r ≢ panic
  Ensures-ne-panic (holds h) e = cc
  Ensures-ne-panic failed e = cc

  -- Behind a test, its having failed is known.
  pub Ensures-fail_if :
      (b : Bool) (e : DatumError) {k : Result A}
      → (b ≡ false → Ensures P k)
      → Ensures P (fail_if b e >> k)
  Ensures-fail_if true e h = failed
  Ensures-fail_if false e h = h refl

  pub Ensures-if :
      (b : Bool) {x y : Result A}
      → (b ≡ true → Ensures P x)
      → (b ≡ false → Ensures P y)
      → Ensures P (if b then x else y)
  Ensures-if true hx hy = hx refl
  Ensures-if false hx hy = hy refl

  -- A first step whose value is known.
  pub Ensures-value {ℓ'} :
      {B : Type ℓ'} {m : Result B} (f : B → Result A) (b : B)
      → m ≡ ok b
      → Ensures P (f b)
      → Ensures P (m >>= f)
  Ensures-value f b e h = rw e h

  -- A first step of which a postcondition is known.
  pub Ensures-bind {ℓ' κ'} :
      {B : Type ℓ'} {Q : B → Type κ'} {m : Result B} {f : B → Result A}
      → Ensures Q m
      → ((b : B) → Q b → Ensures P (f b))
      → Ensures P (m >>= f)
  Ensures-bind (holds {a} q) h = h a q
  Ensures-bind failed h = failed

  pub Ensures-map {κ'} :
      {Q : A → Type κ'} {r : Result A} → Ensures Q r → ((a : A) → Q a → P a) → Ensures P r
  Ensures-map (holds {a} q) h = holds (h a q)
  Ensures-map failed h = failed

-- Code that cannot panic.
pub map_err-Ensures {ℓ} :
    {A : Type ℓ} (r : A ⊎ Text) (f : Text → DatumError) → Ensures (λ a. r ≡ inl a) (map_err r f)
map_err-Ensures (inl a) f = holds refl
map_err-Ensures (inr e) f = failed

pub ok_or-Ensures {ℓ} :
    {A : Type ℓ} (o : Option A) (e : DatumError) → Ensures (λ a. o ≡ some a) (ok_or o e)
ok_or-Ensures none e = failed
ok_or-Ensures (some a) e = holds refl

pub fail_if-Ensures : (b : Bool) (e : DatumError) → Ensures (λ _. b ≡ false) (fail_if b e)
fail_if-Ensures true e = failed
fail_if-Ensures false e = holds refl

pub Ensures-any {ℓ κ} :
    {A : Type ℓ} {P : A → Type κ} {r : Result A} → Ensures P r → Ensures (λ a. Unit {0}) r
Ensures-any (holds h) = holds tt
Ensures-any failed = failed
