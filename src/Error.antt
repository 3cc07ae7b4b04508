-- ===== src/Error.antt =====
-- src/error.rs: the module's error type, its display, and the results of fallible code.
-- A Rust `String` is the list of its bytes. An error of another library is the text that it is
-- displayed with, which is all that the source uses of it.
pub mod Ensures
use Prim.Native.Char.{code}
use blvm_datum.Common.{ℕ, zero, suc, ◌+◌, ◌/◌, ◌%◌, ◌≡◌, refl, ◌⊎◌, inl, inr, Option, none, some}
use blvm_datum.Common.{Bool, true, false, List, [], ◌∷◌, String, ltb, if◌then◌else◌}

abbrev pub Text : Type 0
Text = List ℕ

-- The code points of a literal: its bytes, since every literal of the source is ASCII.
abbrev pub codes : String → Text
codes String.[] = []
codes (String.◌∷◌ c s) = code c ∷ codes s

-- A literal of the source. It stays shut, so that proofs do not compute with texts.
unfoldable pub text : String → Text
text s = codes s

-- `{}` of an unsigned number. A number has fewer decimal digits than its value plus one.
pub decimal_digits : ℕ → ℕ → Text → Text
decimal_digits zero n acc = acc
decimal_digits (suc f) n acc =
    let more = decimal_digits f (n / 10) ((48 + n % 10) ∷ acc) in
    if ltb n 10 then (48 + n) ∷ acc else more

unfoldable pub decimal : ℕ → Text
unfolding decimal_digits
decimal n = decimal_digits (suc n) n []

-- `std::io::Error`, which the source only passes on. `read_exact` makes the first.
pub data IoError : Type 0 where
  unexpected_eof : IoError
  other_io : Text → IoError

pub data DatumError : Type 0 where
  protocol_error : Text → DatumError
  template_error : Text → DatumError
  pool_connection_error : Text → DatumError
  stratum_error : Text → DatumError
  encryption_error : Text → DatumError
  config_error : Text → DatumError
  node_api_error : Text → DatumError
  io_error : IoError → DatumError
  serialization_error : Text → DatumError

-- `impl From<ModuleError> for DatumError`, on the text of the other error.
unfoldable pub from_module_error : Text → DatumError
from_module_error e = node_api_error e

-- What a call does: return a value or an error, or panic.
pub data Result {ℓ} (A : Type ℓ) : Type ℓ where
  ok : A → Result A
  err : DatumError → Result A
  panic : Result A

infixl 5 ◌>>=◌ ◌>>◌
-- The `?` of Rust: the rest runs on a value only.
abbrev pub ◌>>=◌ {ℓ ℓ'} :
    {Value : Type ℓ} {Next : Type ℓ'} → Result Value → (Value → Result Next) → Result Next
panic >>= rest = panic
err e >>= rest = err e
ok value >>= rest = rest value

abbrev pub ◌>>◌ {ℓ} : {Next : Type ℓ} → Result (Unit {0}) → Result Next → Result Next
first >> rest = first >>= λ _. rest

-- An early `return Err(e)` under a test.
abbrev pub fail_if : Bool → DatumError → Result (Unit {0})
fail_if true e = err e
fail_if false e = ok tt

module _ {ℓ} {A : Type ℓ} where
  -- `Option::ok_or_else`
  abbrev pub ok_or : Option A → DatumError → Result A
  ok_or none e = err e
  ok_or (some a) e = ok a

  -- `String`-carrying errors of other libraries under `map_err`.
  abbrev pub map_err : A ⊎ Text → (Text → DatumError) → Result A
  map_err (inl a) f = ok a
  map_err (inr e) f = err (f e)

  abbrev pub Fails : Result A → Type ℓ
  Fails r = (e : DatumError) × (r ≡ err e)

-- A call that returns a value: it neither fails nor panics.
abbrev pub Returns {ℓ} : {A : Type ℓ} → Result A → Type ℓ
Returns {A = A} r = (a : A) × (r ≡ ok a)

module _ {ℓ κ} {A : Type ℓ} {B : Type κ} where
  pub bind-Returns :
      (m : Result A) (f : A → Result B) → Returns m → ((a : A) → Returns (f a)) → Returns (m >>= f)
  bind-Returns m f (a, e) h = rw e (h a)

module _ {ℓ} {A : Type ℓ} where
  pub ok-injective : {a b : A} → ok a ≡ ok b → a ≡ b
  ok-injective e = cc
