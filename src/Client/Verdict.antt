-- ===== src/Client/Verdict.antt =====
-- The answer to a submission, as `submit_pow` reads it.
use blvm_datum.Common.{
  ℕ, ◌≡◌, ◌↔◌, refl, sym, ap, subst₂, ◌∙◌, Bool, true, false, [], ◌∷◌, arith, ◌==◌, ==→eq,
  Bool-cases, inl, inr,
}
use blvm_datum.Error.{ok}
use blvm_datum.Bytes.{Bytes}
use blvm_datum.Client.Transport.{verdict_of, first_verdict, read_verdict}

-- The codes of the protocol.
pub data IsVerdict : ℕ → Bool → Type 0 where
  accepted : IsVerdict 0x50 true
  accepted_tentatively : IsVerdict 0x55 true
  rejected : IsVerdict 0x66 false

verdict_of-IsVerdict : (code : ℕ) (b : Bool) → verdict_of code ≡ ok b → IsVerdict code b
unfolding verdict_of
verdict_of-IsVerdict code b e = elim (Bool-cases (code == 0x50)) [
  | inl is ↦ subst₂ IsVerdict (sym (==→eq code 0x50 is)) (cc (rw is at e)) accepted
  | inr differs ↦ elim (Bool-cases (code == 0x55)) [
    | inl is ↦
        subst₂ IsVerdict (sym (==→eq code 0x55 is)) (cc (rw (differs, is) at e))
          accepted_tentatively
    | inr differs' ↦ elim (Bool-cases (code == 0x66)) [
      | inl is ↦
          subst₂ IsVerdict (sym (==→eq code 0x66 is)) (cc (rw (differs, differs', is) at e))
            rejected
      | inr unknown ↦ absurd (cc (rw (differs, differs', unknown) at e))
    ]
  ]
]

IsVerdict-verdict_of : {code : ℕ} {b : Bool} → IsVerdict code b → verdict_of code ≡ ok b
unfolding verdict_of
IsVerdict-verdict_of accepted = refl
IsVerdict-verdict_of accepted_tentatively = refl
IsVerdict-verdict_of rejected = refl

read_verdict-cons : (code : ℕ) (rest : Bytes) → read_verdict (code ∷ rest) ≡ verdict_of code
unfolding read_verdict first_verdict
read_verdict-cons code rest = ground arith

-- An answer counts as accepted exactly if it begins with 0x50 or 0x55, and as rejected exactly if it
-- begins with 0x66; what follows that byte plays no part.
pub read_verdict_iff :
    (message : Bytes) (b : Bool)
    → (read_verdict message ≡ ok b)
      ↔ ((code : ℕ) × (rest : Bytes) × (message ≡ code ∷ rest) × IsVerdict code b)
read_verdict_iff [] b = (λ e. unfold read_verdict in cc, λ (code, rest, e, v). cc)
read_verdict_iff (code ∷ rest) b = (
  λ e. (code, rest, refl, verdict_of-IsVerdict code b (sym (read_verdict-cons code rest) ∙ e)),
  λ (code', rest', e, v).
      ap read_verdict e ∙ read_verdict-cons code' rest' ∙ IsVerdict-verdict_of v,
)
