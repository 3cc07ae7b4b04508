-- ===== src/Api/Methods.antt =====
-- Which methods the module API knows.
use blvm_datum.Common.{
  ℕ, ◌≡◌, ◌≢◌, ◌↔◌, ap, Bool, false, Bool-cases, inl, inr, ◌∷◌, ◌++◌, ◌⊎◌, All, arith,
}
use blvm_datum.Error.{Result, ok, err, panic, Text, text, codes}
use blvm_datum.Bytes.{Bytes}
use blvm_datum.Crypto.{Crypto}
use blvm_datum.Client.Handshake.{bytes_eq}
use blvm_datum.Pool.{Pool}
use blvm_datum.Server.{Block}
use blvm_datum.Api.{
  ApiParts, ApiResult, operation_error, list_methods, written, submission, handle_request,
  handle_request-unlisted,
}

abbrev pub unknown : Text → ApiResult
unknown method = operation_error (text "Unknown method: " ++ method)

-- The first character of an error's text.
first_code : ApiResult → ℕ
first_code (operation_error (c ∷ rest)) = c
first_code _ = 0

written-ne-unknown : (r : Bytes ⊎ Text) (method : Text) → written r ≢ unknown method
unfolding text first_code
written-ne-unknown (inl bytes) method e = let first = ap first_code e in omega (arith, first)
written-ne-unknown (inr problem) method e = let first = ap first_code e in omega (arith, first)

module _ {Json Header : Type 0} (parts : ApiParts Json Header) where
  submission-ne-unknown : (r : Result Bool) (method : Text) → submission parts r ≢ unknown method
  unfolding text first_code
  submission-ne-unknown (ok b) method e = written-ne-unknown _ method e
  submission-ne-unknown (err x) method e = let first = ap first_code e in omega (arith, first)
  submission-ne-unknown panic method e = let first = ap first_code e in omega (arith, first)

module _ {Json Header Tx : Type 0} (parts : ApiParts Json Header) where
  refused_unlisted :
      (crypto : Crypto) (method : Text) (params : Bytes) (p : Pool (Block Header Tx))
      → (handle_request parts crypto method params p).0 ≡ unknown method
      → All (λ name. bytes_eq method name ≡ false) list_methods
  unfolding handle_request list_methods
  refused_unlisted crypto method params p e =
      elim (Bool-cases (bytes_eq method (codes "get_coinbase_payout"))) [
        | inl is ↦ absurd (written-ne-unknown _ method (rw is at e))
        | inr n1 ↦ elim (Bool-cases (bytes_eq method (codes "submit_pow"))) [
          | inl is ↦ absurd (submission-ne-unknown parts _ method (rw (n1, is) at e))
          | inr n2 ↦ elim (Bool-cases (bytes_eq method (codes "get_pool_status"))) [
            | inl is ↦ absurd (written-ne-unknown _ method (rw (n1, n2, is) at e))
            | inr n3 ↦ elim (Bool-cases (bytes_eq method (codes "get_last_block"))) [
              | inl is ↦ absurd (written-ne-unknown _ method (rw (n1, n2, n3, is) at e))
              | inr n4 ↦ (n1, (n2, (n3, (n4, tt))))
            ]
          ]
        ]
      ]

  -- A request is refused as unknown exactly if its method is not one of those that `list_methods`
  -- names.
  pub handle_request-unknown_iff :
      (crypto : Crypto) (method : Text) (params : Bytes) (p : Pool (Block Header Tx))
      → ((handle_request parts crypto method params p).0 ≡ unknown method)
        ↔ All (λ name. bytes_eq method name ≡ false) list_methods
  handle_request-unknown_iff crypto method params p = (
    refused_unlisted crypto method params p,
    λ h.
        ap (λ (out : ApiResult × Pool (Block Header Tx)). out.0)
          (handle_request-unlisted parts crypto method params p h),
  )
