-- ===== src/Client/Dispatch.antt =====
-- Which messages reach the handler.
use blvm_datum.Common.{◌≡◌, refl}
use blvm_datum.Error.{Result, ok}
use blvm_datum.Bytes.{Bytes}
use blvm_datum.Crypto.{Crypto}
use blvm_datum.Messages.{
  DatumCommand, IsNarrow, narrow_handshake, narrow_fetch_coinbaser, narrow_submit_pow,
  narrow_job_update,
}
use blvm_datum.Handlers.{MessageHandler, dispatch}
use blvm_datum.Client.{Client, M, then_result}
use blvm_datum.Client.Logic.{Meets, returns, fails}
use blvm_datum.Client.Transport.{receive_message_internal, receive_message, handle_protocol_message}
use blvm_datum.Client.Receive.{ReadsBytes, receive_message_internal-Meets}

dispatch-IsNarrow :
    (h : MessageHandler) (c : DatumCommand) (bytes : Bytes)
    → IsNarrow c
    → dispatch h c bytes ≡ ok tt
unfolding dispatch
dispatch-IsNarrow h _ bytes narrow_handshake = refl
dispatch-IsNarrow h _ bytes narrow_fetch_coinbaser = refl
dispatch-IsNarrow h _ bytes narrow_submit_pow = refl
dispatch-IsNarrow h _ bytes narrow_job_update = refl

-- A second step that changes nothing where the first one returns.
then_same {ℓ κ κ'} :
    {A : Type ℓ} {P : A → Client → Type κ} {Q : Client → Type κ'} (f : A → M A) {r : Result A}
    {c : Client}
    → Meets P Q r c
    → ((a : A) (d : Client) → P a d → f a d ≡ (ok a, d))
    → then_result r c f ≡ (r, c)
then_same f (returns {a} {c = d} p) h = h a d p
then_same f (fails q) h = refl

-- Whatever bytes are to be read, `receive_message` does what `receive_message_internal` does: no
-- message reaches the handler.
pub receive_message-internal :
    (crypto : Crypto) (c : Client)
    → ReadsBytes c.stream
    → receive_message crypto c ≡ receive_message_internal crypto c
unfolding receive_message handle_protocol_message
receive_message-internal crypto c h =
    then_same _ (receive_message_internal-Meets crypto c h)
      λ (command, message) d p. cc (dispatch-IsNarrow d.message_handler command message p.0)
