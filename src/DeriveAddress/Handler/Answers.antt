-- ===== src/DeriveAddress/Handler/Answers.antt =====
-- Every message to the handler of da_handler.c is answered.
use ledger_app_ergo.Prelude.{
  ℕ, ◌≡◌, ◌≢◌, refl, Bool, true, false, Bool-cases, inl, inr, ◌∷◌, ◌==◌, not, ◌&&◌, List, ap,
}
use ledger_app_ergo.Prelude.Flow.{◌>>◌, modify}
use ledger_app_ergo.Sdk.{Buffer}
use ledger_app_ergo.Sw.{sw_ok, sw_busy, sw_buffer_error}
use ledger_app_ergo.Common.RwBuffer.{RwBuffer, rw_buffer_new_local_empty, rw_buffer_write_bytes}
use ledger_app_ergo.Common.RwBuffer.Contents.{contents}
use ledger_app_ergo.Helpers.CmdMacros.{Step, ret_with}
use ledger_app_ergo.Helpers.CmdMacros.Answers.{
  Answered, replied, reset-Answered, Ends-write, shown-Answered,
}
use ledger_app_ergo.Helpers.Session.{is_known_application}
use ledger_app_ergo.Ergo.Address.{p2pk_address_len}
use ledger_app_ergo.SignTx.Ui.{is_short_of}
use ledger_app_ergo.DeriveAddress.Handler.{
  address_screens, send_response_address, handler_derive_address,
}
use ledger_app_ergo.DeriveAddress.Handler.Ends.{display-Ends, handler-Ends}
use ledger_app_ergo.App.{
  App, Device, res_ok_data, cmd_none, send_data, send_sw, app_set_current_command,
}

pub screens_fit : (send : Bool) (token : ℕ) → is_short_of 2 (address_screens send token) ≡ false
screens_fit true token = elim (Bool-cases (not (token == 0))) [ inl e ↦ rw e | inr e ↦ rw e ]
screens_fit false token = elim (Bool-cases (not (token == 0))) [ inl e ↦ rw e | inr e ↦ rw e ]

module _ {H : Type 0} (d : Device H) (s : App H) where
  abbrev Ans : (Unit {0}) × App H → Type 0
  Ans r = Answered s r.1

  send-Answered :
      (address : List ℕ) (s1 : App H) → s1.sent ≡ s.sent → Ans (send_response_address address s1)
  unfolding send_response_address app_set_current_command
  send-Answered address s1 same =
      let answer : RwBuffer → Step H (Unit {0}) =
        λ b. (do modify (app_set_current_command cmd_none); ret_with (res_ok_data (contents b))) in
      Ends-write Ans
        (rw_buffer_write_bytes (rw_buffer_new_local_empty p2pk_address_len) address
          p2pk_address_len)
        s1 answer (reset-Answered s s1 sw_buffer_error same)
        (λ b _. replied (send_data (contents b)) (ap (λ t. send_data (contents b) ∷ t) same))

  pub handler_derive_address-Answered :
      (b : Buffer) (display has_access_token : Bool)
      → Answered s (handler_derive_address d b display has_access_token s).1
  handler_derive_address-Answered b display has_access_token =
      let fails = λ (code : ℕ) (s1 : App H) (h : code ≢ sw_ok) (same : s1.sent ≡ s.sent).
        reset-Answered s s1 code same in
      handler-Ends d s (Answered s) fails
        (λ code s1 c there h same. replied (send_sw code) (ap (λ t. send_sw code ∷ t) same)) display
        b has_access_token
        (λ token network path len array address s1 requests is_address size same connected no_error
            made.
          elim (Bool-cases (not display && is_known_application token s1.connected_app_id)) [
            | inl e ↦ rw e (send-Answered address s1 same)
            | inr e ↦ rw e (
                display-Ends d s (Answered s) fails (not display) token path len address s1
                  is_address same
                  (shown-Answered s _ (address_screens (not display) token)
                    (screens_fit (not display) token) same))
          ])
        (replied (send_sw sw_busy) refl)
