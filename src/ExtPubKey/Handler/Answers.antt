-- ===== src/ExtPubKey/Handler/Answers.antt =====
-- Every message to the handler of epk_handler.c is answered.
use ledger_app_ergo.Prelude.{
  ℕ, ◌≡◌, inl, inr, refl, Bool, Bool-cases, ◌∷◌, ◌==◌, List, ap, drop, bit_and, get_or,
  if◌then◌else◌, ◌≢◌,
}
use ledger_app_ergo.Prelude.Flow.{◌>>=◌, ◌>>◌, modify}
use ledger_app_ergo.Sdk.{Buffer}
use ledger_app_ergo.Sw.{sw_buffer_error, sw_busy, sw_ok}
use ledger_app_ergo.Common.RwBuffer.{
  RwBuffer, rw_buffer_new_local_empty, rw_buffer_write_u8, rw_buffer_write_bytes,
}
use ledger_app_ergo.Common.RwBuffer.Contents.{contents}
use ledger_app_ergo.Helpers.CmdMacros.{Step, ret_with, check_write_param}
use ledger_app_ergo.Helpers.CmdMacros.Answers.{
  Answered, replied, reset-Answered, Ends-write, shown-Answered,
}
use ledger_app_ergo.Helpers.Crypto.{crypto_generate_public_key}
use ledger_app_ergo.Helpers.Session.{is_known_application}
use ledger_app_ergo.ExtPubKey.Context.{chain_code_len}
use ledger_app_ergo.ExtPubKey.Handler.{
  extended_public_key_len, account_screens, send_response_extended_pubkey,
  handler_get_extended_public_key,
}
use ledger_app_ergo.App.{
  App, Device, cmd_none, res_ok_data, send_data, send_sw, app_set_current_command,
}
use ledger_app_ergo.ExtPubKey.Handler.Ends.{display-Ends, handler-Ends}
use ledger_app_ergo.ExtPubKey.Handler.Exports.{screens_fit}

module _ {H : Type 0} (d : Device H) (s : App H) where
  abbrev Ans : (Unit {0}) × App H → Type 0
  Ans r = Answered s r.1

  send-Answered :
      (key chain_code : List ℕ) (s1 : App H)
      → s1.sent ≡ s.sent
      → Ans (send_response_extended_pubkey key chain_code s1)
  unfolding send_response_extended_pubkey app_set_current_command
  send-Answered key chain_code s1 same =
      let fails = reset-Answered s s1 sw_buffer_error same in
      let tail = λ (r2 : RwBuffer). rw_buffer_write_bytes r2 chain_code chain_code_len in
      let sends : (r2 : RwBuffer) → Step H (Unit {0}) = λ r2. (do
        r3 ← check_write_param (tail r2)
        modify (app_set_current_command cmd_none)
        ret_with (res_ok_data (contents r3))) in
      let body = λ (r1 : RwBuffer). rw_buffer_write_bytes r1 (drop 1 key) 32 in
      let head =
        rw_buffer_write_u8 (rw_buffer_new_local_empty extended_public_key_len)
          (if bit_and (get_or key 64 0) 1 == 0 then 0x02 else 0x03) in
      Ends-write Ans head s1 (λ r1. do r2 ← check_write_param (body r1); sends r2) fails
        (λ r1 _. Ends-write Ans (body r1) s1 sends fails (λ r2 _.
          Ends-write Ans (tail r2) s1 _ fails (λ r3 _.
            replied (send_data (contents r3)) (ap (λ t. send_data (contents r3) ∷ t) same))))

  pub handler_get_extended_public_key-Answered :
      (b : Buffer) (has_access_token : Bool)
      → Answered s (handler_get_extended_public_key d b has_access_token s).1
  handler_get_extended_public_key-Answered b has_access_token =
      let fails = λ (code : ℕ) (s1 : App H) (h : code ≢ sw_ok) (same : s1.sent ≡ s.sent).
        reset-Answered s s1 code same in
      handler-Ends d s (Answered s) fails b has_access_token
        (λ token path len raw s1 requests is_account size same connected no_error.
          let got = crypto_generate_public_key d.crypto path len raw in
          elim (Bool-cases (is_known_application token s1.connected_app_id)) [
            | inl e ↦ rw e (send-Answered got.0 got.1 s1 same)
            | inr e ↦ rw e (
                display-Ends d s (Answered s) fails token path len got.0 got.1 s1 is_account same
                  (shown-Answered s _ (account_screens token) (screens_fit token) same))
          ])
        (replied (send_sw sw_busy) refl)
