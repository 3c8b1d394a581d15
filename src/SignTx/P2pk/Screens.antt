-- ===== src/SignTx/P2pk/Screens.antt =====
-- src/commands/signtx/operations/stx_op_p2pk.c: the operation's part in the screens.
use ledger_app_ergo.Prelude.{ℕ, Bool, true, false, not, ◌||◌}
use ledger_app_ergo.Prelude.Flow.{
  Body, Function, ◌>>=◌, ◌>>◌, ret, read, modify, when, call, function,
}
use ledger_app_ergo.Sw.{sw_ok, sw_bip32_formatting_failed, sw_screens_buffer_overflow}
use ledger_app_ergo.SignTx.Context.{finalized}
use ledger_app_ergo.SignTx.P2pk.{
  handler_err, is_outputs_started, is_tx_finished, p2pk_of, set_p2pk, set_state, check_proper_state,
}
use ledger_app_ergo.SignTx.P2pk.Confirm.{is_blind_signing_tx}
use ledger_app_ergo.SignTx.Ui.{
  ui_add_screen, ui_display_screens, ui_stx_add_operation_approve_screens,
  ui_stx_add_output_screens, ui_stx_add_transaction_screens,
}
use ledger_app_ergo.App.{App, Device}

module _ {H : Type 0} where
  abbrev pub no_screens : App H → App H
  no_screens s = record s { signtx_screen = 0; signtx_outputs_screen = 0 }

  -- `if (!ui_stx_display_screens(signtx_screen)) return SW_SCREENS_BUFFER_OVERFLOW;`
  abbrev pub display_or_return : Body ℕ (App H) (Unit {0})
  display_or_return = do
    s ← read
    displayed ← call (ui_display_screens s.signtx_screen)
    when (not displayed) (ret sw_screens_buffer_overflow)

module _ {H : Type 0} (d : Device H) where
  unfoldable pub ui_stx_operation_p2pk_show_token_and_path :
      (app_access_token : ℕ) (is_known_application : Bool) → Function ℕ (App H)
  unfolding ui_stx_add_operation_approve_screens
  ui_stx_operation_p2pk_show_token_and_path token is_known = function do
    modify no_screens
    s ← read
    let path = (p2pk_of d s).bip32
    when (not (d.formats_path path.path path.len)) (ret sw_bip32_formatting_failed)
    modify ui_add_screen
    added ← call (ui_stx_add_operation_approve_screens d token is_known)
    when (not added) (ret sw_screens_buffer_overflow)
    ret sw_ok

  abbrev require_blind_signing : App H → App H
  require_blind_signing s = set_p2pk d (record (p2pk_of d s) { blind_signing_required = 1 }) s

  -- The warning that blind signing is not enabled.
  abbrev warn : Body ℕ (App H) (Unit {0})
  warn = do
    modify ui_add_screen
    modify ui_add_screen
    modify ui_add_screen
    modify ui_add_screen
    display_or_return
    ret sw_ok

  abbrev pub warn_unless : (blind_signing_enabled : Bool) → Body ℕ (App H) (Unit {0})
  warn_unless true = modify ui_add_screen
  warn_unless false = warn

  abbrev blind_signing : Body ℕ (App H) (Unit {0})
  blind_signing = do modify require_blind_signing; s ← read; warn_unless s.blind_signing_enabled

  unfoldable pub ui_stx_operation_p2pk_show_output_confirm_screen : Function ℕ (App H)
  unfolding handler_err is_blind_signing_tx ui_display_screens ui_stx_add_output_screens
  ui_stx_operation_p2pk_show_output_confirm_screen = function do
    check_proper_state d (λ state. is_outputs_started state || is_tx_finished state)
    s ← read
    when (is_blind_signing_tx (p2pk_of d s).mem.shared.env.output) blind_signing
    added ← call (ui_stx_add_output_screens d)
    when (not added) (ret sw_screens_buffer_overflow)
    ret sw_ok

  unfoldable pub ui_stx_operation_p2pk_show_confirm_screen : Function ℕ (App H)
  unfolding handler_err ui_stx_add_transaction_screens ui_display_screens
  ui_stx_operation_p2pk_show_confirm_screen = function do
    check_proper_state d is_tx_finished
    modify (set_state d finalized)
    added ← call (ui_stx_add_transaction_screens d)
    when (not added) (ret sw_screens_buffer_overflow)
    display_or_return
    ret sw_ok
