-- ===== src/SignTx/Handler/Dispatch.antt =====
-- src/commands/signtx/stx_handler.c: which handler a message goes to.
use ledger_app_ergo.Prelude.{ℕ, Bool, true, false, ◌==◌, not, ◌&&◌}
use ledger_app_ergo.Prelude.Flow.{Function, ◌>>=◌, ◌>>◌, ret, read, modify, when, call, function}
use ledger_app_ergo.Sdk.{Buffer}
use ledger_app_ergo.Sw.{sw_bad_state, sw_bad_session_id, sw_wrong_p1p2, sw_wrong_subcommand}
use ledger_app_ergo.SignTx.Handler.{
  Step, handler_err, handle_init_p2pk, handle_tx_start, handle_tokens, handle_input_frame,
  handle_input_context_extension, handle_data_inputs, handle_sign_confirm,
}
use ledger_app_ergo.SignTx.Handler.Outputs.{
  handle_output_init, handle_output_tree_chunk, handle_output_tree_fee, handle_output_tree_change,
  handle_output_tokens, handle_output_registers,
}
use ledger_app_ergo.App.{
  App, Device, Command, cmd_sign_transaction, app_set_current_command, app_sign_transaction_context,
  res_ui_busy, res_error,
}

-- The values of the enumeration, and any other one.
pub data SignTxSubcommand : Type 0 where
  sign_pk start_tx token_ids input_frame input_context_extension data_input : SignTxSubcommand
  output output_tree_chunk output_miners_fee_tree output_change_tree : SignTxSubcommand
  output_tokens output_registers confirm unknown : SignTxSubcommand

abbrev pub is_sign_transaction : Command → Bool
is_sign_transaction cmd_sign_transaction = true
is_sign_transaction _ = false

module _ {H : Type 0} (d : Device H) where
  -- `CHECK_COMMAND` and `CHECK_SESSION`
  abbrev pub check_command : Step H (Unit {0})
  check_command s =
      when (not (is_sign_transaction s.current_command)) (handler_err d sw_bad_state) s

  abbrev pub check_session : ℕ → Step H (Unit {0})
  check_session session_id s =
      when (not (session_id == (app_sign_transaction_context d s).session))
        (handler_err d sw_bad_session_id) s

  -- The handlers behind these checks.
  unfoldable pub handle_subcommand : SignTxSubcommand → Buffer → Function (Unit {0}) (App H)
  unfolding handler_err
  handle_subcommand start_tx cdata = handle_tx_start d cdata
  handle_subcommand token_ids cdata = handle_tokens d cdata
  handle_subcommand input_frame cdata = λ s. handle_input_frame d s.session_key cdata s
  handle_subcommand input_context_extension cdata = handle_input_context_extension d cdata
  handle_subcommand data_input cdata = handle_data_inputs d cdata
  handle_subcommand output cdata = handle_output_init d cdata
  handle_subcommand output_tree_chunk cdata = handle_output_tree_chunk d cdata
  handle_subcommand output_miners_fee_tree cdata = handle_output_tree_fee d cdata
  handle_subcommand output_change_tree cdata = handle_output_tree_change d cdata
  handle_subcommand output_tokens cdata = handle_output_tokens d cdata
  handle_subcommand output_registers cdata = handle_output_registers d cdata
  handle_subcommand confirm cdata = handle_sign_confirm d
  handle_subcommand _ cdata = function (handler_err d sw_wrong_subcommand)

  abbrev pub checked_subcommand : SignTxSubcommand → Buffer → (session : ℕ) → Step H (Unit {0})
  checked_subcommand subcommand cdata session = do
    check_command
    check_session session
    call (handle_subcommand subcommand cdata)

  abbrev pub start_signing : Buffer → (token : ℕ) → Step H (Unit {0})
  start_signing cdata token = do
    when (not (token == 0x01) && not (token == 0x02)) do modify (res_error sw_wrong_p1p2); ret tt
    modify (app_set_current_command cmd_sign_transaction)
    s ← read
    call (handle_init_p2pk d cdata (token == 0x02) s.connected_app_id)

  -- The `switch`.
  unfoldable pub run_subcommand : SignTxSubcommand → Buffer → ℕ → Step H (Unit {0})
  unfolding handler_err app_set_current_command handle_subcommand
  run_subcommand sign_pk cdata token = start_signing cdata token
  run_subcommand unknown cdata session = handler_err d sw_wrong_subcommand
  run_subcommand subcommand cdata session = checked_subcommand subcommand cdata session

  unfoldable pub handler_sign_transaction :
      Buffer → SignTxSubcommand → (session_or_token : ℕ) → Function (Unit {0}) (App H)
  unfolding run_subcommand
  handler_sign_transaction cdata subcommand session_or_token = function do
    s ← read
    when s.is_ui_busy do modify res_ui_busy; ret tt
    run_subcommand subcommand cdata session_or_token
