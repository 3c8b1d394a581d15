-- ===== src/SignTx/P2pk/Inputs.antt =====
-- src/commands/signtx/operations/stx_op_p2pk.c: the tokens, the inputs and the data inputs.
use ledger_app_ergo.Prelude.{ℕ, some, List, ◌||◌}
use ledger_app_ergo.Prelude.Flow.{Function, ◌>>◌, ret, modify, function}
use ledger_app_ergo.Sdk.{Buffer}
use ledger_app_ergo.Sw.{sw_ok}
use ledger_app_ergo.Ergo.Full.{ergo_tx_serializer_full_set_input_callback}
use ledger_app_ergo.Ergo.Full.Inputs.{
  ergo_tx_serializer_full_add_tokens, ergo_tx_serializer_full_add_input,
  ergo_tx_serializer_full_add_input_tokens, ergo_tx_serializer_full_add_input_context_extension,
  ergo_tx_serializer_full_add_data_inputs,
}
use ledger_app_ergo.SignTx.Amounts.{stx_amounts_add_input}
use ledger_app_ergo.SignTx.Context.{inputs_started}
use ledger_app_ergo.SignTx.P2pk.{
  handler_err, is_tx_started, is_inputs_started, p2pk_input_token_cb, on_amounts, shared_of,
  set_shared, set_state, check_proper_state, check_call_result_sw_ok, on_tx, on_tx_context,
  check_tx_call_result_ok,
}
use ledger_app_ergo.App.{App, Device}

module _ {H : Type 0} (d : Device H) where
  unfoldable pub stx_operation_p2pk_add_tokens : Buffer → Function ℕ (App H)
  unfolding handler_err ergo_tx_serializer_full_add_tokens
  stx_operation_p2pk_add_tokens cdata = function do
    check_proper_state d is_tx_started
    check_tx_call_result_ok d
        (on_tx d (ergo_tx_serializer_full_add_tokens d.hs d.layout d.bufs cdata))
    ret sw_ok

  -- `stx_amounts_add_input(&ctx->amounts, erg_amount)`
  abbrev add_amount : ℕ → Function ℕ (App H)
  add_amount erg_amount s =
      let (code, shared) = on_amounts (stx_amounts_add_input erg_amount) (shared_of d s) in
      (code, set_shared d shared s)

  unfoldable pub stx_operation_p2pk_add_input :
      (box_id : List ℕ) (erg_amount frames_count extension_length : ℕ) → Function ℕ (App H)
  unfolding handler_err ergo_tx_serializer_full_add_input ergo_tx_serializer_full_set_input_callback
      stx_amounts_add_input
  stx_operation_p2pk_add_input box_id erg_amount frames extension = function do
    check_proper_state d (λ state. is_tx_started state || is_inputs_started state)
    check_tx_call_result_ok d
        (on_tx d (ergo_tx_serializer_full_add_input d.hs d.layout box_id frames extension))
    check_tx_call_result_ok d (
        on_tx_context d
          (ergo_tx_serializer_full_set_input_callback d.layout (some p2pk_input_token_cb)))
    check_call_result_sw_ok d (add_amount erg_amount)
    modify (set_state d inputs_started)
    ret sw_ok

  unfoldable pub stx_operation_p2pk_add_input_tokens :
      (box_id : List ℕ) (frame_index : ℕ) → Buffer → Function ℕ (App H)
  unfolding handler_err ergo_tx_serializer_full_add_input_tokens
  stx_operation_p2pk_add_input_tokens box_id frame_index tokens = function do
    check_proper_state d is_inputs_started
    check_tx_call_result_ok d (
        on_tx d
          (ergo_tx_serializer_full_add_input_tokens d.hs d.layout d.bufs box_id frame_index tokens))
    ret sw_ok

  unfoldable pub stx_operation_p2pk_add_input_context_extension : Buffer → Function ℕ (App H)
  unfolding handler_err ergo_tx_serializer_full_add_input_context_extension
  stx_operation_p2pk_add_input_context_extension data_ = function do
    check_proper_state d is_inputs_started
    check_tx_call_result_ok d
        (on_tx d (ergo_tx_serializer_full_add_input_context_extension d.hs d.layout d.bufs data_))
    ret sw_ok

  unfoldable pub stx_operation_p2pk_add_data_inputs : Buffer → Function ℕ (App H)
  unfolding handler_err ergo_tx_serializer_full_add_data_inputs
  stx_operation_p2pk_add_data_inputs data_ = function do
    check_proper_state d is_inputs_started
    check_tx_call_result_ok d (on_tx d (ergo_tx_serializer_full_add_data_inputs d.hs d.bufs data_))
    ret sw_ok
