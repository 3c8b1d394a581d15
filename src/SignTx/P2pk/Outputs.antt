-- ===== src/SignTx/P2pk/Outputs.antt =====
-- src/commands/signtx/operations/stx_op_p2pk.c: the outputs.
use ledger_app_ergo.Prelude.{ℕ, Bool, true, false, some, List, ◌||◌}
use ledger_app_ergo.Prelude.Flow.{Body, Function, ◌>>=◌, ◌>>◌, ret, pure, modify, call, function}
use ledger_app_ergo.Sdk.{Buffer}
use ledger_app_ergo.Sw.{sw_ok, sw_from_tx_full_result}
use ledger_app_ergo.Common.Buffer.{buffer_read_ptr, buffer_data_len}
use ledger_app_ergo.Prelude.{◌%◌, u16_mod}
use ledger_app_ergo.Helpers.Session.{network_id_is_mainnet}
use ledger_app_ergo.Ergo.Full.{
  FullResult, ergo_tx_serializer_full_is_finished, ergo_tx_serializer_full_set_box_callbacks,
}
use ledger_app_ergo.Ergo.Full.Outputs.{
  ergo_tx_serializer_full_add_box, ergo_tx_serializer_full_add_box_ergo_tree,
  ergo_tx_serializer_full_add_box_change_tree, ergo_tx_serializer_full_add_box_miners_fee_tree,
  ergo_tx_serializer_full_add_box_tokens, ergo_tx_serializer_full_add_box_registers,
}
use ledger_app_ergo.SignTx.Output.{
  OutputInfo, Bip32Path, stx_output_info_init, stx_output_info_add_tree_chunk,
  stx_output_info_set_fee, stx_output_info_set_bip32,
}
use ledger_app_ergo.SignTx.Context.{outputs_started}
use ledger_app_ergo.SignTx.P2pk.{
  handler_err, is_inputs_started, is_outputs_started, p2pk_output_type_cb, p2pk_output_token_cb,
  p2pk_output_finished_cb, on_output, p2pk_of, shared_of, set_shared, set_state, check_proper_state,
  check_call_result_sw_ok, on_tx, on_tx_context, check_tx_call_result_ok, check_tx_finished,
}
use ledger_app_ergo.App.{App, Device}

module _ {H : Type 0} (d : Device H) where
  -- A call on `&ctx->transaction.ui.output`.
  abbrev pub on_output_info : Function ℕ (OutputInfo H) → Function ℕ (App H)
  on_output_info f s =
      let (code, shared) = on_output f (shared_of d s) in (code, set_shared d shared s)

  abbrev pub init_output : ℕ → App H → App H
  init_output value s =
      let shared = shared_of d s in
      set_shared d
        (record shared { env = record shared.env { output = stx_output_info_init value } }) s

  unfoldable pub stx_operation_p2pk_add_output :
      (value ergo_tree_size creation_height tokens_count registers_size : ℕ) → Function ℕ (App H)
  unfolding handler_err ergo_tx_serializer_full_add_box ergo_tx_serializer_full_set_box_callbacks
  stx_operation_p2pk_add_output value tree_size height tokens registers = function do
    check_proper_state d (λ state. is_inputs_started state || is_outputs_started state)
    check_tx_call_result_ok d (
        on_tx d
          (ergo_tx_serializer_full_add_box d.hs d.layout value tree_size height tokens registers))
    check_tx_call_result_ok d (
        on_tx_context d (
          ergo_tx_serializer_full_set_box_callbacks d.layout (some p2pk_output_type_cb)
            (some p2pk_output_token_cb) (some (p2pk_output_finished_cb d))))
    modify (init_output value)
    modify (set_state d outputs_started)
    ret sw_ok

  -- The `switch`: whether the tree is finished.
  abbrev pub tree_is_finished : FullResult → Body ℕ (App H) Bool
  tree_is_finished FullResult.ok = pure true
  tree_is_finished FullResult.more_data = pure false
  tree_is_finished err = do handler_err d (sw_from_tx_full_result err); pure false

  unfoldable pub stx_operation_p2pk_add_output_tree_chunk : Buffer → Function ℕ (App H)
  unfolding handler_err ergo_tx_serializer_full_add_box_ergo_tree stx_output_info_add_tree_chunk
      ergo_tx_serializer_full_is_finished
  stx_operation_p2pk_add_output_tree_chunk data_ = function do
    check_proper_state d is_outputs_started
    res ← call (on_tx d (ergo_tx_serializer_full_add_box_ergo_tree d.hs d.layout d.bufs data_))
    is_finished ← tree_is_finished res
    check_call_result_sw_ok d (
        on_output_info (
          stx_output_info_add_tree_chunk d.hs d.hash_of (buffer_read_ptr data_)
            (buffer_data_len data_ % u16_mod) is_finished))
    check_tx_finished d
    ret sw_ok

  unfoldable pub stx_operation_p2pk_add_output_tree_fee : Function ℕ (App H)
  unfolding handler_err ergo_tx_serializer_full_add_box_miners_fee_tree stx_output_info_set_fee
      ergo_tx_serializer_full_is_finished
  stx_operation_p2pk_add_output_tree_fee s =
      let is_mainnet = network_id_is_mainnet (p2pk_of d s).network_id in
      function
        (do
          check_proper_state d is_outputs_started
          check_tx_call_result_ok d
              (on_tx d (ergo_tx_serializer_full_add_box_miners_fee_tree d.hs d.layout is_mainnet))
          check_call_result_sw_ok d (on_output_info (stx_output_info_set_fee d.hs d.hash_of))
          check_tx_finished d
          ret sw_ok)
        s

  unfoldable pub stx_operation_p2pk_add_output_tree_change :
      Bip32Path → (pub_key : List ℕ) → Function ℕ (App H)
  unfolding handler_err ergo_tx_serializer_full_add_box_change_tree stx_output_info_set_bip32
      ergo_tx_serializer_full_is_finished
  stx_operation_p2pk_add_output_tree_change path pub_key = function do
    check_proper_state d is_outputs_started
    check_tx_call_result_ok d
        (on_tx d (ergo_tx_serializer_full_add_box_change_tree d.hs d.layout pub_key))
    check_call_result_sw_ok d (on_output_info (stx_output_info_set_bip32 d.hs d.hash_of path))
    check_tx_finished d
    ret sw_ok

  unfoldable pub stx_operation_p2pk_add_output_tokens : Buffer → Function ℕ (App H)
  unfolding handler_err ergo_tx_serializer_full_add_box_tokens ergo_tx_serializer_full_is_finished
  stx_operation_p2pk_add_output_tokens data_ = function do
    check_proper_state d is_outputs_started
    check_tx_call_result_ok d
        (on_tx d (ergo_tx_serializer_full_add_box_tokens d.hs d.layout d.bufs data_))
    check_tx_finished d
    ret sw_ok

  unfoldable pub stx_operation_p2pk_add_output_registers : Buffer → Function ℕ (App H)
  unfolding handler_err ergo_tx_serializer_full_add_box_registers
      ergo_tx_serializer_full_is_finished
  stx_operation_p2pk_add_output_registers data_ = function do
    check_proper_state d is_outputs_started
    check_tx_call_result_ok d
        (on_tx d (ergo_tx_serializer_full_add_box_registers d.hs d.layout d.bufs data_))
    check_tx_finished d
    ret sw_ok
