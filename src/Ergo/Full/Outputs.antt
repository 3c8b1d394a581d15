-- ===== src/Ergo/Full/Outputs.antt =====
-- src/ergo/tx_ser_full.c: the outputs of a transaction.
use ledger_app_ergo.Prelude.{ℕ, Bool, some, List, ◌==◌, if◌then◌else◌, u16_mod, wrap_pred}
use ledger_app_ergo.Prelude.Flow.{
  Body, Function, ◌>>=◌, ◌>>◌, ret, read, modify, when, call, function,
}
use ledger_app_ergo.Sdk.{Buffer, BufferSdk, HashSdk}
use ledger_app_ergo.Ergo.Box.{ergo_tx_serializer_box_is_finished}
use ledger_app_ergo.Ergo.Box.Trees.{
  ergo_tx_serializer_box_init, ergo_tx_serializer_box_add_tree,
  ergo_tx_serializer_box_add_miners_fee_tree, ergo_tx_serializer_box_add_change_tree,
}
use ledger_app_ergo.Ergo.Box.Tokens.{ergo_tx_serializer_box_add_tokens}
use ledger_app_ergo.Ergo.Box.Registers.{ergo_tx_serializer_box_add_registers}
use ledger_app_ergo.Ergo.Full.{
  FullResult, ok, err_too_many_outputs, finished, Layout, FullFrame, is_outputs_started, box_view,
  set_state, res_error, check_proper_state, check_call_result_ok, check_call_data_is_finished,
  on_box,
}

module _ {H E : Type 0} where
  abbrev one_output_less : FullFrame H E → FullFrame H E
  one_output_less s = record s {
    ctx = record s.ctx { outputs_count = wrap_pred u16_mod s.ctx.outputs_count };
  }

  unfoldable pub output_finished : Function FullResult (FullFrame H E)
  output_finished = function do
    modify one_output_less
    c ← read
    if c.ctx.outputs_count == 0 then (do modify (set_state finished); ret ok) else ret ok

  -- `if (ergo_tx_serializer_box_is_finished(&context->box_ctx)) return output_finished(context);`
  abbrev finish_box : Layout E → Body FullResult (FullFrame H E) FullResult
  finish_box layout s =
      if ergo_tx_serializer_box_is_finished (box_view layout s.ctx.active)
      then (do res ← call output_finished; ret res) s
      else ret ok s

module _ {H E : Type 0} (hs : HashSdk H) (layout : Layout E) where
  unfoldable pub ergo_tx_serializer_full_add_box :
      (value ergo_tree_size creation_height tokens_count registers_size : ℕ)
      → Function FullResult (FullFrame H E)
  unfolding ergo_tx_serializer_box_init
  ergo_tx_serializer_full_add_box value tree_size height tokens registers = function do
    check_proper_state is_outputs_started
    c ← read
    when (c.ctx.outputs_count == 0) (res_error err_too_many_outputs)
    check_call_result_ok
        (on_box layout (ergo_tx_serializer_box_init hs value tree_size height tokens registers))
    ret ok

  unfoldable pub ergo_tx_serializer_full_add_box_ergo_tree :
      BufferSdk → Buffer → Function FullResult (FullFrame H E)
  unfolding ergo_tx_serializer_box_add_tree ergo_tx_serializer_box_is_finished output_finished
  ergo_tx_serializer_full_add_box_ergo_tree bufs tree_chunk = function do
    check_proper_state is_outputs_started
    check_call_data_is_finished (on_box layout (ergo_tx_serializer_box_add_tree hs bufs tree_chunk))
    finish_box layout

  unfoldable pub ergo_tx_serializer_full_add_box_change_tree :
      List ℕ → Function FullResult (FullFrame H E)
  unfolding ergo_tx_serializer_box_add_change_tree ergo_tx_serializer_box_is_finished
      output_finished
  ergo_tx_serializer_full_add_box_change_tree raw_pub_key = function do
    check_proper_state is_outputs_started
    check_call_result_ok (on_box layout (ergo_tx_serializer_box_add_change_tree hs raw_pub_key))
    finish_box layout

  unfoldable pub ergo_tx_serializer_full_add_box_miners_fee_tree :
      Bool → Function FullResult (FullFrame H E)
  unfolding ergo_tx_serializer_box_add_miners_fee_tree ergo_tx_serializer_box_is_finished
      output_finished
  ergo_tx_serializer_full_add_box_miners_fee_tree is_mainnet = function do
    check_proper_state is_outputs_started
    check_call_result_ok (on_box layout (ergo_tx_serializer_box_add_miners_fee_tree hs is_mainnet))
    finish_box layout

  unfoldable pub ergo_tx_serializer_full_add_box_tokens :
      BufferSdk → Buffer → Function FullResult (FullFrame H E)
  unfolding ergo_tx_serializer_box_add_tokens ergo_tx_serializer_box_is_finished output_finished
  ergo_tx_serializer_full_add_box_tokens bufs tokens s =
      let table = s.ctx.table_ctx in
      function
        (do
          check_proper_state is_outputs_started
          check_call_data_is_finished
              (on_box layout (ergo_tx_serializer_box_add_tokens bufs hs tokens (some table)))
          finish_box layout)
        s

  unfoldable pub ergo_tx_serializer_full_add_box_registers :
      BufferSdk → Buffer → Function FullResult (FullFrame H E)
  unfolding ergo_tx_serializer_box_add_registers output_finished
  ergo_tx_serializer_full_add_box_registers bufs registers_chunk = function do
    check_proper_state is_outputs_started
    check_call_data_is_finished
        (on_box layout (ergo_tx_serializer_box_add_registers hs bufs registers_chunk))
    res ← call output_finished
    ret res
