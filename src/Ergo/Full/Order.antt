-- ===== src/Ergo/Full/Order.antt =====
-- The stages of a transaction: what every operation of tx_ser_full.c does to the state.
use ledger_app_ergo.Prelude.{ℕ, ◌≡◌, ◌≢◌, Bool, false, List, refl}
use ledger_app_ergo.Prelude.Flow.{Function}
use ledger_app_ergo.Sdk.{Buffer, BufferSdk, HashSdk}
use ledger_app_ergo.Ergo.Full.{
  FullResult, err_bad_state, FullState, tokens_started, inputs_started, data_inputs_started,
  outputs_started, finished, error, Layout, FullFrame, set_state, is_tokens_started,
  is_inputs_started, is_data_inputs_started, is_outputs_started,
}
use ledger_app_ergo.Ergo.Full.Inputs.{
  ergo_tx_serializer_full_add_tokens, ergo_tx_serializer_full_add_input,
  ergo_tx_serializer_full_add_input_tokens, ergo_tx_serializer_full_add_input_context_extension,
  ergo_tx_serializer_full_add_data_inputs,
}
use ledger_app_ergo.Ergo.Full.Outputs.{
  ergo_tx_serializer_full_add_box, ergo_tx_serializer_full_add_box_ergo_tree,
  ergo_tx_serializer_full_add_box_change_tree, ergo_tx_serializer_full_add_box_miners_fee_tree,
  ergo_tx_serializer_full_add_box_tokens, ergo_tx_serializer_full_add_box_registers,
}

-- The calls that the handler makes once a transaction has been started, with their arguments.
pub data Call : Type 0 where
  tokens : Buffer → Call
  input : (box_id : List ℕ) → (frames size : ℕ) → Call
  input_tokens : (box_id : List ℕ) → ℕ → Buffer → Call
  input_extension : Buffer → Call
  data_inputs : Buffer → Call
  box : (value tree_size height tokens registers : ℕ) → Call
  box_tree : Buffer → Call
  box_change_tree : List ℕ → Call
  box_fee_tree : Bool → Call
  box_tokens : Buffer → Call
  box_registers : Buffer → Call

-- The one stage in which a call is allowed.
abbrev pub stage_of : Call → FullState
stage_of (tokens _) = tokens_started
stage_of (input _ _ _) = inputs_started
stage_of (input_tokens _ _ _) = inputs_started
stage_of (input_extension _) = inputs_started
stage_of (data_inputs _) = data_inputs_started
stage_of (box _ _ _ _ _) = outputs_started
stage_of (box_tree _) = outputs_started
stage_of (box_change_tree _) = outputs_started
stage_of (box_fee_tree _) = outputs_started
stage_of (box_tokens _) = outputs_started
stage_of (box_registers _) = outputs_started

not_tokens_started : (st : FullState) → st ≢ tokens_started → is_tokens_started st ≡ false
not_tokens_started tokens_started h = absurd (h refl)
not_tokens_started inputs_started h = refl
not_tokens_started data_inputs_started h = refl
not_tokens_started outputs_started h = refl
not_tokens_started finished h = refl
not_tokens_started error h = refl

not_inputs_started : (st : FullState) → st ≢ inputs_started → is_inputs_started st ≡ false
not_inputs_started tokens_started h = refl
not_inputs_started inputs_started h = absurd (h refl)
not_inputs_started data_inputs_started h = refl
not_inputs_started outputs_started h = refl
not_inputs_started finished h = refl
not_inputs_started error h = refl

not_data_inputs_started :
    (st : FullState) → st ≢ data_inputs_started → is_data_inputs_started st ≡ false
not_data_inputs_started tokens_started h = refl
not_data_inputs_started inputs_started h = refl
not_data_inputs_started data_inputs_started h = absurd (h refl)
not_data_inputs_started outputs_started h = refl
not_data_inputs_started finished h = refl
not_data_inputs_started error h = refl

not_outputs_started : (st : FullState) → st ≢ outputs_started → is_outputs_started st ≡ false
not_outputs_started tokens_started h = refl
not_outputs_started inputs_started h = refl
not_outputs_started data_inputs_started h = refl
not_outputs_started outputs_started h = absurd (h refl)
not_outputs_started finished h = refl
not_outputs_started error h = refl

module _ {H E : Type 0} (bufs : BufferSdk) (hs : HashSdk H) (layout : Layout E) where
  unfoldable pub perform : Call → Function FullResult (FullFrame H E)
  perform (tokens b) = ergo_tx_serializer_full_add_tokens hs layout bufs b
  perform (input id frames size) = ergo_tx_serializer_full_add_input hs layout id frames size
  perform (input_tokens id i b) = ergo_tx_serializer_full_add_input_tokens hs layout bufs id i b
  perform (input_extension b) = ergo_tx_serializer_full_add_input_context_extension hs layout bufs b
  perform (data_inputs b) = ergo_tx_serializer_full_add_data_inputs hs bufs b
  perform (box v t h k r) = ergo_tx_serializer_full_add_box hs layout v t h k r
  perform (box_tree b) = ergo_tx_serializer_full_add_box_ergo_tree hs layout bufs b
  perform (box_change_tree key) = ergo_tx_serializer_full_add_box_change_tree hs layout key
  perform (box_fee_tree is_mainnet) =
      ergo_tx_serializer_full_add_box_miners_fee_tree hs layout is_mainnet
  perform (box_tokens b) = ergo_tx_serializer_full_add_box_tokens hs layout bufs b
  perform (box_registers b) = ergo_tx_serializer_full_add_box_registers hs layout bufs b

  -- A call of the transaction serializer in any other state than the one of its stage, the error
  -- state and the finished state included, returns the bad-state result and changes nothing but
  -- the state, which becomes the error state.
  pub perform_out_of_order :
      (c : Call) (s : FullFrame H E)
      → s.ctx.state ≢ stage_of c
      → perform c s ≡ (err_bad_state, set_state error s)
  unfolding perform ergo_tx_serializer_full_add_tokens ergo_tx_serializer_full_add_input
      ergo_tx_serializer_full_add_input_tokens ergo_tx_serializer_full_add_input_context_extension
      ergo_tx_serializer_full_add_data_inputs ergo_tx_serializer_full_add_box
      ergo_tx_serializer_full_add_box_ergo_tree ergo_tx_serializer_full_add_box_change_tree
      ergo_tx_serializer_full_add_box_miners_fee_tree ergo_tx_serializer_full_add_box_tokens
      ergo_tx_serializer_full_add_box_registers
  perform_out_of_order (tokens b) s h = rw (not_tokens_started _ h)
  perform_out_of_order (input _ _ _) s h = rw (not_inputs_started _ h)
  perform_out_of_order (input_tokens _ _ _) s h = rw (not_inputs_started _ h)
  perform_out_of_order (input_extension _) s h = rw (not_inputs_started _ h)
  perform_out_of_order (data_inputs _) s h = rw (not_data_inputs_started _ h)
  perform_out_of_order (box _ _ _ _ _) s h = rw (not_outputs_started _ h)
  perform_out_of_order (box_tree _) s h = rw (not_outputs_started _ h)
  perform_out_of_order (box_change_tree _) s h = rw (not_outputs_started _ h)
  perform_out_of_order (box_fee_tree _) s h = rw (not_outputs_started _ h)
  perform_out_of_order (box_tokens _) s h = rw (not_outputs_started _ h)
  perform_out_of_order (box_registers _) s h = rw (not_outputs_started _ h)
