-- ===== src/SignTx/P2pk/Steps.antt =====
-- The state machine of a signing: the operations of stx_op_p2pk.c, and what each may do to the context.
pub mod Inputs
pub mod Outputs
pub mod All
use ledger_app_ergo.Prelude.{
  ℕ, ◌≡◌, ◌≢◌, ◌⊎◌, inl, inr, refl, Bool, true, false, Bool-cases, List, some, ◌||◌, ◌%◌, u16_mod,
  not, arith,
}
use ledger_app_ergo.Prelude.Flow.{
  Flow, Body, Function, ◌>>=◌, ◌>>◌, ret, pure, call, function, then_do, result_of,
}
use ledger_app_ergo.Sdk.{Buffer}
use ledger_app_ergo.Sw.{sw_ok, sw_from_tx_full_result}
use ledger_app_ergo.Ergo.Memory.{Memory}
use ledger_app_ergo.Ergo.Full.Inputs.{
  ergo_tx_serializer_full_init, ergo_tx_serializer_full_add_tokens,
  ergo_tx_serializer_full_add_input, ergo_tx_serializer_full_add_input_tokens,
  ergo_tx_serializer_full_add_input_context_extension, ergo_tx_serializer_full_add_data_inputs,
}
use ledger_app_ergo.Ergo.Full.Outputs.{
  ergo_tx_serializer_full_add_box, ergo_tx_serializer_full_add_box_ergo_tree,
  ergo_tx_serializer_full_add_box_change_tree, ergo_tx_serializer_full_add_box_miners_fee_tree,
  ergo_tx_serializer_full_add_box_tokens, ergo_tx_serializer_full_add_box_registers,
}
use ledger_app_ergo.SignTx.Amounts.{stx_amounts_add_input}
use ledger_app_ergo.Helpers.Session.{network_id_is_mainnet}
use ledger_app_ergo.Common.Buffer.{buffer_read_ptr, buffer_data_len}
use ledger_app_ergo.Ergo.Full.{
  FullResult, FullContext, FullFrame, ergo_tx_serializer_full_set_input_callback,
  ergo_tx_serializer_full_set_box_callbacks, is_finished_state, ergo_tx_serializer_full_is_finished,
}
use ledger_app_ergo.SignTx.Output.{
  Bip32Path, OutputInfo, stx_output_info_add_tree_chunk, stx_output_info_set_fee,
  stx_output_info_set_bip32,
}
use ledger_app_ergo.SignTx.Context.{
  P2pkEnv, P2pk, P2pkState, initialized, tx_started, inputs_started, outputs_started, tx_finished,
  SignTx,
}
use ledger_app_ergo.SignTx.P2pk.{
  on_amounts, on_output, p2pk_input_token_cb, p2pk_output_type_cb, p2pk_output_token_cb,
  p2pk_output_finished_cb, check_proper_state, on_tx, on_tx_context, check_tx_call_result_ok,
  check_call_result_sw_ok, handler_err, is_initialized, is_tx_started, is_inputs_started,
  is_outputs_started, check_tx_finished, set_p2pk, p2pk_of, init_amounts,
  stx_operation_p2pk_start_tx,
}
use ledger_app_ergo.SignTx.P2pk.Inputs.{
  stx_operation_p2pk_add_tokens, stx_operation_p2pk_add_input, stx_operation_p2pk_add_input_tokens,
  stx_operation_p2pk_add_input_context_extension, stx_operation_p2pk_add_data_inputs,
}
use ledger_app_ergo.SignTx.P2pk.Outputs.{
  init_output, on_output_info, tree_is_finished, stx_operation_p2pk_add_output,
  stx_operation_p2pk_add_output_tree_chunk, stx_operation_p2pk_add_output_tree_fee,
  stx_operation_p2pk_add_output_tree_change, stx_operation_p2pk_add_output_tokens,
  stx_operation_p2pk_add_output_registers,
}
use ledger_app_ergo.SignTx.P2pk.Settles.{
  holding, Settles, settled, refused, Settles-check_sw, Settles-check_proper_state, Settles-error,
  Settles-tx, Settles-tx_context, Settles-output_info, Settles-finished,
}
use ledger_app_ergo.App.{App, Device, app_set_current_command}

-- The operations on a transaction, with their arguments.
pub data OpCall : Type 0 where
  start : (inputs data_inputs outputs tokens : ℕ) → OpCall
  tokens : Buffer → OpCall
  input : (box_id : List ℕ) → (amount frames size : ℕ) → OpCall
  input_tokens : (box_id : List ℕ) → ℕ → Buffer → OpCall
  input_extension : Buffer → OpCall
  data_inputs : Buffer → OpCall
  output : (value tree_size height tokens registers : ℕ) → OpCall
  tree_chunk : Buffer → OpCall
  tree_fee : OpCall
  tree_change : Bip32Path → List ℕ → OpCall
  output_tokens : Buffer → OpCall
  output_registers : Buffer → OpCall

unfoldable pub operate : {H : Type 0} → Device H → OpCall → Function ℕ (App H)
operate d (start i di o t) = stx_operation_p2pk_start_tx d i di o t
operate d (tokens b) = stx_operation_p2pk_add_tokens d b
operate d (input id amount frames size) = stx_operation_p2pk_add_input d id amount frames size
operate d (input_tokens id i b) = stx_operation_p2pk_add_input_tokens d id i b
operate d (input_extension b) = stx_operation_p2pk_add_input_context_extension d b
operate d (data_inputs b) = stx_operation_p2pk_add_data_inputs d b
operate d (output v t h k r) = stx_operation_p2pk_add_output d v t h k r
operate d (tree_chunk b) = stx_operation_p2pk_add_output_tree_chunk d b
operate d tree_fee = stx_operation_p2pk_add_output_tree_fee d
operate d (tree_change path key) = stx_operation_p2pk_add_output_tree_change d path key
operate d (output_tokens b) = stx_operation_p2pk_add_output_tokens d b
operate d (output_registers b) = stx_operation_p2pk_add_output_registers d b

-- The states before and after.
abbrev pub Next : OpCall → P2pkState → P2pkState → Type 0
Next (start _ _ _ _) from to = (from ≡ initialized) × (to ≡ tx_started)
Next (tokens _) from to = (from ≡ tx_started) × (to ≡ tx_started)
Next (input _ _ _ _) from to =
    ((from ≡ tx_started) ⊎ (from ≡ inputs_started)) × (to ≡ inputs_started)
Next (output _ _ _ _ _) from to =
    ((from ≡ inputs_started) ⊎ (from ≡ outputs_started)) × (to ≡ outputs_started)
Next (input_tokens _ _ _) from to = (from ≡ inputs_started) × (to ≡ inputs_started)
Next (input_extension _) from to = (from ≡ inputs_started) × (to ≡ inputs_started)
Next (data_inputs _) from to = (from ≡ inputs_started) × (to ≡ inputs_started)
Next _ from to = (from ≡ outputs_started) × ((to ≡ outputs_started) ⊎ (to ≡ tx_finished))

-- What an operation does to the context.
pub record Moves {H : Type 0} (call : OpCall) (c c' : P2pk H) : Type 0 where
  pub next : Next call c.state c'.state
  pub complete : c'.state ≡ tx_finished → ergo_tx_serializer_full_is_finished c'.tx ≡ true
  pub same_path : c'.bip32 ≡ c.bip32
  pub same_key : c'.schnorr_key ≡ c.schnorr_key
  pub same_network : c'.network_id ≡ c.network_id

pub from_initialized : (st : P2pkState) → is_initialized st ≡ true → st ≡ initialized
from_initialized st h = ground arith

pub from_tx_started : (st : P2pkState) → is_tx_started st ≡ true → st ≡ tx_started
from_tx_started st h = ground arith

pub from_inputs_started : (st : P2pkState) → is_inputs_started st ≡ true → st ≡ inputs_started
from_inputs_started st h = ground arith

pub from_outputs_started : (st : P2pkState) → is_outputs_started st ≡ true → st ≡ outputs_started
from_outputs_started st h = ground arith

pub before_inputs :
    (st : P2pkState)
    → (is_tx_started st || is_inputs_started st) ≡ true
    → (st ≡ tx_started) ⊎ (st ≡ inputs_started)
before_inputs tx_started h = inl refl
before_inputs inputs_started h = inr refl
before_inputs _ h = ground arith

pub before_outputs :
    (st : P2pkState)
    → (is_inputs_started st || is_outputs_started st) ≡ true
    → (st ≡ inputs_started) ⊎ (st ≡ outputs_started)
before_outputs inputs_started h = inl refl
before_outputs outputs_started h = inr refl
before_outputs _ h = ground arith

module _ {H : Type 0} where
  -- The context with another state, serializer and memory.
  abbrev pub moved : P2pk H → P2pkState → FullContext (P2pkEnv H) → Memory H (P2pkEnv H) → P2pk H
  moved c st tx mem = record c { state = st; tx = tx; mem = mem }

  abbrev pub Outcome : Device H → SignTx H → App H → OpCall → P2pk H → ℕ × App H → Type 0
  Outcome d x s call c r = Settles d x s (Moves call c) r

  pub Moves-moved :
      (call : OpCall) (c : P2pk H) (st : P2pkState) (tx : FullContext (P2pkEnv H))
      (mem : Memory H (P2pkEnv H))
      → Next call c.state st
      → st ≢ tx_finished
      → Moves call c (moved c st tx mem)
  Moves-moved call c st tx mem next h = record {
    next = next;
    complete = λ e. absurd (h e);
    same_path = refl;
    same_key = refl;
    same_network = refl;
  }
