-- ===== src/Ergo/Full.antt =====
-- src/ergo/tx_ser_full.h and tx_ser_full.c: the serializer of a whole transaction.
pub mod Inputs
pub mod Outputs
pub mod Order
pub mod Restart
use ledger_app_ergo.Prelude.{
  ℕ, Bool, true, false, Option, none, some, ◌==◌, not, if◌then◌else◌, u16_mod, wrap_pred,
}
use ledger_app_ergo.Prelude.Flow.{
  stop, go, Body, Function, ◌>>=◌, ◌>>◌, ret, pure, read, modify, when, call, function,
}
use ledger_app_ergo.Ergo.Table.{TableResult, TableContext}
use ledger_app_ergo.Ergo.Input.{
  InputResult, InputContext, InputFrame, InputTokenCb, zero_input_context,
  ergo_tx_serializer_input_set_callback,
}
use ledger_app_ergo.Ergo.Box.{
  BoxResult, BoxContext, BoxFrame, BoxTypeCb, BoxTokenCb, BoxFinishedCb,
  ergo_tx_serializer_box_set_callbacks,
}
use ledger_app_ergo.Ergo.Memory.{Memory}

pub data FullResult : Type 0 where
  ok more_data err_bad_token_id err_bad_token_value err_bad_context_extension_size : FullResult
  err_bad_data_input err_bad_input_id err_bad_token_index err_bad_frame_index : FullResult
  err_bad_input_count err_bad_output_count err_too_many_tokens err_too_many_inputs : FullResult
  err_too_many_data_inputs err_too_many_input_frames err_too_many_outputs err_too_much_data :
      FullResult
  err_hasher err_buffer err_bad_state err_u64_overflow err_small_chunk : FullResult

pub data FullState : Type 0 where
  tokens_started inputs_started data_inputs_started outputs_started finished error : FullState

-- The union of the two contexts: what was stored last.
pub data Active (E : Type 0) : Type 0 where
  input_ctx : InputContext E → Active E
  box_ctx : BoxContext E → Active E

-- What a read of one member gives while the other was stored last: the compiler's layout.
pub record Layout (E : Type 0) : Type 0 where
  pub box_of : InputContext E → BoxContext E
  pub input_of : BoxContext E → InputContext E

-- The pointer `hash` is the memory's hash context.
pub record FullContext (E : Type 0) : Type 0 where
  pub state : FullState
  pub inputs_count : ℕ
  pub data_inputs_count : ℕ
  pub outputs_count : ℕ
  pub table_ctx : TableContext
  pub active : Active E

-- What a call works on: its context and the objects that are pointed to.
pub record FullFrame (H E : Type 0) : Type 0 where
  pub ctx : FullContext E
  pub mem : Memory H E

abbrev pub zero_full_context : {E : Type 0} → FullContext E
zero_full_context = record {
  state = tokens_started;
  inputs_count = 0;
  data_inputs_count = 0;
  outputs_count = 0;
  table_ctx = record { distinct_tokens_count = 0 };
  active = input_ctx zero_input_context;
}

abbrev pub is_tokens_started : FullState → Bool
is_tokens_started tokens_started = true
is_tokens_started _ = false

abbrev pub is_inputs_started : FullState → Bool
is_inputs_started inputs_started = true
is_inputs_started _ = false

abbrev pub is_data_inputs_started : FullState → Bool
is_data_inputs_started data_inputs_started = true
is_data_inputs_started _ = false

abbrev pub is_outputs_started : FullState → Bool
is_outputs_started outputs_started = true
is_outputs_started _ = false

abbrev pub is_finished_state : FullState → Bool
is_finished_state finished = true
is_finished_state _ = false

-- `res == OK || res == MORE_DATA`
abbrev pub is_fine : FullResult → Bool
is_fine ok = true
is_fine more_data = true
is_fine _ = false

abbrev pub map_table_result : TableResult → FullResult
map_table_result TableResult.ok = ok
map_table_result TableResult.more_data = more_data
map_table_result TableResult.err_bad_token_id = err_bad_token_id
map_table_result TableResult.err_too_many_tokens = err_too_many_tokens
map_table_result TableResult.err_hasher = err_hasher
map_table_result TableResult.err_buffer = err_buffer

abbrev pub map_input_result : InputResult → FullResult
map_input_result InputResult.ok = ok
map_input_result InputResult.more_data = more_data
map_input_result InputResult.err_bad_context_extension_size = err_bad_context_extension_size
map_input_result InputResult.err_bad_input_id = err_bad_input_id
map_input_result InputResult.err_bad_frame_index = err_bad_frame_index
map_input_result InputResult.err_bad_token_id = err_bad_token_id
map_input_result InputResult.err_bad_token_value = err_bad_token_value
map_input_result InputResult.err_too_many_input_frames = err_too_many_input_frames
map_input_result InputResult.err_too_much_proof_data = err_too_much_data
map_input_result InputResult.err_u64_overflow = err_u64_overflow
map_input_result InputResult.err_hasher = err_hasher
map_input_result InputResult.err_buffer = err_buffer
map_input_result InputResult.err_bad_state = err_bad_state
map_input_result InputResult.err_too_many_tokens = err_too_many_tokens

abbrev pub map_box_result : BoxResult → FullResult
map_box_result BoxResult.ok = ok
map_box_result BoxResult.more_data = more_data
map_box_result BoxResult.err_bad_token_index = err_bad_token_index
map_box_result BoxResult.err_bad_token_id = err_bad_token_id
map_box_result BoxResult.err_bad_token_value = err_bad_token_value
map_box_result BoxResult.err_too_many_tokens = err_too_many_tokens
map_box_result BoxResult.err_too_much_data = err_too_much_data
map_box_result BoxResult.err_hasher = err_hasher
map_box_result BoxResult.err_buffer = err_buffer
map_box_result BoxResult.err_u64_overflow = err_u64_overflow
map_box_result BoxResult.err_bad_state = err_bad_state
map_box_result BoxResult.err_small_chunk = err_small_chunk

module _ {E : Type 0} where
  abbrev pub input_view : Layout E → Active E → InputContext E
  input_view layout (input_ctx c) = c
  input_view layout (box_ctx c) = layout.input_of c

  abbrev pub box_view : Layout E → Active E → BoxContext E
  box_view layout (input_ctx c) = layout.box_of c
  box_view layout (box_ctx c) = c

module _ {H E : Type 0} where
  abbrev pub set_state : FullState → FullFrame H E → FullFrame H E
  set_state state s = record s { ctx = record s.ctx { state = state } }

  -- `return res_error(context, err);`
  abbrev pub res_error : {A : Type 0} → FullResult → Body FullResult (FullFrame H E) A
  res_error err s = stop err (set_state error s)

  abbrev pub check_proper_state : (FullState → Bool) → Body FullResult (FullFrame H E) (Unit {0})
  check_proper_state is s = when (not (is s.ctx.state)) (res_error err_bad_state) s

  -- `CHECK_CALL_RESULT_OK`
  abbrev pub check_call_result_ok :
      Function FullResult (FullFrame H E) → Body FullResult (FullFrame H E) (Unit {0})
  check_call_result_ok f s =
      let (res, s') = f s in if is_fine res then go tt s' else res_error res s'

  -- `CHECK_CALL_DATA_IS_FINISHED`: what is bound behind it is the block.
  abbrev pub check_data : FullResult → Body FullResult (FullFrame H E) (Unit {0})
  check_data ok = pure tt
  check_data more_data = ret more_data
  check_data err = res_error err

  abbrev pub check_call_data_is_finished :
      Function FullResult (FullFrame H E) → Body FullResult (FullFrame H E) (Unit {0})
  check_call_data_is_finished f = do res ← call f; check_data res

  -- A call on the union's input context, on its box context, and on the hash alone.
  abbrev pub on_input :
      Layout E → Function InputResult (InputFrame H E) → Function FullResult (FullFrame H E)
  on_input layout f s =
      let frame : InputFrame H E = record { ctx = input_view layout s.ctx.active; mem = s.mem } in
      let (res, after) = f frame in
      (
        map_input_result res,
        record { ctx = record s.ctx { active = input_ctx after.ctx }; mem = after.mem },
      )

  abbrev pub on_box :
      Layout E → Function BoxResult (BoxFrame H E) → Function FullResult (FullFrame H E)
  on_box layout f s =
      let frame : BoxFrame H E = record { ctx = box_view layout s.ctx.active; mem = s.mem } in
      let (res, after) = f frame in
      (
        map_box_result res,
        record { ctx = record s.ctx { active = box_ctx after.ctx }; mem = after.mem },
      )

module _ {E : Type 0} where
  unfoldable pub ergo_tx_serializer_full_is_finished : FullContext E → Bool
  ergo_tx_serializer_full_is_finished context = is_finished_state context.state

  unfoldable pub ergo_tx_serializer_full_set_input_callback :
      Layout E → Option (InputTokenCb E) → Function FullResult (FullContext E)
  unfolding ergo_tx_serializer_input_set_callback
  ergo_tx_serializer_full_set_input_callback layout callback c =
      let set = ergo_tx_serializer_input_set_callback callback (input_view layout c.active) in
      if is_inputs_started c.state
      then (ok, record c { active = input_ctx set })
      else (err_bad_state, record c { state = error })

  unfoldable pub ergo_tx_serializer_full_set_box_callbacks :
      Layout E
      → Option (BoxTypeCb E)
      → Option (BoxTokenCb E)
      → Option (BoxFinishedCb E)
      → Function FullResult (FullContext E)
  unfolding ergo_tx_serializer_box_set_callbacks
  ergo_tx_serializer_full_set_box_callbacks layout on_type on_token on_finished c =
      let set =
        ergo_tx_serializer_box_set_callbacks on_type on_token on_finished
          (box_view layout c.active) in
      if is_outputs_started c.state
      then (ok, record c { active = box_ctx set })
      else (err_bad_state, record c { state = error })
