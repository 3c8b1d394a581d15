-- ===== src/Ergo/Full/Inputs.antt =====
-- src/ergo/tx_ser_full.c: the start of a transaction, its token table, inputs and data inputs.
use ledger_app_ergo.Prelude.{
  ℕ, zero, suc, Bool, true, false, Option, none, some, List, ◌==◌, not, if◌then◌else◌, u16_mod,
  wrap_pred, ◌-◌,
}
use ledger_app_ergo.Prelude.Flow.{
  go, Body, Function, ◌>>=◌, ◌>>◌, ret, pure, read, modify, when, call, function,
}
use ledger_app_ergo.Sdk.{Buffer, BufferSdk, HashSdk}
use ledger_app_ergo.Common.Buffer.{buffer_data_len, buffer_read_bytes}
use ledger_app_ergo.Common.RwBuffer.{rw_buffer_new_local_empty}
use ledger_app_ergo.Common.RwBuffer.Contents.{contents}
use ledger_app_ergo.Common.Gve.{is_gve_ok, gve_put_u16, gve_put_u64}
use ledger_app_ergo.Ergo.TokenTable.{ergo_id_len}
use ledger_app_ergo.Ergo.Table.{
  ergo_tx_serializer_table_init, ergo_tx_serializer_table_add, ergo_tx_serializer_table_hash,
}
use ledger_app_ergo.Ergo.Input
use ledger_app_ergo.Ergo.Input.{
  InputContext, InputFrame, zero_input_context, ergo_tx_serializer_input_init,
  ergo_tx_serializer_input_add_tokens, ergo_tx_serializer_input_add_context_extension,
  ergo_tx_serializer_input_is_finished,
}
use ledger_app_ergo.Ergo.Memory.{Memory, update_hash}
use ledger_app_ergo.Ergo.Full.{
  FullResult, ok, more_data, err_bad_data_input, err_bad_input_count, err_bad_output_count,
  err_too_many_inputs, err_too_many_data_inputs, err_hasher, err_bad_state, tokens_started,
  inputs_started, data_inputs_started, outputs_started, Active, input_ctx, Layout, FullFrame,
  zero_full_context, is_tokens_started, is_inputs_started, is_data_inputs_started, map_table_result,
  input_view, set_state, res_error, check_proper_state, check_call_result_ok,
  check_call_data_is_finished, on_input,
}

-- `context->input_ctx.state = …_FINISHED`
abbrev pub input_idle : {E : Type 0} → Layout E → Active E → Active E
input_idle layout active =
    let c = input_view layout active in input_ctx (record c { state = Input.finished })

module _ {H E : Type 0} (hs : HashSdk H) where
  -- Whether the number was hashed.
  unfoldable pub hash_u16 : ℕ → Memory H E → Bool × Memory H E
  unfolding update_hash gve_put_u64
  hash_u16 u16 m =
      let (res, buffer) = gve_put_u16 (rw_buffer_new_local_empty 4) u16 in
      if is_gve_ok res then update_hash hs (contents buffer) m else (false, m)

  -- `if (!…) return res_error(context, …_ERR_HASHER);` for a hash of the memory's context.
  abbrev pub hashing : (Memory H E → Bool × Memory H E) → Body FullResult (FullFrame H E) (Unit {0})
  hashing f s =
      let (hashed, mem) = f s.mem in
      let s' = record s { mem = mem } in if hashed then go tt s' else res_error err_hasher s'

  abbrev table_hash : Function FullResult (FullFrame H E)
  table_hash s =
      let (res, mem) = ergo_tx_serializer_table_hash hs s.ctx.table_ctx s.mem in
      (map_table_result res, record s { mem = mem })

  unfoldable pub data_inputs_finished : Function FullResult (FullFrame H E)
  unfolding hash_u16
  data_inputs_finished = function do
    check_call_result_ok table_hash
    c ← read
    hashing (hash_u16 c.ctx.outputs_count)
    modify (set_state outputs_started)
    ret ok

  abbrev one_input_less : FullFrame H E → FullFrame H E
  one_input_less s = record s {
    ctx = record s.ctx { inputs_count = wrap_pred u16_mod s.ctx.inputs_count };
  }

  unfoldable pub input_finished : Function FullResult (FullFrame H E)
  unfolding hash_u16 data_inputs_finished
  input_finished = function do
    modify one_input_less
    c ← read
    if c.ctx.inputs_count == 0
        then (do
          hashing (hash_u16 c.ctx.data_inputs_count)
          modify (set_state data_inputs_started)
          if c.ctx.data_inputs_count == 0
              then (do res ← call data_inputs_finished; ret res)
              else ret ok)
        else ret ok

  abbrev table_init : ℕ → Function FullResult (FullFrame H E)
  table_init tokens_count s =
      let (res, table_ctx, table) =
        ergo_tx_serializer_table_init s.ctx.table_ctx tokens_count s.mem.shared.tokens_table in
      let shared = record s.mem.shared { tokens_table = table } in
      (
        map_table_result res,
        record {
          ctx = record s.ctx { table_ctx = table_ctx };
          mem = record s.mem { shared = shared };
        },
      )

  unfoldable pub ergo_tx_serializer_full_init :
      Layout E
      → (inputs_count data_inputs_count outputs_count tokens_count : ℕ)
      → Function FullResult (FullFrame H E)
  unfolding hash_u16 ergo_tx_serializer_table_init
  ergo_tx_serializer_full_init layout inputs data_inputs outputs tokens = function do
    modify (λ s. record s { ctx = zero_full_context })
    when (inputs == 0) (res_error err_bad_input_count)
    when (outputs == 0) (res_error err_bad_output_count)
    hashing (hash_u16 inputs)
    modify (λ s. record s {
      ctx = record s.ctx {
        inputs_count = inputs;
        data_inputs_count = data_inputs;
        outputs_count = outputs;
      };
    })
    check_call_result_ok (table_init tokens)
    if not (tokens == 0)
        then modify (set_state tokens_started)
        else modify (λ s. record s {
          ctx = record s.ctx { state = inputs_started; active = input_idle layout s.ctx.active };
        })
    ret ok

  abbrev table_add : BufferSdk → Buffer → Function FullResult (FullFrame H E)
  table_add bufs tokens s =
      let (res, table) =
        ergo_tx_serializer_table_add bufs s.ctx.table_ctx tokens s.mem.shared.tokens_table in
      let shared = record s.mem.shared { tokens_table = table } in
      (map_table_result res, record s { mem = record s.mem { shared = shared } })

  unfoldable pub ergo_tx_serializer_full_add_tokens :
      Layout E → BufferSdk → Buffer → Function FullResult (FullFrame H E)
  unfolding ergo_tx_serializer_table_add
  ergo_tx_serializer_full_add_tokens layout bufs tokens = function do
    check_proper_state is_tokens_started
    check_call_data_is_finished (table_add bufs tokens)
    modify (λ s. record s {
      ctx = record s.ctx { state = inputs_started; active = input_idle layout s.ctx.active };
    })
    ret ok

  unfoldable pub ergo_tx_serializer_full_add_input :
      Layout E
      → (box_id : List ℕ) → (frames_count context_extension_data_size : ℕ)
      → Function FullResult (FullFrame H E)
  unfolding ergo_tx_serializer_input_init ergo_tx_serializer_input_is_finished
  ergo_tx_serializer_full_add_input layout box_id frames size = function do
    check_proper_state is_inputs_started
    c ← read
    when (not (ergo_tx_serializer_input_is_finished (input_view layout c.ctx.active)))
        (res_error err_bad_state)
    when (c.ctx.inputs_count == 0) (res_error err_too_many_inputs)
    check_call_result_ok (on_input layout (ergo_tx_serializer_input_init box_id frames size))
    ret ok

  unfoldable pub ergo_tx_serializer_full_add_input_tokens :
      Layout E
      → BufferSdk
      → (box_id : List ℕ) → (frame_index : ℕ) → Buffer
      → Function FullResult (FullFrame H E)
  unfolding ergo_tx_serializer_input_add_tokens input_finished ergo_tx_serializer_input_is_finished
  ergo_tx_serializer_full_add_input_tokens layout bufs box_id frame_index tokens = function do
    check_proper_state is_inputs_started
    check_call_data_is_finished
        (on_input layout (ergo_tx_serializer_input_add_tokens bufs hs box_id frame_index tokens))
    s ← read
    if ergo_tx_serializer_input_is_finished (input_view layout s.ctx.active)
        then (do res ← call input_finished; ret res)
        else ret ok

  unfoldable pub ergo_tx_serializer_full_add_input_context_extension :
      Layout E → BufferSdk → Buffer → Function FullResult (FullFrame H E)
  unfolding ergo_tx_serializer_input_add_context_extension input_finished
  ergo_tx_serializer_full_add_input_context_extension layout bufs chunk = function do
    check_proper_state is_inputs_started
    check_call_data_is_finished
        (on_input layout (ergo_tx_serializer_input_add_context_extension bufs hs chunk))
    res ← call input_finished
    ret res

  abbrev one_data_input_less : FullFrame H E → FullFrame H E
  one_data_input_less s = record s {
    ctx = record s.ctx { data_inputs_count = s.ctx.data_inputs_count - 1 };
  }

  abbrev read_id : Option (List ℕ × Buffer) → Body FullResult (FullFrame H E) (List ℕ × Buffer)
  read_id none = res_error err_bad_data_input
  read_id (some a) = pure a

  -- The loop of `ergo_tx_serializer_full_add_data_inputs`. Each round reads an id, so as many rounds
  -- as there are bytes are enough.
  unfoldable pub add_each_data_input :
      BufferSdk → (rounds : ℕ) → Buffer → Body FullResult (FullFrame H E) (Unit {0})
  unfolding update_hash
  add_each_data_input bufs zero inputs = pure tt
  add_each_data_input bufs (suc rounds) inputs = elim (buffer_data_len inputs == 0) [
    | true ↦ pure tt
    | false ↦ do
      c ← read
      when (c.ctx.data_inputs_count == 0) (res_error err_too_many_data_inputs)
      (box_id, rest) ← read_id (buffer_read_bytes bufs inputs ergo_id_len)
      hashing (update_hash hs box_id)
      modify one_data_input_less
      add_each_data_input bufs rounds rest
  ]

  unfoldable pub ergo_tx_serializer_full_add_data_inputs :
      BufferSdk → Buffer → Function FullResult (FullFrame H E)
  unfolding add_each_data_input data_inputs_finished
  ergo_tx_serializer_full_add_data_inputs bufs inputs = function do
    check_proper_state is_data_inputs_started
    add_each_data_input bufs (buffer_data_len inputs) inputs
    s ← read
    if s.ctx.data_inputs_count == 0
        then (do res ← call data_inputs_finished; ret res)
        else ret more_data
