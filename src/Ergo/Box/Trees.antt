-- ===== src/Ergo/Box/Trees.antt =====
-- src/ergo/tx_ser_box.c: the start of a box and its tree, up to the token count.
use ledger_app_ergo.Prelude.{
  ℕ, ◌-◌, Bool, none, some, List, take, ltb, ◌==◌, not, ◌&&◌, if◌then◌else◌, is_some,
}
use ledger_app_ergo.Prelude.Flow.{
  go, Body, Function, ◌>>=◌, ◌>>◌, ret, pure, read, modify, when, call, function,
}
use ledger_app_ergo.Sdk.{Buffer, BufferSdk, HashSdk}
use ledger_app_ergo.Common.Buffer.{buffer_data_len, buffer_read_ptr}
use ledger_app_ergo.Common.RwBuffer.{RwBuffer, rw_buffer_new_local_empty, rw_buffer_empty}
use ledger_app_ergo.Common.RwBuffer.Contents.{contents}
use ledger_app_ergo.Common.Gve.{GveResult, is_gve_ok, gve_put_u8, gve_put_u32, gve_put_u64}
use ledger_app_ergo.Ergo.TokenTable.{token_max_count}
use ledger_app_ergo.Ergo.ErgoTree.{ergo_tree_miners_fee_tree, ergo_tree_generate_p2pk}
use ledger_app_ergo.Ergo.Input.{max_tx_data_part_len}
use ledger_app_ergo.Ergo.Memory.{update_hash}
use ledger_app_ergo.Ergo.Box.{
  BoxResult, ok, more_data, err_too_many_tokens, err_too_much_data, err_hasher, err_buffer,
  err_bad_state, err_small_chunk, initialized, tree_added, tokens_added, finished, fee, change,
  tree, BoxContext, BoxFrame, no_callbacks, zero_box_context, max_data_chunk_len, is_initialized,
  set_state, set_type, res_error, on_shared, check_call_result_ok,
}

module _ {H E : Type 0} (hs : HashSdk H) where
  -- `if (!blake2b_update(context->hash, …)) return res_error(context, …_ERR_HASHER);`
  abbrev pub hash_bytes : List ℕ → Body BoxResult (BoxFrame H E) (Unit {0})
  hash_bytes bytes s =
      let (hashed, mem) = update_hash hs bytes s.mem in
      let s' = record s { mem = mem } in if hashed then go tt s' else res_error err_hasher s'

  -- `if (gve_put…(&buffer, …) != GVE_OK) return res_error(context, …_ERR_BUFFER);` and then the hash
  -- of what the buffer holds. It goes on with the buffer.
  abbrev pub hash_put : GveResult × RwBuffer → Body BoxResult (BoxFrame H E) RwBuffer
  hash_put (res, buffer) = do
    when (not (is_gve_ok res)) (res_error err_buffer)
    hash_bytes (contents buffer)
    pure buffer

  unfoldable pub add_height_and_token_count : Function BoxResult (BoxFrame H E)
  unfolding update_hash gve_put_u64 gve_put_u8
  add_height_and_token_count = function do
    s ← read
    buffer ← hash_put (gve_put_u32 (rw_buffer_new_local_empty 10) s.ctx.creation_height)
    hash_put (gve_put_u8 (rw_buffer_empty buffer) s.ctx.tokens_count)
    ret ok

  unfoldable pub add_empty_registers_count : Function BoxResult (BoxFrame H E)
  unfolding update_hash gve_put_u8
  add_empty_registers_count =
      function do hash_put (gve_put_u8 (rw_buffer_new_local_empty 1) 0); ret ok

  abbrev call_finished : Body BoxResult (BoxFrame H E) (Unit {0})
  call_finished s = elim s.ctx.callbacks.on_finished [
    | none ↦ go tt s
    | some cb ↦ check_call_result_ok (on_shared (cb s.ctx.type)) s
  ]

  unfoldable pub box_finished : Function BoxResult (BoxFrame H E)
  box_finished = function do call_finished; modify (set_state finished); ret ok

  abbrev call_type : Body BoxResult (BoxFrame H E) (Unit {0})
  call_type s = elim s.ctx.callbacks.on_type [
    | none ↦ go tt s
    | some cb ↦ check_call_result_ok (on_shared (cb s.ctx.type s.ctx.value)) s
  ]

  -- The end of a box with no registers.
  abbrev pub no_registers : Body BoxResult (BoxFrame H E) BoxResult
  no_registers = do check_call_result_ok add_empty_registers_count; res ← call box_finished; ret res

  unfoldable pub ergo_tree_added : Function BoxResult (BoxFrame H E)
  unfolding add_height_and_token_count add_empty_registers_count box_finished
  ergo_tree_added = function do
    call_type
    check_call_result_ok add_height_and_token_count
    s ← read
    if s.ctx.tokens_count == 0
        then (do
          modify (set_state tokens_added)
          if s.ctx.registers_size == 0 then no_registers else ret ok)
        else (do modify (set_state tree_added); ret ok)

  unfoldable pub ergo_tx_serializer_box_init :
      (value ergo_tree_size creation_height tokens_count registers_size : ℕ)
      → Function BoxResult (BoxFrame H E)
  unfolding update_hash gve_put_u64
  ergo_tx_serializer_box_init value tree_size height tokens registers =
      let started : BoxContext E = record {
        callbacks = no_callbacks;
        value = value;
        ergo_tree_size = tree_size;
        creation_height = height;
        registers_size = registers;
        tokens_count = tokens;
        state = initialized;
        type = tree;
      } in
      function do
        modify (λ s. record s { ctx = zero_box_context })
        when (ltb token_max_count tokens) (res_error err_too_many_tokens)
        when (ltb max_tx_data_part_len tree_size) (res_error err_too_much_data)
        when (ltb max_tx_data_part_len registers) (res_error err_too_much_data)
        hash_put (gve_put_u64 (rw_buffer_new_local_empty 10) value)
        modify (λ s. record s { ctx = started })
        ret ok

  -- `CHECK_PROPER_STATE(context, …_STATE_INITIALIZED)`
  abbrev check_initialized : Body BoxResult (BoxFrame H E) (Unit {0})
  check_initialized s = when (not (is_initialized s.ctx.state)) (res_error err_bad_state) s

  unfoldable pub ergo_tx_serializer_box_add_tree :
      BufferSdk → Buffer → Function BoxResult (BoxFrame H E)
  unfolding update_hash ergo_tree_added
  ergo_tx_serializer_box_add_tree bufs tree_chunk =
      let len = buffer_data_len tree_chunk in
      function do
        check_initialized
        s ← read
        when (ltb s.ctx.ergo_tree_size len) (res_error err_too_much_data)
        when (ltb len s.ctx.ergo_tree_size && ltb len max_data_chunk_len)
            (res_error err_small_chunk)
        hash_bytes (take len (buffer_read_ptr tree_chunk))
        when (not (is_some (bufs.seek_cur tree_chunk len))) (res_error err_buffer)
        let left = s.ctx.ergo_tree_size - len
        modify (λ s'. record s' { ctx = record s'.ctx { ergo_tree_size = left } })
        if left == 0
            then (do modify (set_type tree); res ← call ergo_tree_added; ret res)
            else ret more_data

  unfoldable pub ergo_tx_serializer_box_add_miners_fee_tree :
      Bool → Function BoxResult (BoxFrame H E)
  unfolding update_hash ergo_tree_added
  ergo_tx_serializer_box_add_miners_fee_tree is_mainnet = function do
    check_initialized
    hash_bytes (ergo_tree_miners_fee_tree is_mainnet)
    modify (set_type fee)
    res ← call ergo_tree_added
    ret res

  unfoldable pub ergo_tx_serializer_box_add_change_tree : List ℕ → Function BoxResult (BoxFrame H E)
  unfolding update_hash ergo_tree_added
  ergo_tx_serializer_box_add_change_tree raw_public_key = function do
    check_initialized
    hash_bytes (ergo_tree_generate_p2pk raw_public_key)
    modify (set_type change)
    res ← call ergo_tree_added
    ret res
