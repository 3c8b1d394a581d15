-- ===== src/Ergo/Box/Tokens.antt =====
-- src/ergo/tx_ser_box.c: the tokens of a box.
use ledger_app_ergo.Prelude.{
  ℕ, zero, suc, ◌-◌, true, false, Option, none, some, List, [], get_or, leb, ◌==◌, not,
  if◌then◌else◌,
}
use ledger_app_ergo.Prelude.Flow.{
  go, Body, Function, ◌>>=◌, ◌>>◌, ret, pure, read, modify, when, function,
}
use ledger_app_ergo.Sdk.{Buffer, BufferSdk, HashSdk}
use ledger_app_ergo.Common.Buffer.{buffer_data_len, buffer_read_bytes}
use ledger_app_ergo.Common.RwBuffer.{rw_buffer_new_local_empty}
use ledger_app_ergo.Common.Gve.{gve_put_u32, gve_put_u64}
use ledger_app_ergo.Ergo.TokenTable.{ergo_id_len}
use ledger_app_ergo.Ergo.Table.{TableContext}
use ledger_app_ergo.Ergo.Memory.{update_hash}
use ledger_app_ergo.Ergo.Box.{
  BoxResult, ok, more_data, err_bad_token_index, err_bad_token_id, err_bad_token_value,
  err_too_many_tokens, err_bad_state, tokens_added, BoxFrame, is_tree_added, set_state, res_error,
  on_shared, check_call_result_ok,
}
use ledger_app_ergo.Ergo.Box.Trees.{hash_bytes, hash_put, no_registers}

module _ {H E : Type 0} (bufs : BufferSdk) (hs : HashSdk H) where
  abbrev read_or : {A : Type 0} → Option A → BoxResult → Body BoxResult (BoxFrame H E) A
  read_or none err = res_error err
  read_or (some a) err = pure a

  -- A failed read of an index returns with the state as it is.
  abbrev read_index : Option (ℕ × Buffer) → Body BoxResult (BoxFrame H E) (ℕ × Buffer)
  read_index none = ret err_bad_token_index
  read_index (some a) = pure a

  -- The id of the next token, and the rest of the data: read in full where there is no table, and
  -- through an index into the table otherwise.
  abbrev token_of : Option TableContext → Buffer → Body BoxResult (BoxFrame H E) (List ℕ × Buffer)
  token_of none input = do
    (id, input') ← read_or (buffer_read_bytes bufs input ergo_id_len) err_bad_token_id
    hash_bytes hs id
    pure (id, input')
  token_of (some table) input = do
    (index, input') ← read_index (bufs.read_u32 input)
    when (leb table.distinct_tokens_count index) (res_error err_bad_token_index)
    hash_put hs (gve_put_u32 (rw_buffer_new_local_empty 10) index)
    s ← read
    pure (get_or s.mem.shared.tokens_table.tokens index [], input')

  abbrev call_token : List ℕ → ℕ → Body BoxResult (BoxFrame H E) (Unit {0})
  call_token id value s = elim s.ctx.callbacks.on_token [
    | none ↦ go tt s
    | some cb ↦ check_call_result_ok (on_shared (cb s.ctx.type id value)) s
  ]

  abbrev one_less : BoxFrame H E → BoxFrame H E
  one_less s = record s { ctx = record s.ctx { tokens_count = s.ctx.tokens_count - 1 } }

  -- The loop's body: one token. It goes on with the rest of the data.
  unfoldable pub add_token : Option TableContext → Buffer → Body BoxResult (BoxFrame H E) Buffer
  unfolding update_hash gve_put_u64
  add_token table input = do
    c ← read
    when (c.ctx.tokens_count == 0) (res_error err_too_many_tokens)
    (id, input') ← token_of table input
    (value, input'') ← read_or (bufs.read_u64 input') err_bad_token_value
    hash_put hs (gve_put_u64 (rw_buffer_new_local_empty 10) value)
    call_token id value
    modify one_less
    pure input''

  -- The loop, while data is left. Each round reads a value, so as many rounds as there are bytes are
  -- enough.
  unfoldable pub add_each_token :
      (rounds : ℕ) → Option TableContext → Buffer → Body BoxResult (BoxFrame H E) (Unit {0})
  add_each_token zero table input = pure tt
  add_each_token (suc rounds) table input = elim (buffer_data_len input == 0) [
    | true ↦ pure tt
    | false ↦ do input' ← add_token table input; add_each_token rounds table input'
  ]

  unfoldable pub ergo_tx_serializer_box_add_tokens :
      Buffer → Option TableContext → Function BoxResult (BoxFrame H E)
  unfolding add_each_token
  ergo_tx_serializer_box_add_tokens input table = function do
    c ← read
    when (not (is_tree_added c.ctx.state)) (res_error err_bad_state)
    add_each_token (buffer_data_len input) table input
    s ← read
    if s.ctx.tokens_count == 0
        then (if s.ctx.registers_size == 0
            then no_registers hs
            else (do modify (set_state tokens_added); ret ok))
        else ret more_data
