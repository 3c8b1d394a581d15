-- ===== src/Ergo/Box.antt =====
-- src/ergo/tx_ser_box.h and tx_ser_box.c: the serializer of one box.
pub mod Trees
pub mod Tokens
pub mod Registers
pub mod Bytes
use ledger_app_ergo.Prelude.{
  ℕ, zero, suc, ◌+◌, ◌-◌, Bool, true, false, Option, none, some, List, [], ◌∷◌, take, get_or, leb,
  ltb, ◌==◌, not, ◌||◌, ◌&&◌, if◌then◌else◌, u8_mod, u32_mod, wrap_pred,
}
use ledger_app_ergo.Prelude.Flow.{
  Flow, stop, go, Body, Function, ◌>>=◌, ◌>>◌, ret, pure, read, modify, when, call, function,
}
use ledger_app_ergo.Sdk.{Buffer, BufferSdk, HashSdk}
use ledger_app_ergo.Common.Buffer.{buffer_data_len, buffer_read_ptr, buffer_read_bytes}
use ledger_app_ergo.Common.RwBuffer.{RwBuffer, rw_buffer_new_local_empty, rw_buffer_empty}
use ledger_app_ergo.Common.RwBuffer.Contents.{contents}
use ledger_app_ergo.Common.Gve.{
  GveResult, is_gve_ok, gve_put_u8, gve_put_u16, gve_put_u32, gve_put_u64,
}
use ledger_app_ergo.Helpers.Blake2b.{blake2b_256_init, blake2b_256_finalize}
use ledger_app_ergo.Ergo.TokenTable.{TokenTable, token_max_count, ergo_id_len}
use ledger_app_ergo.Ergo.ErgoTree.{ergo_tree_miners_fee_tree, ergo_tree_generate_p2pk}
use ledger_app_ergo.Ergo.Table.{TableContext}
use ledger_app_ergo.Ergo.Input.{max_tx_data_part_len}
use ledger_app_ergo.Ergo.Memory.{Memory, Shared, update_hash}

pub data BoxResult : Type 0 where
  ok more_data err_bad_token_index err_bad_token_id err_bad_token_value err_too_many_tokens :
      BoxResult
  err_too_much_data err_hasher err_buffer err_bad_state err_u64_overflow err_small_chunk : BoxResult

pub data BoxState : Type 0 where
  initialized tree_added tokens_added finished hash_finalized error : BoxState

pub data BoxType : Type 0 where
  fee change tree : BoxType

-- The callbacks, on what their `void*` context points to.
abbrev pub BoxTypeCb : Type 0 → Type 0
BoxTypeCb E = BoxType → ℕ → Function BoxResult (Shared E)

abbrev pub BoxTokenCb : Type 0 → Type 0
BoxTokenCb E = BoxType → List ℕ → ℕ → Function BoxResult (Shared E)

abbrev pub BoxFinishedCb : Type 0 → Type 0
BoxFinishedCb E = BoxType → Function BoxResult (Shared E)

pub record BoxCallbacks (E : Type 0) : Type 0 where
  pub on_type : Option (BoxTypeCb E)
  pub on_token : Option (BoxTokenCb E)
  pub on_finished : Option (BoxFinishedCb E)

-- The pointer `hash` is the memory's hash context.
pub record BoxContext (E : Type 0) : Type 0 where
  pub callbacks : BoxCallbacks E
  pub value : ℕ
  pub ergo_tree_size : ℕ
  pub creation_height : ℕ
  pub registers_size : ℕ
  pub tokens_count : ℕ
  pub state : BoxState
  pub type : BoxType

abbrev pub max_data_chunk_len : ℕ
max_data_chunk_len = 255

abbrev pub no_callbacks : {E : Type 0} → BoxCallbacks E
no_callbacks = record { on_type = none; on_token = none; on_finished = none }

-- A context of zero bytes, as `memset` leaves it.
abbrev pub zero_box_context : {E : Type 0} → BoxContext E
zero_box_context = record {
  callbacks = no_callbacks;
  value = 0;
  ergo_tree_size = 0;
  creation_height = 0;
  registers_size = 0;
  tokens_count = 0;
  state = initialized;
  type = fee;
}

-- What a call works on: its context and the objects that are pointed to.
pub record BoxFrame (H E : Type 0) : Type 0 where
  pub ctx : BoxContext E
  pub mem : Memory H E

abbrev pub is_initialized : BoxState → Bool
is_initialized initialized = true
is_initialized _ = false

abbrev pub is_tree_added : BoxState → Bool
is_tree_added tree_added = true
is_tree_added _ = false

abbrev pub is_tokens_added : BoxState → Bool
is_tokens_added tokens_added = true
is_tokens_added _ = false

abbrev pub is_finished_state : BoxState → Bool
is_finished_state finished = true
is_finished_state _ = false

-- `res == OK || res == MORE_DATA`
abbrev pub is_fine : BoxResult → Bool
is_fine ok = true
is_fine more_data = true
is_fine _ = false

module _ {E : Type 0} where
  unfoldable pub ergo_tx_serializer_box_is_finished : BoxContext E → Bool
  ergo_tx_serializer_box_is_finished context = is_finished_state context.state

  unfoldable pub ergo_tx_serializer_box_set_callbacks :
      Option (BoxTypeCb E)
      → Option (BoxTokenCb E)
      → Option (BoxFinishedCb E)
      → BoxContext E
      → BoxContext E
  ergo_tx_serializer_box_set_callbacks on_type on_token on_finished context =
      let callbacks : BoxCallbacks E = record {
        on_type = on_type;
        on_token = on_token;
        on_finished = on_finished;
      } in
      record context { callbacks = callbacks }

module _ {H E : Type 0} where
  abbrev pub set_state : BoxState → BoxFrame H E → BoxFrame H E
  set_state state s = record s { ctx = record s.ctx { state = state } }

  abbrev pub set_type : BoxType → BoxFrame H E → BoxFrame H E
  set_type type s = record s { ctx = record s.ctx { type = type } }

  -- `return res_error(context, err);`
  abbrev pub res_error : {A : Type 0} → BoxResult → Body BoxResult (BoxFrame H E) A
  res_error err s = stop err (set_state error s)

  abbrev pub on_shared : {R : Type 0} → Function R (Shared E) → Function R (BoxFrame H E)
  on_shared f s =
      let (r, shared) = f s.mem.shared in (r, record s { mem = record s.mem { shared = shared } })

  -- `CHECK_CALL_RESULT_OK`
  abbrev pub check_call_result_ok :
      Function BoxResult (BoxFrame H E) → Body BoxResult (BoxFrame H E) (Unit {0})
  check_call_result_ok f s =
      let (res, s') = f s in if is_fine res then go tt s' else res_error res s'
