-- ===== src/Examples/Ergo.antt =====
-- Runs of the serializers.
use ledger_app_ergo.Prelude.{
  ℕ, Bool, ◌+◌, ◌≡◌, ◌≢◌, ◌<◌, ◌⊎◌, List, [], ◌∷◌, ◌++◌, true, some, refl, arith, replicate, take,
}
use ledger_app_ergo.Examples.Device.{
  list_buffers, byte_log, byte_log_laws, separate, memory, one_token,
}
use ledger_app_ergo.Common.Gve.Encoding.{vlq}
use ledger_app_ergo.Ergo.TokenTable.{
  token_max_count, index_not_exist, token_table_add_token, token_table_find_token_index,
}
use ledger_app_ergo.Ergo.TokenTable.Find.{
  IsTable, Finds, id_at, token_table_add_token_lem, token_table_find_token_index-Finds,
}
use ledger_app_ergo.Ergo.ErgoTree.{ergo_tree_generate_p2pk, ergo_tree_parse_p2pk}
use ledger_app_ergo.Ergo.ErgoTree.P2pk.{compressed, ergo_tree_parse_p2pk-generate}
use ledger_app_ergo.Sdk.{Buffer}
use ledger_app_ergo.Ergo.Input.{
  InputContext, InputFrame, extension_started, finished, zero_input_context,
}
use ledger_app_ergo.Ergo.Input.Extension.{feed, fed, feed_lem}
use ledger_app_ergo.Ergo.Full.{
  FullState, FullFrame, FullContext, ok, err_bad_state, outputs_started, error, box_ctx, set_state,
  zero_full_context,
}
use ledger_app_ergo.Ergo.Full.Outputs.{ergo_tx_serializer_full_add_box}
use ledger_app_ergo.Ergo.Address.{
  p2pk, prefix_byte, p2pk_address_len, ergo_address_from_pubkey,
  ergo_address_from_compressed_pubkey,
}
use ledger_app_ergo.Ergo.Address.Layout.{p2pk_address_layout}
use ledger_app_ergo.Ergo.Full.Order.{input, perform, perform_out_of_order}
use ledger_app_ergo.Ergo.Full.Restart.{started_box, add_box_restarts}

abbrev one_token-IsTable : IsTable one_token
one_token-IsTable = record { counted = omega arith; memory = refl }

token_table_add_token_lem_example :
    let (r, t') = token_table_add_token one_token (9 ∷ []) in
    IsTable t'
    × (((1 < token_max_count)
          × (r ≡ 1)
          × (t'.count ≡ 1 + 1)
          × (id_at t' r ≡ 9 ∷ [])
          × ((j : ℕ) → j ≢ r → id_at t' j ≡ id_at one_token j))
        ⊎ ((1 ≡ token_max_count) × (r ≡ index_not_exist) × (t' ≡ one_token)))
token_table_add_token_lem_example = token_table_add_token_lem one_token (9 ∷ []) one_token-IsTable

token_table_find_token_index-Finds_example :
    Finds one_token (7 ∷ []) 0 1 (token_table_find_token_index one_token (7 ∷ []))
token_table_find_token_index-Finds_example = token_table_find_token_index-Finds one_token (7 ∷ [])

abbrev raw_key : List ℕ
raw_key = 4 ∷ replicate 64 3

ergo_tree_parse_p2pk-generate_example :
    ergo_tree_parse_p2pk (ergo_tree_generate_p2pk raw_key) ≡ some (compressed raw_key)
ergo_tree_parse_p2pk-generate_example = ergo_tree_parse_p2pk-generate raw_key refl

abbrev stage_frame : FullState → FullFrame (List ℕ) (Unit {0})
stage_frame state =
    let ctx : FullContext (Unit {0}) = record zero_full_context {
      state = state;
      inputs_count = 1;
      outputs_count = 2;
    } in
    record { ctx = ctx; mem = memory }

perform_out_of_order_example :
    perform list_buffers byte_log separate (input [] 1 0) (stage_frame outputs_started)
    ≡ (err_bad_state, set_state error (stage_frame outputs_started))
perform_out_of_order_example =
    perform_out_of_order list_buffers byte_log separate (input [] 1 0) (stage_frame outputs_started)
      (λ e. cc)

add_box_restarts_example :
    let (res, s') =
      ergo_tx_serializer_full_add_box byte_log separate 5 36 300 1 0
        (stage_frame outputs_started) in
    (res ≡ ok)
    × (s'.ctx.state ≡ outputs_started)
    × (s'.ctx.outputs_count ≡ 2)
    × (s'.ctx.active ≡ box_ctx (started_box 5 36 300 1 0))
    × (s'.mem.hash ≡ (1 ∷ []) ++ vlq 5)
    × (s'.mem.shared ≡ memory.shared)
add_box_restarts_example =
    add_box_restarts byte_log byte_log_laws separate 5 36 300 1 0 (stage_frame outputs_started)
      (omega arith) (omega arith) (omega arith) (omega arith) refl (omega arith)

abbrev waiting_input : InputFrame (List ℕ) (Unit {0})
waiting_input =
    let ctx : InputContext (Unit {0}) = record zero_input_context {
      state = extension_started;
      context_extension_data_size = 3;
    } in
    record { ctx = ctx; mem = memory }

abbrev two_chunks : List Buffer
two_chunks =
    record { ptr = 8 ∷ 9 ∷ []; offset = 0; size = 2 }
    ∷ record { ptr = 5 ∷ 6 ∷ []; offset = 1; size = 2 }
    ∷ []

feed_lem_example :
    feed list_buffers byte_log byte_log_laws two_chunks waiting_input
    ≡ fed list_buffers byte_log byte_log_laws finished 0 (8 ∷ 9 ∷ 6 ∷ []) waiting_input
feed_lem_example =
    feed_lem list_buffers byte_log byte_log_laws two_chunks waiting_input refl
      (omega arith, (omega arith, tt)) refl (omega arith)

abbrev testnet_bytes : List ℕ
testnet_bytes = prefix_byte p2pk 0x10 ∷ compressed raw_key

p2pk_address_layout_example :
    let address : List ℕ = replicate p2pk_address_len 0 in
    let result : Bool × List ℕ = (true, testnet_bytes ++ 17 ∷ 3 ∷ 3 ∷ 3 ∷ []) in
    (ergo_address_from_pubkey byte_log 0x10 raw_key address ≡ result)
    × (ergo_address_from_compressed_pubkey byte_log 0x10 (compressed raw_key) address ≡ result)
p2pk_address_layout_example =
    p2pk_address_layout byte_log 0x10 raw_key (replicate p2pk_address_len 0) (take 32 testnet_bytes)
      refl refl refl (omega arith)
