-- ===== src/Ergo/Full/Restart.antt =====
-- The start of an output while another one may still be open.
use ledger_app_ergo.Prelude.{ℕ, ◌<◌, ◌≤◌, ◌≡◌, ◌≢◌, ◌^◌, false, ltb, ◌==◌, arith, refl}
use ledger_app_ergo.Sdk.{HashSdk}
use ledger_app_ergo.Sdk.Laws.{HashLaws}
use ledger_app_ergo.Common.Gve.Encoding.{vlq}
use ledger_app_ergo.Ergo.TokenTable.{token_max_count}
use ledger_app_ergo.Ergo.Input.{max_tx_data_part_len}
use ledger_app_ergo.Ergo.Box
use ledger_app_ergo.Ergo.Box.{BoxContext, BoxFrame, BoxType, no_callbacks, zero_box_context}
use ledger_app_ergo.Ergo.Box.Trees.{ergo_tx_serializer_box_init}
use ledger_app_ergo.Ergo.Box.Bytes.{hashed, hash_vlq}
use ledger_app_ergo.Ergo.Full.{ok, outputs_started, Layout, FullFrame, box_ctx, box_view}
use ledger_app_ergo.Ergo.Full.Outputs.{ergo_tx_serializer_full_add_box}

-- The context of a box that has just been started.
abbrev pub started_box : {E : Type 0} → (value tree_size height tokens registers : ℕ) → BoxContext E
started_box value tree_size height tokens registers = record {
  callbacks = no_callbacks;
  value = value;
  ergo_tree_size = tree_size;
  creation_height = height;
  registers_size = registers;
  tokens_count = tokens;
  state = Box.initialized;
  type = BoxType.tree;
}

module _ {H E : Type 0} (hs : HashSdk H) (laws : HashLaws hs) (layout : Layout E) where
  box_init_lem :
      (value tree_size height tokens registers : ℕ) (s : BoxFrame H E)
      → value < 2 ^ 64
      → tree_size ≤ max_tx_data_part_len
      → registers ≤ max_tx_data_part_len
      → tokens ≤ token_max_count
      → ergo_tx_serializer_box_init hs value tree_size height tokens registers s ≡ (
        Box.ok,
        hashed hs laws
            (vlq value)
            (record s { ctx = started_box value tree_size height tokens registers }),
      )
  unfolding ergo_tx_serializer_box_init
  box_init_lem value tree_size height tokens registers s h small_tree small_registers few =
      let a : ltb max_tx_data_part_len tree_size ≡ false = ground arith in
      let b : ltb max_tx_data_part_len registers ≡ false = ground arith in
      let c : ltb token_max_count tokens ≡ false = ground arith in
      let z : BoxFrame H E = record s { ctx = zero_box_context } in
      rw (a, b, c) (rw (hash_vlq hs laws value z h))

  -- With a hasher that obeys its laws, in the state of the outputs and with outputs still
  -- expected, a box within the limits is started with OK whatever the box before it has come to:
  -- its value joins the hash behind the bytes that are there, the new box takes the place of the
  -- old one, and the number of outputs that are expected stays as it is.
  pub add_box_restarts :
      (value tree_size height tokens registers : ℕ) (s : FullFrame H E)
      → value < 2 ^ 64
      → tree_size ≤ max_tx_data_part_len
      → registers ≤ max_tx_data_part_len
      → tokens ≤ token_max_count
      → s.ctx.state ≡ outputs_started
      → s.ctx.outputs_count ≢ 0
      → let (res, s') =
          ergo_tx_serializer_full_add_box hs layout value tree_size height tokens registers s in
        (res ≡ ok)
        × (s'.ctx.state ≡ outputs_started)
        × (s'.ctx.outputs_count ≡ s.ctx.outputs_count)
        × (s'.ctx.active ≡ box_ctx (started_box value tree_size height tokens registers))
        × (s'.mem.hash ≡ laws.absorb s.mem.hash (vlq value))
        × (s'.mem.shared ≡ s.mem.shared)
  unfolding ergo_tx_serializer_full_add_box
  add_box_restarts value tree_size height tokens registers s h small_tree small_registers few stage
        some_left =
      let open_count : (s.ctx.outputs_count == 0) ≡ false = ground arith in
      let frame : BoxFrame H E = record { ctx = box_view layout s.ctx.active; mem = s.mem } in
      rw (stage, open_count)
        (rw
          (box_init_lem value tree_size height tokens registers frame h small_tree small_registers
            few)
          (refl, refl, refl, refl, refl, refl))
