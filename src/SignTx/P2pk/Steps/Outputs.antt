-- ===== src/SignTx/P2pk/Steps/Outputs.antt =====
-- The steps of stx_op_p2pk.c on an output.
use ledger_app_ergo.Prelude.{
  ℕ, ◌≡◌, ◌⊎◌, inl, inr, refl, Bool, true, false, List, ◌%◌, u16_mod, arith,
}
use ledger_app_ergo.Prelude.Flow.{
  Body, Function, ◌>>=◌, ◌>>◌, ret, call, function, then_do, result_of,
}
use ledger_app_ergo.Sdk.{Buffer}
use ledger_app_ergo.Sw.{sw_ok}
use ledger_app_ergo.Ergo.Memory.{Memory}
use ledger_app_ergo.Ergo.Full.Outputs.{
  ergo_tx_serializer_full_add_box_ergo_tree, ergo_tx_serializer_full_add_box_change_tree,
  ergo_tx_serializer_full_add_box_miners_fee_tree, ergo_tx_serializer_full_add_box_tokens,
  ergo_tx_serializer_full_add_box_registers,
}
use ledger_app_ergo.Helpers.Session.{network_id_is_mainnet}
use ledger_app_ergo.Common.Buffer.{buffer_read_ptr, buffer_data_len}
use ledger_app_ergo.Ergo.Full.{FullResult, FullContext, FullFrame}
use ledger_app_ergo.SignTx.Output.{
  Bip32Path, OutputInfo, stx_output_info_add_tree_chunk, stx_output_info_set_fee,
  stx_output_info_set_bip32,
}
use ledger_app_ergo.SignTx.Context.{P2pkEnv, P2pk, P2pkState, outputs_started, tx_finished, SignTx}
use ledger_app_ergo.SignTx.P2pk.{
  check_proper_state, on_tx, check_tx_call_result_ok, check_call_result_sw_ok, handler_err,
  is_outputs_started, check_tx_finished,
}
use ledger_app_ergo.SignTx.P2pk.Outputs.{
  on_output_info, tree_is_finished, stx_operation_p2pk_add_output_tree_chunk,
  stx_operation_p2pk_add_output_tree_fee, stx_operation_p2pk_add_output_tree_change,
  stx_operation_p2pk_add_output_tokens, stx_operation_p2pk_add_output_registers,
}
use ledger_app_ergo.SignTx.P2pk.Settles.{
  holding, refused, Settles-check_proper_state, Settles-tx, Settles-output_info, Settles-finished,
}
use ledger_app_ergo.App.{App, Device, app_set_current_command}
use ledger_app_ergo.SignTx.P2pk.Steps.{
  OpCall, tree_chunk, tree_fee, tree_change, output_tokens, output_registers, Next, moved, Outcome,
  Moves-moved, from_outputs_started,
}

module _ {H : Type 0} (d : Device H) (x : SignTx H) (s : App H) where
  -- The end of an operation on an output.
  end-Outcome :
      (call : OpCall) (c : P2pk H) (tx : FullContext (P2pkEnv H)) (mem : Memory H (P2pkEnv H))
      → c.state ≡ outputs_started
      → ((st : P2pkState) → (st ≡ outputs_started) ⊎ (st ≡ tx_finished) → Next call c.state st)
      → Outcome d x s call c (
          result_of (
            then_do
              (check_tx_finished d (holding d x s (moved c c.state tx mem)))
              (λ _. ret sw_ok)))
  end-Outcome call c tx mem h next =
      Settles-finished (moved c c.state tx mem)
        (λ finished. record {
          next = next tx_finished (inr refl);
          complete = λ _. finished;
          same_path = refl;
          same_key = refl;
          same_network = refl;
        })
        (Moves-moved call c c.state tx mem (next c.state (inl h)) (λ e. ground arith))

  -- Operations on an output with one call, and with one more on its information.
  finishing-Outcome :
      (call : OpCall) (c : P2pk H) (f : Function FullResult (FullFrame H (P2pkEnv H)))
      → (c.state ≡ outputs_started
          → (st : P2pkState) → (st ≡ outputs_started) ⊎ (st ≡ tx_finished)
          → Next call c.state st)
      → Outcome d x s call c (
          function
            (do
              check_proper_state d is_outputs_started
              check_tx_call_result_ok d (on_tx d f)
              check_tx_finished d
              ret sw_ok)
            (holding d x s c))
  finishing-Outcome call c f next = Settles-check_proper_state c is_outputs_started _ (λ h.
      let e = from_outputs_started c.state h in
      Settles-tx c f _ (λ after. end-Outcome call c after.ctx after.mem e (next e)))

  tree-Outcome :
      (call : OpCall) (c : P2pk H) (f : Function FullResult (FullFrame H (P2pkEnv H)))
      (g : Function ℕ (OutputInfo H))
      → (c.state ≡ outputs_started
          → (st : P2pkState) → (st ≡ outputs_started) ⊎ (st ≡ tx_finished)
          → Next call c.state st)
      → Outcome d x s call c (
          function
            (do
              check_proper_state d is_outputs_started
              check_tx_call_result_ok d (on_tx d f)
              check_call_result_sw_ok d (on_output_info d g)
              check_tx_finished d
              ret sw_ok)
            (holding d x s c))
  tree-Outcome call c f g next = Settles-check_proper_state c is_outputs_started _ (λ h.
      let e = from_outputs_started c.state h in
      Settles-tx c f _ (λ after.
        Settles-output_info (moved c c.state after.ctx after.mem) g _ (λ shared.
          end-Outcome call c after.ctx (record after.mem { shared = shared }) e (next e))))

  -- The part behind the serializer's call, with its result.
  abbrev chunk_rest : Buffer → FullResult → Body ℕ (App H) ℕ
  chunk_rest b res = do
    is_finished ← tree_is_finished d res
    check_call_result_sw_ok d (
        on_output_info d (
          stx_output_info_add_tree_chunk d.hs d.hash_of (buffer_read_ptr b)
            (buffer_data_len b % u16_mod) is_finished))
    check_tx_finished d
    ret sw_ok

  chunk_info-Outcome :
      (c : P2pk H) (b : Buffer) (is_finished : Bool)
      → c.state ≡ outputs_started
      → (after : FullFrame H (P2pkEnv H))
      → Outcome d x s (tree_chunk b) c (
          function
            (do
              check_call_result_sw_ok d (
                  on_output_info d (
                    stx_output_info_add_tree_chunk d.hs d.hash_of
                      (buffer_read_ptr b)
                      (buffer_data_len b % u16_mod)
                      is_finished))
              check_tx_finished d
              ret sw_ok)
            (holding d x s (moved c c.state after.ctx after.mem)))
  chunk_info-Outcome c b is_finished h after =
      Settles-output_info (moved c c.state after.ctx after.mem)
        (stx_output_info_add_tree_chunk d.hs d.hash_of (buffer_read_ptr b)
          (buffer_data_len b % u16_mod) is_finished)
        _
        (λ shared.
          end-Outcome (tree_chunk b) c after.ctx (record after.mem { shared = shared }) h
            (λ st e. (h, e)))

  chunk_rest-Outcome :
      (c : P2pk H) (b : Buffer)
      → c.state ≡ outputs_started
      → (res : FullResult) (after : FullFrame H (P2pkEnv H))
      → Outcome d x s
          (tree_chunk b)
          c
          (function (chunk_rest b res) (holding d x s (moved c c.state after.ctx after.mem)))
  unfolding handler_err app_set_current_command
  chunk_rest-Outcome c b h FullResult.ok after = chunk_info-Outcome c b true h after
  chunk_rest-Outcome c b h FullResult.more_data after = chunk_info-Outcome c b false h after
  chunk_rest-Outcome c b h _ after = refused (λ e. ground arith) refl

  pub tree_chunk-Outcome :
      (c : P2pk H) (b : Buffer)
      → Outcome d x s
          (tree_chunk b)
          c
          (stx_operation_p2pk_add_output_tree_chunk d b (holding d x s c))
  unfolding stx_operation_p2pk_add_output_tree_chunk
  tree_chunk-Outcome c b = Settles-check_proper_state c is_outputs_started _ (λ h.
      let frame : FullFrame H (P2pkEnv H) = record { ctx = c.tx; mem = c.mem } in
      let res = ergo_tx_serializer_full_add_box_ergo_tree d.hs d.layout d.bufs b frame in
      chunk_rest-Outcome c b (from_outputs_started c.state h) res.0 res.1)

  pub tree_fee-Outcome :
      (c : P2pk H)
      → Outcome d x s tree_fee c (stx_operation_p2pk_add_output_tree_fee d (holding d x s c))
  unfolding stx_operation_p2pk_add_output_tree_fee
  tree_fee-Outcome c =
      tree-Outcome tree_fee c
        (ergo_tx_serializer_full_add_box_miners_fee_tree d.hs d.layout
          (network_id_is_mainnet c.network_id))
        (stx_output_info_set_fee d.hs d.hash_of) (λ h st e. (h, e))

  pub tree_change-Outcome :
      (c : P2pk H) (path : Bip32Path) (key : List ℕ)
      → Outcome d x s
          (tree_change path key)
          c
          (stx_operation_p2pk_add_output_tree_change d path key (holding d x s c))
  unfolding stx_operation_p2pk_add_output_tree_change
  tree_change-Outcome c path key =
      tree-Outcome (tree_change path key) c
        (ergo_tx_serializer_full_add_box_change_tree d.hs d.layout key)
        (stx_output_info_set_bip32 d.hs d.hash_of path) (λ h st e. (h, e))

  pub output_tokens-Outcome :
      (c : P2pk H) (b : Buffer)
      → Outcome d x s
          (output_tokens b)
          c
          (stx_operation_p2pk_add_output_tokens d b (holding d x s c))
  unfolding stx_operation_p2pk_add_output_tokens
  output_tokens-Outcome c b =
      finishing-Outcome (output_tokens b) c
        (ergo_tx_serializer_full_add_box_tokens d.hs d.layout d.bufs b) (λ h st e. (h, e))

  pub output_registers-Outcome :
      (c : P2pk H) (b : Buffer)
      → Outcome d x s
          (output_registers b)
          c
          (stx_operation_p2pk_add_output_registers d b (holding d x s c))
  unfolding stx_operation_p2pk_add_output_registers
  output_registers-Outcome c b =
      finishing-Outcome (output_registers b) c
        (ergo_tx_serializer_full_add_box_registers d.hs d.layout d.bufs b) (λ h st e. (h, e))
