-- ===== src/SignTx/P2pk/Steps/Inputs.antt =====
-- The steps of stx_op_p2pk.c up to the start of an output.
use ledger_app_ergo.Prelude.{ℕ, ◌≡◌, ◌≢◌, refl, Bool, true, List, some, ◌||◌, arith}
use ledger_app_ergo.Prelude.Flow.{Function, ◌>>◌, ret, call, function}
use ledger_app_ergo.Sdk.{Buffer}
use ledger_app_ergo.Sw.{sw_ok}
use ledger_app_ergo.Ergo.Full.Inputs.{
  ergo_tx_serializer_full_init, ergo_tx_serializer_full_add_tokens,
  ergo_tx_serializer_full_add_input, ergo_tx_serializer_full_add_input_tokens,
  ergo_tx_serializer_full_add_input_context_extension, ergo_tx_serializer_full_add_data_inputs,
}
use ledger_app_ergo.Ergo.Full.Outputs.{ergo_tx_serializer_full_add_box}
use ledger_app_ergo.SignTx.Amounts.{stx_amounts_add_input}
use ledger_app_ergo.Ergo.Full.{
  FullResult, FullFrame, ergo_tx_serializer_full_set_input_callback,
  ergo_tx_serializer_full_set_box_callbacks,
}
use ledger_app_ergo.SignTx.Context.{
  P2pkEnv, P2pk, P2pkState, tx_started, inputs_started, outputs_started, tx_finished, SignTx,
}
use ledger_app_ergo.SignTx.P2pk.{
  on_amounts, p2pk_input_token_cb, p2pk_output_type_cb, p2pk_output_token_cb,
  p2pk_output_finished_cb, check_proper_state, on_tx, check_tx_call_result_ok, is_initialized,
  is_tx_started, is_inputs_started, is_outputs_started, p2pk_of, init_amounts,
  stx_operation_p2pk_start_tx,
}
use ledger_app_ergo.SignTx.P2pk.Inputs.{
  stx_operation_p2pk_add_tokens, stx_operation_p2pk_add_input, stx_operation_p2pk_add_input_tokens,
  stx_operation_p2pk_add_input_context_extension, stx_operation_p2pk_add_data_inputs,
}
use ledger_app_ergo.SignTx.P2pk.Outputs.{init_output, stx_operation_p2pk_add_output}
use ledger_app_ergo.SignTx.P2pk.Settles.{
  holding, settled, Settles-check_sw, Settles-check_proper_state, Settles-tx, Settles-tx_context,
}
use ledger_app_ergo.App.{App, Device}
use ledger_app_ergo.SignTx.P2pk.Steps.{
  OpCall, start, tokens, input, input_tokens, input_extension, data_inputs, output, Next, moved,
  Outcome, Moves-moved, from_initialized, from_tx_started, from_inputs_started, before_inputs,
  before_outputs,
}

module _ {H : Type 0} (d : Device H) (x : SignTx H) (s : App H) where
  pub start-Outcome :
      (c : P2pk H) (i di o t : ℕ)
      → Outcome d x s (start i di o t) c (stx_operation_p2pk_start_tx d i di o t (holding d x s c))
  unfolding stx_operation_p2pk_start_tx
  start-Outcome c i di o t = Settles-check_proper_state c is_initialized _ (λ h.
      Settles-tx c (ergo_tx_serializer_full_init d.hs d.layout i di o t) _ (λ after.
        settled
          (p2pk_of d (init_amounts d (holding d x s (moved c tx_started after.ctx after.mem)))) refl
          refl
          (Moves-moved (start i di o t) c tx_started after.ctx _ (from_initialized c.state h, refl)
            (λ e. ground arith))))

  -- Operations that check the state, make one call and answer.
  pub call-Outcome :
      (call : OpCall) (c : P2pk H) (is : P2pkState → Bool)
      (f : Function FullResult (FullFrame H (P2pkEnv H)))
      → (is c.state ≡ true → Next call c.state c.state × (c.state ≢ tx_finished))
      → Outcome d x s call c (
          function
            (do check_proper_state d is; check_tx_call_result_ok d (on_tx d f); ret sw_ok)
            (holding d x s c))
  call-Outcome call c is f next = Settles-check_proper_state c is _ (λ h. Settles-tx c f _ (λ after.
      settled (moved c c.state after.ctx after.mem) refl refl
        (Moves-moved call c c.state after.ctx after.mem (next h).0 (next h).1)))

  pub tokens-Outcome :
      (c : P2pk H) (b : Buffer)
      → Outcome d x s (tokens b) c (stx_operation_p2pk_add_tokens d b (holding d x s c))
  unfolding stx_operation_p2pk_add_tokens
  tokens-Outcome c b =
      call-Outcome (tokens b) c is_tx_started
        (ergo_tx_serializer_full_add_tokens d.hs d.layout d.bufs b)
        (λ h. let e = from_tx_started c.state h in ((e, e), λ bad. ground arith))

  in_inputs :
      (c : P2pk H)
      → is_inputs_started c.state ≡ true
      → ((c.state ≡ inputs_started) × (c.state ≡ inputs_started)) × (c.state ≢ tx_finished)
  in_inputs c h = let e = from_inputs_started c.state h in ((e, e), λ bad. ground arith)

  pub input_tokens-Outcome :
      (c : P2pk H) (id : List ℕ) (i : ℕ) (b : Buffer)
      → Outcome d x s
          (input_tokens id i b)
          c
          (stx_operation_p2pk_add_input_tokens d id i b (holding d x s c))
  unfolding stx_operation_p2pk_add_input_tokens
  input_tokens-Outcome c id i b =
      call-Outcome (input_tokens id i b) c is_inputs_started
        (ergo_tx_serializer_full_add_input_tokens d.hs d.layout d.bufs id i b) (in_inputs c)

  pub input_extension-Outcome :
      (c : P2pk H) (b : Buffer)
      → Outcome d x s
          (input_extension b)
          c
          (stx_operation_p2pk_add_input_context_extension d b (holding d x s c))
  unfolding stx_operation_p2pk_add_input_context_extension
  input_extension-Outcome c b =
      call-Outcome (input_extension b) c is_inputs_started
        (ergo_tx_serializer_full_add_input_context_extension d.hs d.layout d.bufs b) (in_inputs c)

  pub data_inputs-Outcome :
      (c : P2pk H) (b : Buffer)
      → Outcome d x s (data_inputs b) c (stx_operation_p2pk_add_data_inputs d b (holding d x s c))
  unfolding stx_operation_p2pk_add_data_inputs
  data_inputs-Outcome c b =
      call-Outcome (data_inputs b) c is_inputs_started
        (ergo_tx_serializer_full_add_data_inputs d.hs d.bufs b) (in_inputs c)

  pub input-Outcome :
      (c : P2pk H) (id : List ℕ) (a f e : ℕ)
      → Outcome d x s (input id a f e) c (stx_operation_p2pk_add_input d id a f e (holding d x s c))
  unfolding stx_operation_p2pk_add_input
  input-Outcome c id a f e =
      Settles-check_proper_state c (λ st. is_tx_started st || is_inputs_started st) _
        (λ h. Settles-tx c (ergo_tx_serializer_full_add_input d.hs d.layout id f e) _ (λ after.
          let c1 = moved c c.state after.ctx after.mem in
          Settles-tx_context c1
            (ergo_tx_serializer_full_set_input_callback d.layout (some p2pk_input_token_cb)) _
            (λ tx.
              let (code, shared) = on_amounts (stx_amounts_add_input a) after.mem.shared in
              let mem = record after.mem { shared = shared } in
              Settles-check_sw (moved c c.state tx mem) code _ (λ _.
                settled (moved c inputs_started tx mem) refl refl (
                  Moves-moved (input id a f e) c inputs_started tx mem
                    (before_inputs c.state h, refl) (λ e. ground arith))))))

  pub output-Outcome :
      (c : P2pk H) (v t h k r : ℕ)
      → Outcome d x s
          (output v t h k r)
          c
          (stx_operation_p2pk_add_output d v t h k r (holding d x s c))
  unfolding stx_operation_p2pk_add_output
  output-Outcome c v t h k r =
      Settles-check_proper_state c (λ st. is_inputs_started st || is_outputs_started st) _
        (λ at_state.
          Settles-tx c (ergo_tx_serializer_full_add_box d.hs d.layout v t h k r) _ (λ after.
            Settles-tx_context (moved c c.state after.ctx after.mem)
              (ergo_tx_serializer_full_set_box_callbacks d.layout (some p2pk_output_type_cb)
                (some p2pk_output_token_cb) (some (p2pk_output_finished_cb d)))
              _
              (λ tx.
                settled
                  (p2pk_of d
                    (init_output d v (holding d x s (moved c outputs_started tx after.mem))))
                  refl refl
                  (Moves-moved (output v t h k r) c outputs_started tx _
                    (before_outputs c.state at_state, refl) (λ e. ground arith)))))
