-- ===== src/SignTx/Handler/Inputs.antt =====
-- How the messages of stx_handler.c on the start, the tokens and the inputs are answered.
use ledger_app_ergo.Prelude.{
  ℕ, Option, none, some, ◌≡◌, refl, List, Bool, true, false, arith, ◌%◌, ◌*◌, ◌+◌, ◌==◌, not,
  u8_mod,
}
use ledger_app_ergo.Sw.{sw_too_much_data, sw_not_enough_data, sw_bad_frame_signature}
use ledger_app_ergo.Helpers.InputFrame.{
  input_frame_data_length, frame_token_value_pair_size, input_frame_signature_len,
}
use ledger_app_ergo.Common.Buffer.{buffer_read_bytes, buffer_read_ptr, buffer_init}
use ledger_app_ergo.Prelude.Flow.{◌>>=◌, ◌>>◌, ret, modify, when, call, function}
use ledger_app_ergo.Sdk.{Buffer}
use ledger_app_ergo.SignTx.Context.{P2pk, SignTx, approved}
use ledger_app_ergo.SignTx.P2pk.Settles.{holding}
use ledger_app_ergo.SignTx.P2pk.Steps.{OpCall, operate}
use ledger_app_ergo.SignTx.Handler.{
  handler_err, check_approved, check_call_result_sw_ok, check_read_param, is_frame_signed,
  handle_tokens, handle_tx_start, handle_input_context_extension, handle_data_inputs,
  handle_input_frame,
}
use ledger_app_ergo.SignTx.Handler.Reacts.{
  Reacts, Reacts-approved, Reacts-operate, Reacts-answer, Reacts-read, Reacts-when, Reacts-error,
  Keeps, Keeps-trans, Keeps-refl,
}
use ledger_app_ergo.App.{App, Device, app_set_current_command, sign_tx, res_ok}

module _ {H : Type 0} (d : Device H) (s : App H) where
  answer-Reacts :
      (call : OpCall)
      → Reacts s
          (function
            (do check_approved d; check_call_result_sw_ok d (operate d call); modify res_ok)
            s).1
  answer-Reacts call =
      Reacts-approved d s s.commands_ctx _
        (λ x e h. Reacts-operate d s x x.p2pk call _ (λ c keeps. Reacts-answer d s x c e h keeps))

  pub handle_tokens-Reacts : (b : Buffer) → Reacts s (handle_tokens d b s).1
  unfolding handle_tokens operate
  handle_tokens-Reacts b = answer-Reacts (OpCall.tokens b)

  pub handle_input_context_extension-Reacts :
      (b : Buffer) → Reacts s (handle_input_context_extension d b s).1
  unfolding handle_input_context_extension operate
  handle_input_context_extension-Reacts b = answer-Reacts (OpCall.input_extension b)

  pub handle_data_inputs-Reacts : (b : Buffer) → Reacts s (handle_data_inputs d b s).1
  unfolding handle_data_inputs operate
  handle_data_inputs-Reacts b = answer-Reacts (OpCall.data_inputs b)

  pub handle_tx_start-Reacts : (b : Buffer) → Reacts s (handle_tx_start d b s).1
  unfolding handle_tx_start operate
  handle_tx_start-Reacts b = Reacts-approved d s s.commands_ctx _ (λ x e h.
      let u = sign_tx x in
      Reacts-read d s (d.bufs.read_u16 b) u _ (λ i. Reacts-read d s (d.bufs.read_u16 i.1) u _ (λ di.
        Reacts-read d s (d.bufs.read_u8 di.1) u _ (λ t.
          Reacts-read d s (d.bufs.read_u16 t.1) u _ (λ o.
            Reacts-when d s (d.bufs.can_read o.1 1) sw_too_much_data u _ (λ e. ground arith)
              (Reacts-operate d s x x.p2pk (OpCall.start i.0 di.0 o.0 t.0) _
                (λ c keeps. Reacts-answer d s x c e h keeps)))))))

  -- The part of an input frame behind its data.
  frame_rest-Reacts :
      (x : SignTx H) (c : P2pk H) (box_id : List ℕ) (index : ℕ) (tokens : Buffer)
      → s.commands_ctx ≡ sign_tx x
      → x.state ≡ approved
      → Keeps x.p2pk c
      → Reacts s
          (function
            (do
              check_call_result_sw_ok d (operate d (OpCall.input_tokens box_id index tokens))
              modify res_ok)
            (holding d x s c)).1
  frame_rest-Reacts x c box_id index tokens e h kept =
      Reacts-operate d s x c (OpCall.input_tokens box_id index tokens) _
        (λ c' keeps. Reacts-answer d s x c' e h (Keeps-trans x.p2pk c c' kept keeps))

  -- The part of an input frame behind the seek, given what is read of the extension's length.
  start-Reacts :
      (is_first : Bool) (x : SignTx H) (box_id : List ℕ) (index value frames : ℕ)
      (read_len : Option (ℕ × Buffer)) (tokens : Buffer)
      → s.commands_ctx ≡ sign_tx x
      → x.state ≡ approved
      → Reacts s
          (function
            (do
              when is_first do
                (extension_len, _) ← check_read_param d read_len
                check_call_result_sw_ok d
                    (operate d (OpCall.input box_id value frames extension_len))
              check_call_result_sw_ok d (operate d (OpCall.input_tokens box_id index tokens))
              modify res_ok)
            (holding d x s x.p2pk)).1
  unfolding handler_err app_set_current_command
  start-Reacts false x box_id index value frames read_len tokens e h =
      frame_rest-Reacts x x.p2pk box_id index tokens e h (Keeps-refl x.p2pk)
  start-Reacts true x box_id index value frames none tokens e h =
      Reacts-error d s sw_not_enough_data (holding d x s x.p2pk) ret (λ e. ground arith) refl
  start-Reacts true x box_id index value frames (some len) tokens e h =
      Reacts-operate d s x x.p2pk (OpCall.input box_id value frames len.0) _
        (λ c keeps. frame_rest-Reacts x c box_id index tokens e h keeps)

  pub handle_input_frame-Reacts :
      (key : List ℕ) (b : Buffer) → Reacts s (handle_input_frame d key b s).1
  unfolding handle_input_frame operate
  handle_input_frame-Reacts key b = Reacts-approved d s s.commands_ctx _ (λ x e h.
      let u = sign_tx x in
      Reacts-when d s (input_frame_data_length d.bufs b == 0) sw_not_enough_data u _
        (λ e. ground arith)
        (Reacts-when d s (not (is_frame_signed d key b)) sw_bad_frame_signature u _
          (λ e. ground arith)
          (Reacts-read d s (buffer_read_bytes d.bufs b 32) u _ (λ id.
            Reacts-read d s (d.bufs.read_u8 id.1) u _ (λ frames.
              Reacts-read d s (d.bufs.read_u8 frames.1) u _ (λ index.
                Reacts-read d s (d.bufs.read_u64 index.1) u _ (λ value.
                  Reacts-read d s (d.bufs.read_u8 value.1) u _ (λ count.
                    let len = (count.0 * frame_token_value_pair_size) % u8_mod in
                    Reacts-read d s (d.bufs.seek_cur count.1 (len + input_frame_signature_len)) u _
                      (λ b6.
                        start-Reacts (index.0 == 0) x id.0 index.0 value.0 frames.0
                          (d.bufs.read_u32 b6) (buffer_init (buffer_read_ptr count.1) len) e
                          h)))))))))
