-- ===== src/AttestInput/Response/Sends.antt =====
-- What send_response_attested_input_frame does on any context: a frame, or an error that wipes it.
use ledger_app_ergo.Prelude.{
  ℕ, zero, suc, ◌+◌, ◌-◌, ◌*◌, ◌%◌, ◌≡◌, ◌≢◌, inl, inr, refl, List, [], arith, get_or, leb, ltb,
  not, Option-cases,
}
use ledger_app_ergo.Prelude.Flow.{then_do, result_of}
use ledger_app_ergo.Prelude.Ends.{Ends-when}
use ledger_app_ergo.Sdk.{be}
use ledger_app_ergo.Sw.{sw_ok, sw_bad_frame_index, sw_too_much_data, sw_buffer_error}
use ledger_app_ergo.Common.RwBuffer.{
  RwBuffer, rw_buffer_new_local_empty, rw_buffer_write_u8, rw_buffer_write_bytes,
  rw_buffer_can_write, rw_buffer_seek_write_cur,
}
use ledger_app_ergo.Common.RwBuffer.Contents.{contents}
use ledger_app_ergo.Common.RwBuffer.Numbers.{rw_buffer_write_u64}
use ledger_app_ergo.Helpers.CmdMacros.{Step, reset_with}
use ledger_app_ergo.Helpers.CmdMacros.Answers.{Ends-write}
use ledger_app_ergo.Helpers.InputFrame.{frame_max_tokens_count, input_frame_signature_len}
use ledger_app_ergo.Ergo.TokenTable.{TokenTable, ergo_id_len}
use ledger_app_ergo.AttestInput.Context.{AttestInput}
use ledger_app_ergo.AttestInput.Response.{
  get_frames_count, frame_tokens_count, cx_sha256_size, amounts_view, write_tokens, sign_frame,
  send_response_attested_input_frame,
}
use ledger_app_ergo.App.{App, Device, res_ok_data}

pub data Sends {H : Type 0} (s : App H) (s' : App H) : Type 0 where
  sent : (bytes : List ℕ) → s' ≡ res_ok_data bytes s → Sends s s'
  reset : (code : ℕ) → code ≢ sw_ok → s' ≡ reset_with code s → Sends s s'

module _ {H : Type 0} (d : Device H) (s : App H) where
  abbrev F : (Unit {0}) × App H → Type 0
  F r = Sends s r.1

  fails : (code : ℕ) → code ≢ sw_ok → F (tt, reset_with code s)
  fails code h = reset code h refl

  full : F (tt, reset_with sw_buffer_error s)
  full = fails sw_buffer_error (λ e. ground arith)

  -- The loop, in front of any rest of the function.
  Sends-tokens :
      (rounds i : ℕ) (table : TokenTable) (amounts : List ℕ) (b : RwBuffer)
      (k : RwBuffer → Step H (Unit {0}))
      → ((b' : RwBuffer) → F (result_of (k b' s)))
      → F (result_of (then_do (write_tokens d rounds i table amounts b s) k))
  unfolding write_tokens
  Sends-tokens zero i table amounts b k rest = rest b
  Sends-tokens (suc rounds) i table amounts b k rest =
      elim (Option-cases (rw_buffer_write_bytes b (get_or table.tokens i []) ergo_id_len)) [
        | inl e ↦ rw e full
        | inr (b1, e) ↦ rw e (
            let again = λ (b2 : RwBuffer). Sends-tokens rounds (i + 1) table amounts b2 k rest in
            elim (Option-cases (rw_buffer_write_u64 d.writes b1 (get_or amounts i 0) be)) [
              | inl e' ↦ rw e' full
              | inr (b2, e') ↦ rw e' (again b2)
            ])
      ]

  pub send_frame-Sends :
      (ctx : AttestInput H) (key : List ℕ) (index : ℕ)
      → Sends s (send_response_attested_input_frame d ctx key index s).1
  unfolding send_response_attested_input_frame
  send_frame-Sends ctx key index =
      let table = ctx.mem.shared.tokens_table in
      let count = get_frames_count table.count in
      let tokens = frame_tokens_count table.count index in
      let offset = index * frame_max_tokens_count % 256 in
      let b0 = rw_buffer_new_local_empty (d.io_apdu_buffer_size - 2) in
      Ends-when F (leb count index) _ s _ (λ _. fails sw_bad_frame_index (λ e. ground arith))
        (λ _. Ends-write F (rw_buffer_write_bytes b0 ctx.box_id ergo_id_len) s _ full (λ b1 _.
          Ends-write F (rw_buffer_write_u8 b1 count) s _ full (λ b2 _.
            Ends-write F (rw_buffer_write_u8 b2 index) s _ full (λ b3 _.
              Ends-write F (rw_buffer_write_u64 d.writes b3 ctx.box.value be) s _ full (λ b4 _.
                Ends-write F (rw_buffer_write_u8 b4 tokens) s _ full (λ b5 _.
                  Ends-when F (ltb 255 (offset + tokens)) _ s _
                    (λ _. fails sw_too_much_data (λ e. ground arith))
                    (λ _.
                      Sends-tokens tokens offset table (amounts_view d ctx.mem.shared.env) b5 _
                        (λ b6.
                          Ends-when F (not (rw_buffer_can_write b6 cx_sha256_size)) _ s _
                            (λ _. full)
                            (λ _.
                              Ends-write F
                                (rw_buffer_seek_write_cur (sign_frame d key b6)
                                  input_frame_signature_len)
                                s _ full (λ b7 _. sent (contents b7) refl))))))))))
