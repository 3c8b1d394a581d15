-- ===== src/AttestInput/Response.antt =====
-- src/commands/attestinput/ainpt_response.c: the replies of an attestation.
pub mod Chunks
pub mod Frame
pub mod Accepted
pub mod Sends
use ledger_app_ergo.Prelude.{
  ℕ, zero, suc, ◌+◌, ◌-◌, ◌*◌, ◌/◌, ◌%◌, Bool, Option, none, some, List, [], ◌∷◌, get_or, leb, ltb,
  ◌==◌, not, if◌then◌else◌, u8_mod, take,
}
use ledger_app_ergo.Prelude.Flow.{
  Body, Function, ◌>>=◌, ◌>>◌, ret, pure, read, modify, when, function,
}
use ledger_app_ergo.Sdk.{be}
use ledger_app_ergo.Sw.{sw_bad_frame_index, sw_too_much_data, sw_buffer_error}
use ledger_app_ergo.Common.RwBuffer.{
  RwBuffer, store, with_ptr, rw_buffer_new_local_empty, rw_buffer_write_u8, rw_buffer_write_bytes,
  rw_buffer_can_write, rw_buffer_seek_write_cur,
}
use ledger_app_ergo.Common.RwBuffer.Contents.{contents}
use ledger_app_ergo.Common.RwBuffer.Numbers.{rw_buffer_write_u64}
use ledger_app_ergo.Helpers.InputFrame.{frame_max_tokens_count, input_frame_signature_len}
use ledger_app_ergo.Helpers.CmdMacros.{Step, ret_with, reset_with, check_write_param}
use ledger_app_ergo.Ergo.TokenTable.{TokenTable, ergo_id_len}
use ledger_app_ergo.AttestInput.Context.{AttestInput, AmountsOrUi, token_amounts, ui}
use ledger_app_ergo.App.{App, Device, res_ok_data}

-- On uint8_t.
unfoldable pub get_frames_count : (tokens_count : ℕ) → ℕ
get_frames_count tokens_count =
    let frames_count =
      (tokens_count + (frame_max_tokens_count - 1)) / frame_max_tokens_count % u8_mod in
    if frames_count == 0 then 1 else frames_count

abbrev pub cx_sha256_size : ℕ
cx_sha256_size = 32

-- `MIN`
abbrev pub min_of : ℕ → ℕ → ℕ
min_of a b = if ltb a b then a else b

-- The tokens of the frame with this index, on uint8_t.
abbrev pub frame_tokens_count : (tokens_count index : ℕ) → ℕ
frame_tokens_count tokens_count index =
    let n = index * frame_max_tokens_count in
    min_of ((tokens_count + u8_mod * frame_max_tokens_count - n) % u8_mod) frame_max_tokens_count

module _ {H : Type 0} (d : Device H) where
  abbrev pub amounts_view : AmountsOrUi → List ℕ
  amounts_view (token_amounts amounts) = amounts
  amounts_view (ui token) = d.amounts_of_ui token

  abbrev write_bytes : RwBuffer → List ℕ → ℕ → Step H RwBuffer
  write_bytes output bytes n = check_write_param (rw_buffer_write_bytes output bytes n)

  -- The loop over the tokens from `i` on, with the rounds that are left.
  unfoldable pub write_tokens :
      (rounds i : ℕ) → TokenTable → (amounts : List ℕ) → RwBuffer → Step H RwBuffer
  unfolding rw_buffer_write_bytes rw_buffer_write_u64 reset_with
  write_tokens zero i table amounts output = pure output
  write_tokens (suc rounds) i table amounts output = do
    output1 ←
        check_write_param (rw_buffer_write_bytes output (get_or table.tokens i []) ergo_id_len)
    output2 ← check_write_param (rw_buffer_write_u64 d.writes output1 (get_or amounts i 0) be)
    write_tokens rounds (i + 1) table amounts output2

  -- The code of what has been written, stored behind it. Its first 16 bytes are kept.
  abbrev pub sign_frame : (session_key : List ℕ) → RwBuffer → RwBuffer
  sign_frame session_key output =
      let signature = take cx_sha256_size (d.crypto.cx_hmac_sha256 session_key (contents output)) in
      with_ptr output (store output.read.ptr output.read.size signature)

  unfoldable pub send_response_attested_input_frame :
      AttestInput H → (session_key : List ℕ) (index : ℕ) → Function (Unit {0}) (App H)
  unfolding rw_buffer_write_bytes rw_buffer_write_u8 rw_buffer_write_u64 reset_with get_frames_count
      write_tokens rw_buffer_seek_write_cur
  send_response_attested_input_frame ctx session_key index =
      let table = ctx.mem.shared.tokens_table in
      let frames_count = get_frames_count table.count in
      let tokens_count = frame_tokens_count table.count index in
      let offset = index * frame_max_tokens_count % u8_mod in
      let output = rw_buffer_new_local_empty (d.io_apdu_buffer_size - 2) in
      function do
        when (leb frames_count index) (ret_with (reset_with sw_bad_frame_index))
        o1 ← check_write_param (rw_buffer_write_bytes output ctx.box_id ergo_id_len)
        o2 ← check_write_param (rw_buffer_write_u8 o1 frames_count)
        o3 ← check_write_param (rw_buffer_write_u8 o2 index)
        o4 ← check_write_param (rw_buffer_write_u64 d.writes o3 ctx.box.value be)
        o5 ← check_write_param (rw_buffer_write_u8 o4 tokens_count)
        when (ltb 255 (offset + tokens_count)) (ret_with (reset_with sw_too_much_data))
        o6 ← write_tokens tokens_count offset table (amounts_view ctx.mem.shared.env) o5
        when (not (rw_buffer_can_write o6 cx_sha256_size)) (ret_with (reset_with sw_buffer_error))
        o7 ←
            check_write_param
              (rw_buffer_seek_write_cur (sign_frame session_key o6) input_frame_signature_len)
        ret_with (res_ok_data (contents o7))

module _ {H : Type 0} where
  unfoldable pub send_response_attested_input_frame_count : (tokens_count : ℕ) → App H → App H
  unfolding get_frames_count
  send_response_attested_input_frame_count tokens_count =
      res_ok_data (get_frames_count tokens_count ∷ [])

  abbrev pub send_response_attested_input_session_id : (session_id : ℕ) → App H → App H
  send_response_attested_input_session_id session_id = res_ok_data (session_id ∷ [])
