-- ===== src/SignTx/Handler.antt =====
-- src/commands/signtx/stx_handler.c: the handlers of the command's messages.
pub mod Outputs
pub mod Dispatch
pub mod Reacts
pub mod Inputs
pub mod Shows
pub mod Ends
pub mod Guard
pub mod Start
pub mod Decide
pub mod Sound
use ledger_app_ergo.Prelude.{
  ℕ, ◌+◌, ◌*◌, ◌%◌, Bool, true, false, Option, none, some, List, take, eq_bytes, ◌==◌, not, ◌&&◌,
  if◌then◌else◌, u8_mod, get_or,
}
use ledger_app_ergo.Prelude.Flow.{
  stop, go, Body, Function, ◌>>=◌, ◌>>◌, ret, pure, read, modify, when, call, function,
}
use ledger_app_ergo.Sdk.{Buffer}
use ledger_app_ergo.Sw.{
  sw_ok, sw_bad_state, sw_not_enough_data, sw_too_much_data, sw_buffer_error,
  sw_bad_frame_signature,
}
use ledger_app_ergo.Common.Buffer.{buffer_init, buffer_read_ptr, buffer_read_bytes}
use ledger_app_ergo.Helpers.Session.{session_id_new_random, is_known_application}
use ledger_app_ergo.Helpers.InputFrame.{
  input_frame_signature_len, frame_token_value_pair_size, input_frame_data_length,
  input_frame_signature_ptr,
}
use ledger_app_ergo.SignTx.Output.{Bip32Path}
use ledger_app_ergo.SignTx.Context.{SignTx, SignTxState, initialized, approved, error, p2pk}
use ledger_app_ergo.SignTx.P2pk.{
  p2pk_of, set_p2pk, stx_operation_p2pk_init, stx_operation_p2pk_start_tx,
}
use ledger_app_ergo.SignTx.P2pk.Inputs.{
  stx_operation_p2pk_add_tokens, stx_operation_p2pk_add_input, stx_operation_p2pk_add_input_tokens,
  stx_operation_p2pk_add_input_context_extension, stx_operation_p2pk_add_data_inputs,
}
use ledger_app_ergo.SignTx.P2pk.Screens.{
  ui_stx_operation_p2pk_show_token_and_path, ui_stx_operation_p2pk_show_confirm_screen,
}
use ledger_app_ergo.App.{
  App, Device, cmd_none, app_set_current_command, app_sign_transaction_context, set_sign_tx, res_ok,
  res_error,
}

abbrev pub is_approved : SignTxState → Bool
is_approved approved = true
is_approved _ = false

-- A handler sends its reply; the value that it returns is the one of the sending.
abbrev pub Step : Type 0 → Type 0 → Type 0
Step H A = Body (Unit {0}) (App H) A

module _ {H : Type 0} (d : Device H) where
  abbrev set_state : SignTxState → App H → App H
  set_state state s = set_sign_tx d (record (app_sign_transaction_context d s) { state = state }) s

  -- `return handler_err(ctx, err);`
  unfoldable pub handler_err : {A : Type 0} → ℕ → Step H A
  unfolding app_set_current_command
  handler_err err s = stop tt (res_error err (app_set_current_command cmd_none (set_state error s)))

  -- `CHECK_PROPER_STATE` with the state APPROVED
  abbrev pub check_approved : Step H (Unit {0})
  check_approved s =
      when (not (is_approved (app_sign_transaction_context d s).state)) (handler_err sw_bad_state) s

  -- `CHECK_READ_PARAM`
  abbrev pub check_read_param : {A : Type 0} → Option A → Step H A
  check_read_param none = handler_err sw_not_enough_data
  check_read_param (some a) = pure a

  -- `CHECK_PARAMS_FINISHED`
  abbrev pub check_params_finished : Buffer → Step H (Unit {0})
  check_params_finished cdata = when (d.bufs.can_read cdata 1) (handler_err sw_too_much_data)

  -- `CHECK_CALL_RESULT_SW_OK`
  abbrev pub check_call_result_sw_ok : Function ℕ (App H) → Step H (Unit {0})
  check_call_result_sw_ok f = do code ← call f; when (not (code == sw_ok)) (handler_err code)

  -- The path, or `none` for SW_BUFFER_ERROR. The places of the array behind the length are not read.
  unfoldable pub read_bip32_path : Buffer → Option (Bip32Path × Buffer)
  read_bip32_path input = elim (d.bufs.read_u8 input) [
    | none ↦ none
    | some (len, b) ↦ elim (d.bufs.read_bip32_path b len) [
      | none ↦ none
      | some (path, b') ↦ some (record { len = len; path = path }, b')
    ]
  ]

  -- `CHECK_CALL_RESULT_SW_OK` of it
  abbrev pub check_path : Option (Bip32Path × Buffer) → Step H (Bip32Path × Buffer)
  check_path none = handler_err sw_buffer_error
  check_path (some p) = pure p

  abbrev pub store_path : Bip32Path → App H → App H
  store_path path s = set_p2pk d (record (p2pk_of d s) { bip32 = path }) s

  abbrev pub read_token : Bool → Buffer → Option (ℕ × Buffer)
  read_token true cdata = d.bufs.read_u32 cdata
  read_token false cdata = some (0, cdata)

  abbrev pub new_session : App H → App H
  new_session s =
      let ctx = app_sign_transaction_context d s in
      let (session, random) = session_id_new_random ctx.session s.random in
      record (set_sign_tx d
        (record ctx { operation = p2pk; state = initialized; session = session }) s) {
          random = random;
        }

  unfoldable pub handle_init_p2pk :
      Buffer → (has_token : Bool) (app_session_id : ℕ) → Function (Unit {0}) (App H)
  unfolding handler_err read_bip32_path stx_operation_p2pk_init session_id_new_random
      is_known_application ui_stx_operation_p2pk_show_token_and_path
  handle_init_p2pk cdata has_token app_session_id = function do
    (network_id, b1) ← check_read_param (d.bufs.read_u8 cdata)
    (path, b2) ← check_path (read_bip32_path b1)
    modify (store_path path)
    (app_session_id_in, b3) ← check_read_param (read_token has_token b2)
    check_params_finished b3
    check_call_result_sw_ok (stx_operation_p2pk_init d path network_id)
    modify new_session
    check_call_result_sw_ok (
        ui_stx_operation_p2pk_show_token_and_path d app_session_id_in
          (is_known_application app_session_id app_session_id_in))
    ret tt

  unfoldable pub handle_tx_start : Buffer → Function (Unit {0}) (App H)
  unfolding handler_err stx_operation_p2pk_start_tx
  handle_tx_start cdata = function do
    check_approved
    (inputs_count, b1) ← check_read_param (d.bufs.read_u16 cdata)
    (data_inputs_count, b2) ← check_read_param (d.bufs.read_u16 b1)
    (tokens_count, b3) ← check_read_param (d.bufs.read_u8 b2)
    (outputs_count, b4) ← check_read_param (d.bufs.read_u16 b3)
    check_params_finished b4
    check_call_result_sw_ok
        (stx_operation_p2pk_start_tx d inputs_count data_inputs_count outputs_count tokens_count)
    modify res_ok

  -- A handler that checks the state, makes one call and answers.
  abbrev call_and_answer : Function ℕ (App H) → Function (Unit {0}) (App H)
  call_and_answer f = function do check_approved; check_call_result_sw_ok f; modify res_ok

  unfoldable pub handle_tokens : Buffer → Function (Unit {0}) (App H)
  unfolding handler_err stx_operation_p2pk_add_tokens
  handle_tokens cdata = call_and_answer (stx_operation_p2pk_add_tokens d cdata)

  unfoldable pub handle_input_context_extension : Buffer → Function (Unit {0}) (App H)
  unfolding handler_err stx_operation_p2pk_add_input_context_extension
  handle_input_context_extension cdata =
      call_and_answer (stx_operation_p2pk_add_input_context_extension d cdata)

  unfoldable pub handle_data_inputs : Buffer → Function (Unit {0}) (App H)
  unfolding handler_err stx_operation_p2pk_add_data_inputs
  handle_data_inputs cdata = call_and_answer (stx_operation_p2pk_add_data_inputs d cdata)

  -- Whether the frame's signature is the one of its data under the session key.
  unfoldable pub is_frame_signed : (session_key : List ℕ) → Buffer → Bool
  unfolding input_frame_data_length input_frame_signature_ptr
  is_frame_signed session_key cdata =
      let frame_data_len = input_frame_data_length d.bufs cdata in
      let signature =
        d.crypto.cx_hmac_sha256 session_key (take frame_data_len (buffer_read_ptr cdata)) in
      elim (input_frame_signature_ptr d.bufs cdata) [
        | none ↦ false
        | some ptr ↦
            eq_bytes (take input_frame_signature_len signature) (take input_frame_signature_len ptr)
      ]

  -- The part for a frame with the index 0, given the buffer behind the frame.
  abbrev start_input :
      (frame_index : ℕ) (box_id : List ℕ) (value frames_count : ℕ) → Buffer → Step H (Unit {0})
  start_input frame_index box_id value frames_count cdata = when (frame_index == 0) do
    (extension_len, _) ← check_read_param (d.bufs.read_u32 cdata)
    check_call_result_sw_ok (stx_operation_p2pk_add_input d box_id value frames_count extension_len)

  unfoldable pub handle_input_frame : (session_key : List ℕ) → Buffer → Function (Unit {0}) (App H)
  unfolding handler_err input_frame_data_length is_frame_signed buffer_read_bytes
      stx_operation_p2pk_add_input stx_operation_p2pk_add_input_tokens
  handle_input_frame session_key cdata = function do
    check_approved
    when (input_frame_data_length d.bufs cdata == 0) (handler_err sw_not_enough_data)
    when (not (is_frame_signed session_key cdata)) (handler_err sw_bad_frame_signature)
    (box_id, b1) ← check_read_param (buffer_read_bytes d.bufs cdata 32)
    (frames_count, b2) ← check_read_param (d.bufs.read_u8 b1)
    (frame_index, b3) ← check_read_param (d.bufs.read_u8 b2)
    (value, b4) ← check_read_param (d.bufs.read_u64 b3)
    (tokens_count, b5) ← check_read_param (d.bufs.read_u8 b4)
    let tokens_len = (tokens_count * frame_token_value_pair_size) % u8_mod
    b6 ← check_read_param (d.bufs.seek_cur b5 (tokens_len + input_frame_signature_len))
    start_input frame_index box_id value frames_count b6
    check_call_result_sw_ok (
        stx_operation_p2pk_add_input_tokens d box_id frame_index
          (buffer_init (buffer_read_ptr b5) tokens_len))
    modify res_ok

  unfoldable pub handle_sign_confirm : Function (Unit {0}) (App H)
  unfolding handler_err ui_stx_operation_p2pk_show_confirm_screen
  handle_sign_confirm = function do
    check_approved
    check_call_result_sw_ok (ui_stx_operation_p2pk_show_confirm_screen d)
    ret tt
