-- ===== src/AttestInput/Messages.antt =====
-- src/commands/attestinput/ainpt_handler.c: the messages of the command, and the switch over them.
pub mod Reacts
pub mod Guard
pub mod Start
use ledger_app_ergo.Prelude.{
  ℕ, Bool, true, false, Option, none, some, List, ◌==◌, not, ◌&&◌, if◌then◌else◌,
}
use ledger_app_ergo.Prelude.Flow.{
  Body, Function, ◌>>=◌, ◌>>◌, ret, pure, read, modify, when, call, function,
}
use ledger_app_ergo.Sdk.{Buffer}
use ledger_app_ergo.Sw.{
  sw_bad_state, sw_bad_session_id, sw_wrong_p1p2, sw_wrong_subcommand, sw_hasher_error,
}
use ledger_app_ergo.Common.Buffer.{buffer_read_bytes}
use ledger_app_ergo.Helpers.Session.{session_id_new_random, is_known_application}
use ledger_app_ergo.Helpers.CmdMacros.{Step, ret_with, check_read_param, check_params_finished}
use ledger_app_ergo.Ergo.TokenTable.{ergo_id_len}
use ledger_app_ergo.Ergo.Memory.{Memory}
use ledger_app_ergo.Ergo.Box.{ergo_tx_serializer_box_set_callbacks}
use ledger_app_ergo.Ergo.Box.Trees.{ergo_tx_serializer_box_init, ergo_tx_serializer_box_add_tree}
use ledger_app_ergo.Ergo.Box.Tokens.{ergo_tx_serializer_box_add_tokens}
use ledger_app_ergo.Ergo.Box.Registers.{
  ergo_tx_serializer_box_add_registers, ergo_tx_serializer_box_id_hash_init,
}
use ledger_app_ergo.AttestInput.Context.{
  AttestInput, AttestInputState, AmountsOrUi, ui, initialized, approved,
}
use ledger_app_ergo.AttestInput.Response.{
  send_response_attested_input_frame, send_response_attested_input_session_id,
}
use ledger_app_ergo.AttestInput.Handler.{
  AttestInputSubcommand, init, tree_chunk, tokens, registers, get_response_frame, unknown,
  is_attest_input_box, is_approved, is_finished, set_context, handler_err, box_token_cb, on_box,
  check_call_result_ok, check_box_finished, call_box, ui_display_access_token,
}
use ledger_app_ergo.App.{
  App, Device, cmd_attest_input_box, app_set_current_command, app_attest_input_context,
  set_attest_input, res_ui_busy,
}

module _ {H : Type 0} (d : Device H) where
  abbrev pub err : {A : Type 0} → ℕ → Step H A
  err code = ret_with (handler_err d code)

  abbrev pub check_state : (AttestInputState → Bool) → Step H (Unit {0})
  check_state test s = when (not (test (app_attest_input_context d s).state)) (err sw_bad_state) s

  abbrev pub read_token : (has_token : Bool) → Buffer → Option (ℕ × Buffer)
  read_token true cdata = d.bufs.read_u32 cdata
  read_token false cdata = some (0, cdata)

  -- An empty table, and the member `ui` of the union with zero bytes.
  abbrev pub no_tokens : AttestInput H → AttestInput H
  no_tokens c =
      let table = record c.mem.shared.tokens_table { count = 0 } in
      record c {
        mem = record c.mem { shared = record c.mem.shared { tokens_table = table; env = ui 0 } };
      }

  -- `ergo_tx_serializer_box_id_hash_init(&ctx->hash)`
  abbrev pub init_hash : Function Bool (App H)
  init_hash s =
      let c = app_attest_input_context d s in
      let (ok, hash) = ergo_tx_serializer_box_id_hash_init d.hs c.mem.hash in
      (ok, set_attest_input d (record c { mem = record c.mem { hash = hash } }) s)

  abbrev pub set_callbacks : AttestInput H → AttestInput H
  set_callbacks c = record c {
    box = ergo_tx_serializer_box_set_callbacks none (some (box_token_cb d)) none c.box;
  }

  abbrev pub new_session : App H → App H
  new_session s =
      let c = app_attest_input_context d s in
      let (session, random) = session_id_new_random c.session s.random in
      record (set_attest_input d (record c { state = initialized; session = session }) s) {
        random = random;
      }

  -- The end of `handle_init`: the session for a known application, or the screens.
  abbrev pub open_session : (app_session_id app_session_id_in : ℕ) → Step H (Unit {0})
  open_session app_session_id app_session_id_in = do
    s ← read
    if is_known_application app_session_id app_session_id_in
        then (do
          modify (set_context d (λ c. record c { state = approved }))
          modify (send_response_attested_input_session_id (app_attest_input_context d s).session))
        else modify (ui_display_access_token d app_session_id_in)

  unfoldable pub handle_init :
      Buffer → (has_token : Bool) (app_session_id : ℕ) → Function (Unit {0}) (App H)
  unfolding handler_err ergo_tx_serializer_box_id_hash_init ergo_tx_serializer_box_init
      session_id_new_random is_known_application ui_display_access_token buffer_read_bytes
      ergo_tx_serializer_box_set_callbacks box_token_cb
  handle_init cdata has_token app_session_id = function do
    (box_id, b1) ← check_read_param (handler_err d) (buffer_read_bytes d.bufs cdata ergo_id_len)
    modify (set_context d (λ c. record c { box_id = box_id }))
    (box_index, b2) ← check_read_param (handler_err d) (d.bufs.read_u16 b1)
    modify (set_context d (λ c. record c { box_index = box_index }))
    (value, b3) ← check_read_param (handler_err d) (d.bufs.read_u64 b2)
    (tree_size, b4) ← check_read_param (handler_err d) (d.bufs.read_u32 b3)
    (height, b5) ← check_read_param (handler_err d) (d.bufs.read_u32 b4)
    (tokens_count, b6) ← check_read_param (handler_err d) (d.bufs.read_u8 b5)
    (registers_size, b7) ← check_read_param (handler_err d) (d.bufs.read_u32 b6)
    (app_session_id_in, b8) ← check_read_param (handler_err d) (read_token has_token b7)
    check_params_finished (handler_err d) d.bufs b8
    modify (set_context d no_tokens)
    hashed ← call init_hash
    when (not hashed) (err sw_hasher_error)
    check_call_result_ok d (
        on_box d
          (ergo_tx_serializer_box_init d.hs value tree_size height tokens_count registers_size))
    modify (set_context d set_callbacks)
    modify new_session
    open_session app_session_id app_session_id_in

  unfoldable pub handle_tree_chunk : Buffer → Function (Unit {0}) (App H)
  unfolding handler_err ergo_tx_serializer_box_add_tree check_box_finished
  handle_tree_chunk cdata =
      function
        do check_state is_approved; call_box d (ergo_tx_serializer_box_add_tree d.hs d.bufs cdata)

  unfoldable pub handle_tokens : Buffer → Function (Unit {0}) (App H)
  unfolding handler_err ergo_tx_serializer_box_add_tokens check_box_finished
  handle_tokens cdata = function do
    check_state is_approved
    call_box d (ergo_tx_serializer_box_add_tokens d.bufs d.hs cdata none)

  unfoldable pub handle_registers_chunk : Buffer → Function (Unit {0}) (App H)
  unfolding handler_err ergo_tx_serializer_box_add_registers check_box_finished
  handle_registers_chunk cdata = function do
    check_state is_approved
    call_box d (ergo_tx_serializer_box_add_registers d.hs d.bufs cdata)

  unfoldable pub handle_get_frame : (session_key : List ℕ) → Buffer → Function (Unit {0}) (App H)
  unfolding handler_err send_response_attested_input_frame
  handle_get_frame session_key cdata = function do
    check_state is_finished
    (index, b) ← check_read_param (handler_err d) (d.bufs.read_u8 cdata)
    check_params_finished (handler_err d) d.bufs b
    s ← read
    call (send_response_attested_input_frame d (app_attest_input_context d s) session_key index)

  -- `CHECK_COMMAND` and `CHECK_SESSION`
  abbrev pub check_command : Step H (Unit {0})
  check_command s = when (not (is_attest_input_box s.current_command)) (err sw_bad_state) s

  abbrev pub check_session : ℕ → Step H (Unit {0})
  check_session session_id s =
      when (not (session_id == (app_attest_input_context d s).session)) (err sw_bad_session_id) s

  -- The handlers behind these checks.
  unfoldable pub handle_subcommand : AttestInputSubcommand → Buffer → Function (Unit {0}) (App H)
  unfolding handler_err
  handle_subcommand tree_chunk cdata = handle_tree_chunk cdata
  handle_subcommand tokens cdata = handle_tokens cdata
  handle_subcommand registers cdata = handle_registers_chunk cdata
  handle_subcommand get_response_frame cdata = λ s. handle_get_frame s.session_key cdata s
  handle_subcommand _ cdata = function (err sw_wrong_subcommand)

  abbrev pub checked_subcommand : AttestInputSubcommand → Buffer → ℕ → Step H (Unit {0})
  checked_subcommand subcommand cdata session = do
    check_command
    check_session session
    call (handle_subcommand subcommand cdata)

  abbrev pub start_attestation : Buffer → (token : ℕ) → Step H (Unit {0})
  start_attestation cdata token = do
    when (not (token == 0x01) && not (token == 0x02)) (err sw_wrong_p1p2)
    modify (app_set_current_command cmd_attest_input_box)
    s ← read
    call (handle_init cdata (token == 0x02) s.connected_app_id)

  -- The `switch`.
  unfoldable pub run_subcommand : AttestInputSubcommand → Buffer → ℕ → Step H (Unit {0})
  unfolding handler_err app_set_current_command handle_subcommand
  run_subcommand init cdata token = start_attestation cdata token
  run_subcommand unknown cdata session = err sw_wrong_subcommand
  run_subcommand subcommand cdata session = checked_subcommand subcommand cdata session

  unfoldable pub handler_attest_input :
      Buffer → AttestInputSubcommand → (session_or_token : ℕ) → Function (Unit {0}) (App H)
  unfolding run_subcommand
  handler_attest_input cdata subcommand session_or_token = function do
    s ← read
    when s.is_ui_busy (ret_with res_ui_busy)
    run_subcommand subcommand cdata session_or_token
