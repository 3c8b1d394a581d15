-- ===== src/AttestInput/Handler.antt =====
-- src/commands/attestinput/ainpt_handler.c, and the screen of ainpt_ui_bagl.c without its texts.
pub mod Tokens
use ledger_app_ergo.Prelude.{
  ℕ, zero, suc, ◌+◌, Bool, true, false, Option, none, some, List, [], get_or, set, leb, ◌==◌, not,
  if◌then◌else◌, eq_bytes, u8_mod, wrap_suc,
}
use ledger_app_ergo.Prelude.Flow.{Function, ◌>>=◌, ◌>>◌, read, modify, when, call, function}
use ledger_app_ergo.Sw.{sw_from_tx_box_result}
use ledger_app_ergo.Helpers.CmdMacros.{Step, ret_with}
use ledger_app_ergo.Ergo.TokenTable.{TokenTable, token_max_count}
use ledger_app_ergo.Ergo.Memory.{Shared}
use ledger_app_ergo.Ergo.Box.{
  BoxResult, ok, more_data, err_bad_token_id, err_too_many_tokens, BoxType, BoxFrame, is_fine,
  ergo_tx_serializer_box_is_finished,
}
use ledger_app_ergo.Ergo.Box.Registers.{ergo_tx_serializer_box_id_hash}
use ledger_app_ergo.SignTx.Ui.{next_screen, ui_display_screens}
use ledger_app_ergo.AttestInput.Context.{
  AttestInput, AttestInputState, AmountsOrUi, token_amounts, ui, finished, approved, error,
}
use ledger_app_ergo.AttestInput.Response.{
  amounts_view, send_response_attested_input_frame_count, send_response_attested_input_session_id,
}
use ledger_app_ergo.App.{
  App, Device, Command, cmd_none, cmd_attest_input_box, app_set_current_command, app_set_ui_busy,
  app_set_connected_app_id, app_attest_input_context, set_attest_input, res_ok, res_deny, res_error,
}

-- The values of the enumeration, and any other one.
pub data AttestInputSubcommand : Type 0 where
  init tree_chunk tokens registers get_response_frame unknown : AttestInputSubcommand

abbrev pub is_attest_input_box : Command → Bool
is_attest_input_box cmd_attest_input_box = true
is_attest_input_box _ = false

abbrev pub is_approved : AttestInputState → Bool
is_approved approved = true
is_approved _ = false

abbrev pub is_finished : AttestInputState → Bool
is_finished finished = true
is_finished _ = false

-- The loop of `box_token_cb` over the table, with the rounds that are left.
unfoldable pub is_listed : (rounds i : ℕ) → TokenTable → (id : List ℕ) → Bool
is_listed zero i table id = false
is_listed (suc rounds) i table id =
    let later = is_listed rounds (i + 1) table id in
    if eq_bytes id (get_or table.tokens i []) then true else later

module _ {H : Type 0} (d : Device H) where
  abbrev pub set_context : (AttestInput H → AttestInput H) → App H → App H
  set_context f s = set_attest_input d (f (app_attest_input_context d s)) s

  unfoldable pub handler_err : (err : ℕ) → App H → App H
  unfolding app_set_current_command
  handler_err err s =
      res_error err
        (app_set_current_command cmd_none (set_context (λ c. record c { state = error }) s))

  -- The callback for a token of the box, whose `void*` context is the one of the command.
  unfoldable pub box_token_cb :
      BoxType → (id : List ℕ) (value : ℕ) → Function BoxResult (Shared AmountsOrUi)
  unfolding is_listed
  box_token_cb type id value s =
      let table = s.tokens_table in
      let added : Shared AmountsOrUi = record {
        tokens_table = record {
          count = wrap_suc u8_mod table.count;
          tokens = set table.tokens table.count id;
        };
        env = token_amounts (set (amounts_view d s.env) table.count value);
      } in
      if leb token_max_count table.count
      then (err_too_many_tokens, s)
      else (if is_listed table.count 0 table id then (err_bad_token_id, s) else (ok, added))

  -- A call of the box serializer on the context's box and what it points to.
  abbrev pub on_box : {R : Type 0} → Function R (BoxFrame H AmountsOrUi) → Function R (App H)
  on_box f s =
      let c = app_attest_input_context d s in
      let (r, frame) = f (record { ctx = c.box; mem = c.mem }) in
      (r, set_attest_input d (record c { box = frame.ctx; mem = frame.mem }) s)

  -- `CHECK_CALL_RESULT_OK`
  abbrev pub check_call_result_ok : Function BoxResult (App H) → Step H (Unit {0})
  check_call_result_ok f = do
    res ← call f
    when (not (is_fine res)) (ret_with (handler_err (sw_from_tx_box_result res)))

  -- The digest of the box becomes its id.
  abbrev pub store_id : BoxResult × Option (List ℕ) → Function BoxResult (App H)
  store_id (res, none) s = (res, s)
  store_id (res, some id) s = (res, set_context (λ c. record c { box_id = id }) s)

  abbrev pub box_id_hash : Function BoxResult (App H)
  box_id_hash s =
      let c = app_attest_input_context d s in
      let (r, s') = on_box (ergo_tx_serializer_box_id_hash d.hs c.box_id c.box_index) s in
      store_id r s'

  abbrev pub send_frame_count : App H → App H
  send_frame_count s =
      send_response_attested_input_frame_count
        (app_attest_input_context d s).mem.shared.tokens_table.count s

  unfoldable pub check_box_finished : Function (Unit {0}) (App H)
  unfolding handler_err ergo_tx_serializer_box_id_hash ergo_tx_serializer_box_is_finished
      send_response_attested_input_frame_count
  check_box_finished = function do
    s ← read
    when (not (ergo_tx_serializer_box_is_finished (app_attest_input_context d s).box))
        (ret_with res_ok)
    check_call_result_ok box_id_hash
    modify (set_context (λ c. record c { state = finished }))
    modify send_frame_count

  -- `CHECK_CALL_BOX_FINISHED(ctx, f); return res_ok();`
  abbrev pub finish_call : BoxResult → Step H (Unit {0})
  finish_call ok = call check_box_finished
  finish_call more_data = ret_with res_ok
  finish_call err = ret_with (handler_err (sw_from_tx_box_result err))

  abbrev pub call_box : Function BoxResult (BoxFrame H AmountsOrUi) → Step H (Unit {0})
  call_box f = do res ← call (on_box f); finish_call res

  -- The screens hold the confirmation, the application's id where it is not 0, and the two answers.
  abbrev pub access_token_screens : (app_access_token : ℕ) → ℕ
  access_token_screens token =
      let first = next_screen 0 in
      next_screen (next_screen (if not (token == 0) then next_screen first else first))

  unfoldable pub ui_display_access_token : (app_access_token : ℕ) → App H → App H
  unfolding ui_display_screens
  ui_display_access_token token s =
      let store_token = λ (c : AttestInput H). record c {
        mem = record c.mem { shared = record c.mem.shared { env = ui token } };
      } in
      (ui_display_screens (access_token_screens token) (set_context store_token s)).1

  abbrev token_value : AmountsOrUi → ℕ
  token_value (ui token) = token
  token_value (token_amounts amounts) = d.ui_of_amounts amounts

  unfoldable pub ui_action_attest_input : Bool → App H → App H
  unfolding app_set_current_command
  ui_action_attest_input true s =
      let c = app_attest_input_context d s in
      send_response_attested_input_session_id c.session (
        set_context (λ c. record c { state = approved })
          (app_set_connected_app_id (token_value c.mem.shared.env) (app_set_ui_busy false s)))
  ui_action_attest_input false s =
      res_deny (app_set_current_command cmd_none (app_set_ui_busy false s))
