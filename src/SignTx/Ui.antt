-- ===== src/SignTx/Ui.antt =====
-- src/commands/signtx/stx_ui_bagl.c, src/ui/ui_main.h and src/ui/ui_dynamic_flow.c: what the screens
-- of a signing change and send. Their texts are left out.
use ledger_app_ergo.Prelude.{
  ℕ, ◌+◌, ◌*◌, ◌%◌, Bool, true, false, some, none, Option, ltb, leb, ◌==◌, not, ◌&&◌, ◌||◌,
  if◌then◌else◌, List, [], ◌∷◌, u8_mod, replicate,
}
use ledger_app_ergo.Prelude.Flow.{Function, ◌>>=◌, ◌>>◌, ret, read, modify, when, call, function}
use ledger_app_ergo.Sw.{sw_bad_state, sw_internal_crypto_error, sw_schnorr_signing_failed}
use ledger_app_ergo.Ergo.TokenTable.{index_not_exist}
use ledger_app_ergo.Ergo.Schnorr.{ergo_secp256k1_schnorr_p2pk_sign_finish}
use ledger_app_ergo.Helpers.Crypto.{private_key_len, crypto_generate_private_key}
use ledger_app_ergo.SignTx.Amounts.{stx_amounts_non_zero_tokens_count}
use ledger_app_ergo.SignTx.Output.{bip32, has_type, stx_output_info_used_tokens_count}
use ledger_app_ergo.SignTx.Context.{approved, zero_path}
use ledger_app_ergo.SignTx.P2pk.{p2pk_of, set_p2pk, is_finalized}
use ledger_app_ergo.SignTx.P2pk.Confirm.{path_view}
use ledger_app_ergo.App.{
  App, Device, cmd_none, app_set_current_command, app_set_ui_busy, app_set_connected_app_id,
  app_sign_transaction_context, set_sign_tx, res_ok, res_ok_data, res_deny, res_error,
}

abbrev pub max_number_of_screens : ℕ
max_number_of_screens = 16

-- `MAX_NUMBER_OF_SCREENS - *screen < n`, on int.
abbrev pub is_short_of : ℕ → ℕ → Bool
is_short_of n screen = ltb max_number_of_screens (screen + n)

abbrev pub next_screen : ℕ → ℕ
next_screen screen = if leb max_number_of_screens screen then screen else screen + 1

module _ {H : Type 0} where
  -- `ui_add_screen`, whose result is not looked at, on the counter of stx_op_p2pk.c.
  abbrev pub ui_add_screen : App H → App H
  ui_add_screen s = record s { signtx_screen = next_screen s.signtx_screen }

  -- The counter is given by value.
  unfoldable pub ui_display_screens : ℕ → Function Bool (App H)
  ui_display_screens position s =
      if is_short_of 2 position then (false, s) else (true, app_set_ui_busy true s)

  unfoldable pub ui_add_dynamic_flow_screens : ℕ → Function Bool (App H)
  ui_add_dynamic_flow_screens dynamic_screen_count = function do
    s ← read
    when (is_short_of 3 s.signtx_screen) (ret false)
    when ((dynamic_screen_count == 0) || (dynamic_screen_count == index_not_exist)) (ret false)
    modify ui_add_screen
    modify ui_add_screen
    modify ui_add_screen
    ret true

module _ {H : Type 0} (d : Device H) where
  abbrev set_approved : App H → App H
  set_approved s = set_sign_tx d (record (app_sign_transaction_context d s) { state = approved }) s

  abbrev pub ui_stx_operation_approve_reject : Bool → App H → App H
  ui_stx_operation_approve_reject true s =
      let ctx = app_sign_transaction_context d s in
      res_ok_data (ctx.session ∷ [])
        (set_approved (app_set_connected_app_id ctx.app_token_value (app_set_ui_busy false s)))
  ui_stx_operation_approve_reject false s =
      res_deny (app_set_current_command cmd_none (app_set_ui_busy false s))

  abbrev store_token_value : ℕ → App H → App H
  store_token_value token s =
      set_sign_tx d (record (app_sign_transaction_context d s) { app_token_value = token }) s

  unfoldable pub ui_stx_add_operation_approve_screens :
      (app_access_token : ℕ) (is_known_application : Bool) → Function Bool (App H)
  unfolding app_set_current_command
  ui_stx_add_operation_approve_screens token is_known = function do
    s ← read
    when (is_short_of 3 s.signtx_screen) (ret false)
    when (not is_known && not (token == 0)) (modify ui_add_screen)
    modify (store_token_value token)
    modify (ui_stx_operation_approve_reject true)
    ret true

  -- `transaction.last_approved_change`: zero bytes, and the path of a change output.
  abbrev set_last_approved : App H → App H
  set_last_approved s =
      let c = p2pk_of d s in
      let output = c.mem.shared.env.output in
      let path =
        if has_type bip32 output.state then path_view d.path_of output.info else zero_path in
      set_p2pk d (record c { last_approved_change = path }) s

  abbrev clear_last_approved : App H → App H
  clear_last_approved s = set_p2pk d (record (p2pk_of d s) { last_approved_change = zero_path }) s

  unfoldable pub ui_stx_operation_output_confirm_action : Bool → Function Bool (App H)
  unfolding app_set_current_command
  ui_stx_operation_output_confirm_action is_approved = function do
    modify (app_set_ui_busy false)
    modify clear_last_approved
    if is_approved
        then (do modify set_last_approved; ret true)
        else (do modify (app_set_current_command cmd_none); ret false)

  -- On uint8_t.
  abbrev pub info_screen_count : App H → ℕ
  info_screen_count s =
      let output = (p2pk_of d s).mem.shared.env.output in
      if not (has_type bip32 output.state)
      then (1 + (1 + 2 * stx_output_info_used_tokens_count output)) % u8_mod
      else 1

  abbrev add_output_pairs : ℕ → App H → App H
  add_output_pairs n s = record s { signtx_outputs_screen = (s.signtx_outputs_screen + n) % u8_mod }

  unfoldable pub ui_stx_add_output_screens : Function Bool (App H)
  unfolding ui_stx_operation_output_confirm_action
  ui_stx_add_output_screens = function do
    s ← read
    when (is_short_of 6 s.signtx_screen) (ret false)
    modify clear_last_approved
    is_confirmed ← call (ui_stx_operation_output_confirm_action true)
    when (not is_confirmed) do modify res_deny; ret false
    modify (add_output_pairs (info_screen_count s))
    t ← read
    when (is_short_of 2 t.signtx_screen) (ret false)
    modify clear_last_approved
    modify set_last_approved
    modify res_ok
    ret true

  -- `ui_stx_operation_p2pk_send_response` of stx_op_p2pk.c, the callback `op_response_cb`.
  abbrev clear_schnorr_key : App H → App H
  clear_schnorr_key s =
      set_p2pk d (record (p2pk_of d s) { schnorr_key = replicate private_key_len 0 }) s

  abbrev fail_with : ℕ → App H → App H
  fail_with code s = res_error code (app_set_current_command cmd_none s)

  abbrev pub send_signature : Option (List ℕ) → App H → App H
  send_signature (some signature) s = res_ok_data signature s
  send_signature none s = fail_with sw_schnorr_signing_failed s

  unfoldable pub ui_stx_operation_p2pk_send_response : App H → App H
  unfolding app_set_current_command
  ui_stx_operation_p2pk_send_response s =
      let c = p2pk_of d s in
      let (secret, code) =
        crypto_generate_private_key d.crypto c.bip32.path c.bip32.len
          (replicate private_key_len 0) in
      let (signature, hash) =
        ergo_secp256k1_schnorr_p2pk_sign_finish d.hs d.crypto c.mem.hash secret c.schnorr_key in
      let hashed = set_p2pk d (record c { mem = record c.mem { hash = hash } }) s in
      if not (is_finalized c.state)
      then fail_with sw_bad_state s
      else (if not (code == 0)
          then fail_with sw_internal_crypto_error (clear_schnorr_key s)
          else send_signature signature (clear_schnorr_key hashed))

  unfoldable pub ui_stx_operation_execute_action : Bool → App H → App H
  unfolding app_set_current_command
  ui_stx_operation_execute_action is_approved s =
      let s' = app_set_ui_busy false s in
      let answered = if is_approved then ui_stx_operation_p2pk_send_response s' else res_deny s' in
      app_set_current_command cmd_none answered

  -- No screen of the operation itself: `op_screen_count` is 0.
  abbrev pub transaction_pairs : App H → ℕ
  transaction_pairs s =
      1 + 2 * stx_amounts_non_zero_tokens_count (p2pk_of d s).mem.shared.env.amounts

  unfoldable pub ui_stx_add_transaction_screens : Function Bool (App H)
  unfolding ui_add_dynamic_flow_screens
  ui_stx_add_transaction_screens = function do
    s ← read
    when (is_short_of 6 s.signtx_screen) (ret false)
    flow ←
        call
          (ui_add_dynamic_flow_screens ((s.signtx_outputs_screen + transaction_pairs s) % u8_mod))
    when (not flow) (ret false)
    t ← read
    when (is_short_of 2 t.signtx_screen) (ret false)
    modify ui_add_screen
    modify ui_add_screen
    ret true
