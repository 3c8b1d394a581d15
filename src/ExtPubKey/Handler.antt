-- ===== src/ExtPubKey/Handler.antt =====
-- src/commands/extpubkey/epk_handler.c and epk_response.c, and the screen of epk_ui_bagl.c without its
-- texts.
pub mod Ends
pub mod Exports
pub mod Answers
use ledger_app_ergo.Prelude.{
  ℕ, ◌+◌, Bool, true, false, Option, none, some, List, [], get_or, drop, bit_and, ◌==◌, not,
  if◌then◌else◌,
}
use ledger_app_ergo.Prelude.Flow.{
  Body, Function, ◌>>=◌, ◌>>◌, pure, read, modify, when, call, function,
}
use ledger_app_ergo.Sdk.{Buffer}
use ledger_app_ergo.Sw.{sw_bip32_bad_path, sw_bip32_formatting_failed, sw_internal_crypto_error}
use ledger_app_ergo.Common.Bip32.{bip32_hardened, bip32_ergo_coin, account_ge3, bip32_path_validate}
use ledger_app_ergo.Common.RwBuffer.{
  rw_buffer_new_local_empty, rw_buffer_write_u8, rw_buffer_write_bytes,
}
use ledger_app_ergo.Common.RwBuffer.Contents.{contents}
use ledger_app_ergo.Helpers.Crypto.{crypto_generate_public_key, compressed_public_key_len}
use ledger_app_ergo.Helpers.Session.{is_known_application}
use ledger_app_ergo.Helpers.CmdMacros.{
  Step, ret_with, reset_with, check_read_param, check_params_finished, check_write_param,
}
use ledger_app_ergo.SignTx.Ui.{next_screen, ui_display_screens}
use ledger_app_ergo.ExtPubKey.Context.{ExtPubKey, chain_code_len}
use ledger_app_ergo.App.{
  App, Device, cleared, cmd_none, cmd_get_extended_public_key, app_set_current_command,
  app_set_ui_busy, app_set_connected_app_id, app_extended_public_key_context, set_ext_pub_key,
  res_ok_data, res_ui_busy, res_deny, res_error,
}

abbrev pub extended_public_key_len : ℕ
extended_public_key_len = compressed_public_key_len + chain_code_len

module _ {H : Type 0} where
  -- `return send_response_extended_pubkey(...);`
  unfoldable pub send_response_extended_pubkey :
      (raw_public_key chain_code : List ℕ) → Function (Unit {0}) (App H)
  unfolding rw_buffer_write_u8 rw_buffer_write_bytes reset_with app_set_current_command
  send_response_extended_pubkey key chain_code = function do
    r1 ← check_write_param (
        rw_buffer_write_u8 (rw_buffer_new_local_empty extended_public_key_len)
          (if bit_and (get_or key 64 0) 1 == 0 then 0x02 else 0x03))
    r2 ← check_write_param (rw_buffer_write_bytes r1 (drop 1 key) 32)
    r3 ← check_write_param (rw_buffer_write_bytes r2 chain_code chain_code_len)
    modify (app_set_current_command cmd_none)
    ret_with (res_ok_data (contents r3))

  unfoldable pub ui_action_get_extended_pubkey : (is_approved : Bool) → App H → App H
  unfolding send_response_extended_pubkey app_set_current_command
  ui_action_get_extended_pubkey true s =
      let ctx = app_extended_public_key_context s in
      let s' = app_set_connected_app_id ctx.app_token_value (app_set_ui_busy false s) in
      let answered = (send_response_extended_pubkey ctx.raw_public_key ctx.chain_code s').1 in
      app_set_current_command cmd_none (record answered { commands_ctx = cleared })
  ui_action_get_extended_pubkey false s =
      let s' = app_set_ui_busy false s in
      app_set_current_command cmd_none (res_deny (record s' { commands_ctx = cleared }))

  abbrev pub set_context : (ExtPubKey → ExtPubKey) → App H → App H
  set_context f s = set_ext_pub_key (f (app_extended_public_key_context s)) s

-- The confirmation, the path, the application's id where it is not 0, and the two answers.
abbrev pub account_screens : (app_access_token : ℕ) → ℕ
account_screens token =
    let path = next_screen (next_screen 0) in
    next_screen (next_screen (if not (token == 0) then next_screen path else path))

abbrev pub is_account_path : List ℕ → ℕ → Bool
is_account_path path len =
    bip32_path_validate path len (bip32_hardened 44) (bip32_hardened bip32_ergo_coin) account_ge3

abbrev pub exported : (token : ℕ) (key chain_code : List ℕ) → ExtPubKey → ExtPubKey
exported token key chain_code c = record c {
  app_token_value = token;
  raw_public_key = key;
  chain_code = chain_code;
}

module _ {H : Type 0} (d : Device H) where
  unfoldable pub ui_display_account :
      (app_access_token : ℕ) (bip32_path : List ℕ) (bip32_path_len : ℕ)
      → (raw_pub_key chain_code : List ℕ) → Function (Unit {0}) (App H)
  unfolding bip32_path_validate ui_display_screens reset_with
  ui_display_account token path len key chain_code = function do
    when (not (is_account_path path len)) (ret_with (res_error sw_bip32_bad_path))
    when (not (d.formats_path path len)) (ret_with (reset_with sw_bip32_formatting_failed))
    modify (set_context (exported token key chain_code))
    ret_with (λ s. (ui_display_screens (account_screens token) s).1)

  abbrev pub read_token : (has_access_token : Bool) → Buffer → Option (ℕ × Buffer)
  read_token true cdata = d.bufs.read_u32 cdata
  read_token false cdata = some (0, cdata)

  abbrev pub store_key : (key chain_code : List ℕ) → App H → App H
  store_key key chain_code =
      set_context (λ c. record c { raw_public_key = key; chain_code = chain_code })

  -- The part behind the parameters.
  unfoldable pub export_account :
      (access_token : ℕ) (bip32_path : List ℕ) (bip32_path_len : ℕ) → Function (Unit {0}) (App H)
  unfolding bip32_path_validate crypto_generate_public_key reset_with is_known_application
      send_response_extended_pubkey ui_display_account
  export_account token path len = function do
    when (not (is_account_path path len)) (ret_with (reset_with sw_bip32_bad_path))
    s ← read
    let (key, chain_code, code) =
        crypto_generate_public_key d.crypto path len
          (app_extended_public_key_context s).raw_public_key
    modify (store_key key chain_code)
    when (not (code == 0)) (ret_with (reset_with sw_internal_crypto_error))
    call (
        if is_known_application token s.connected_app_id
        then send_response_extended_pubkey key chain_code
        else ui_display_account token path len key chain_code)

  unfoldable pub handler_get_extended_public_key :
      Buffer → (has_access_token : Bool) → Function (Unit {0}) (App H)
  unfolding app_set_current_command reset_with export_account
  handler_get_extended_public_key cdata has_access_token = function do
    s ← read
    when s.is_ui_busy (ret_with res_ui_busy)
    modify (app_set_current_command cmd_get_extended_public_key)
    (len, b1) ← check_read_param reset_with (d.bufs.read_u8 cdata)
    (path, b2) ← check_read_param reset_with (d.bufs.read_bip32_path b1 len)
    (token, b3) ← check_read_param reset_with (read_token has_access_token b2)
    check_params_finished reset_with d.bufs b3
    call (export_account token path len)
