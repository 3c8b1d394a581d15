-- ===== src/DeriveAddress/Handler.antt =====
-- src/commands/deriveaddress/da_handler.c and da_response.c, and the screen of da_ui_bagl.c without its
-- texts.
pub mod Ends
pub mod Answers
pub mod Derives
use ledger_app_ergo.Prelude.{
  ℕ, Bool, true, false, Option, none, some, List, replicate, leb, ◌==◌, not, ◌&&◌, if◌then◌else◌,
}
use ledger_app_ergo.Prelude.Flow.{
  Body, Function, ◌>>=◌, ◌>>◌, pure, read, modify, when, call, function,
}
use ledger_app_ergo.Sdk.{Buffer}
use ledger_app_ergo.Sw.{
  sw_bip32_bad_path, sw_bip32_formatting_failed, sw_internal_crypto_error,
  sw_address_generation_failed, sw_address_formatting_failed,
}
use ledger_app_ergo.Common.Bip32.{bip32_hardened, bip32_ergo_coin, address_ge5, bip32_path_validate}
use ledger_app_ergo.Common.RwBuffer.{rw_buffer_new_local_empty, rw_buffer_write_bytes}
use ledger_app_ergo.Common.RwBuffer.Contents.{contents}
use ledger_app_ergo.Helpers.Crypto.{crypto_generate_public_key, public_key_len}
use ledger_app_ergo.Helpers.Session.{is_known_application}
use ledger_app_ergo.Helpers.CmdMacros.{
  Step, ret_with, reset_with, check_read_param, check_params_finished, check_write_param,
}
use ledger_app_ergo.Ergo.Address.{p2pk_address_len, ergo_address_from_pubkey}
use ledger_app_ergo.SignTx.Ui.{next_screen, ui_display_screens}
use ledger_app_ergo.DeriveAddress.Context.{DeriveAddress}
use ledger_app_ergo.App.{
  App, Device, cmd_none, cmd_derive_address, app_set_current_command, app_set_ui_busy,
  app_set_connected_app_id, app_derive_address_context, set_derive_address, res_ok, res_ok_data,
  res_ui_busy, res_deny, res_error,
}

abbrev pub p2pk_address_string_max_len : ℕ
p2pk_address_string_max_len = 55

-- The confirmation, the path, the address where it is shown, the application's id where it is not 0,
-- and the two answers.
abbrev pub address_screens : (send : Bool) (app_access_token : ℕ) → ℕ
address_screens send token =
    let path = next_screen (next_screen 0) in
    let address = if not send then next_screen path else path in
    next_screen (next_screen (if not (token == 0) then next_screen address else address))

abbrev pub is_address_path : List ℕ → ℕ → Bool
is_address_path path len =
    bip32_path_validate path len (bip32_hardened 44) (bip32_hardened bip32_ergo_coin) address_ge5

-- `result == -1 || result >= P2PK_ADDRESS_STRING_MAX_LEN`
abbrev pub is_bad_text : Option ℕ → Bool
is_bad_text none = true
is_bad_text (some length) = leb p2pk_address_string_max_len length

module _ {H : Type 0} where
  -- `return send_response_address(...);`
  unfoldable pub send_response_address : (address : List ℕ) → Function (Unit {0}) (App H)
  unfolding rw_buffer_write_bytes reset_with app_set_current_command
  send_response_address address = function do
    response ← check_write_param (
        rw_buffer_write_bytes (rw_buffer_new_local_empty p2pk_address_len) address p2pk_address_len)
    modify (app_set_current_command cmd_none)
    ret_with (res_ok_data (contents response))

  unfoldable pub ui_action_derive_address : (is_approved : Bool) → App H → App H
  unfolding send_response_address app_set_current_command
  ui_action_derive_address true s =
      let ctx = app_derive_address_context s in
      let s' = app_set_connected_app_id ctx.app_token_value (app_set_ui_busy false s) in
      if ctx.send
      then (send_response_address ctx.raw_address s').1
      else res_ok (app_set_current_command cmd_none s')
  ui_action_derive_address false s =
      res_deny (app_set_current_command cmd_none (app_set_ui_busy false s))

  abbrev pub set_context : (DeriveAddress → DeriveAddress) → App H → App H
  set_context f s = set_derive_address (f (app_derive_address_context s)) s

module _ {H : Type 0} (d : Device H) where
  unfoldable pub ui_display_address :
      (send : Bool) (app_access_token : ℕ) (bip32_path : List ℕ) (bip32_path_len : ℕ)
      → (raw_address : List ℕ) → Function (Unit {0}) (App H)
  unfolding bip32_path_validate ui_display_screens reset_with
  ui_display_address send token path len address = function do
    when (not (is_address_path path len)) (ret_with (reset_with sw_bip32_bad_path))
    modify (set_context (λ c. record c { app_token_value = token; send = send }))
    when (not (d.formats_path path len)) (ret_with (reset_with sw_bip32_formatting_failed))
    when (not send && is_bad_text (d.base58_encode address))
        (ret_with (reset_with sw_address_formatting_failed))
    modify (set_context (λ c. record c { raw_address = address }))
    ret_with (λ s. (ui_display_screens (address_screens send token) s).1)

  abbrev pub read_token : (has_access_token : Bool) → Buffer → Option (ℕ × Buffer)
  read_token true cdata = d.bufs.read_u32 cdata
  read_token false cdata = some (0, cdata)

  -- The part behind the parameters. What the local array of the key holds before the call is never
  -- read. The error of the address keeps the command.
  unfoldable pub derive :
      (display : Bool) (access_token network_type : ℕ) (bip32_path : List ℕ) (bip32_path_len : ℕ)
      → Function (Unit {0}) (App H)
  unfolding bip32_path_validate crypto_generate_public_key reset_with ergo_address_from_pubkey
      is_known_application send_response_address ui_display_address
  derive display token network path len = function do
    when (not (is_address_path path len)) (ret_with (reset_with sw_bip32_bad_path))
    let (key, _, code) = crypto_generate_public_key d.crypto path len (replicate public_key_len 0)
    when (not (code == 0)) (ret_with (reset_with sw_internal_crypto_error))
    s ← read
    let (generated, address) =
        ergo_address_from_pubkey d.hs network key (app_derive_address_context s).raw_address
    modify (set_context (λ c. record c { raw_address = address }))
    when (not generated) (ret_with (res_error sw_address_generation_failed))
    call (
        if not display && is_known_application token s.connected_app_id
        then send_response_address address
        else ui_display_address (not display) token path len address)

  unfoldable pub handler_derive_address :
      Buffer → (display has_access_token : Bool) → Function (Unit {0}) (App H)
  unfolding app_set_current_command reset_with derive
  handler_derive_address cdata display has_access_token = function do
    s ← read
    when s.is_ui_busy (ret_with res_ui_busy)
    modify (app_set_current_command cmd_derive_address)
    (network_type, b1) ← check_read_param reset_with (d.bufs.read_u8 cdata)
    (len, b2) ← check_read_param reset_with (d.bufs.read_u8 b1)
    (path, b3) ← check_read_param reset_with (d.bufs.read_bip32_path b2 len)
    (token, b4) ← check_read_param reset_with (read_token has_access_token b3)
    check_params_finished reset_with d.bufs b4
    call (derive display token network_type path len)
