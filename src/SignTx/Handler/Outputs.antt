-- ===== src/SignTx/Handler/Outputs.antt =====
-- src/commands/signtx/stx_handler.c: the messages on outputs.
use ledger_app_ergo.Prelude.{ℕ, List, [], ◌==◌, not, if◌then◌else◌}
use ledger_app_ergo.Prelude.Flow.{Function, ◌>>=◌, ◌>>◌, ret, read, modify, when, call, function}
use ledger_app_ergo.Sdk.{Buffer}
use ledger_app_ergo.Sw.{sw_ok, sw_bip32_bad_path, sw_internal_crypto_error}
use ledger_app_ergo.Common.Bip32.{bip32_hardened, bip32_ergo_coin, address_ge5, bip32_path_validate}
use ledger_app_ergo.Helpers.Crypto.{crypto_generate_public_key}
use ledger_app_ergo.SignTx.Output.{Bip32Path, TreeInfo}
use ledger_app_ergo.SignTx.P2pk.{p2pk_of, shared_of, set_shared}
use ledger_app_ergo.SignTx.P2pk.Outputs.{
  stx_operation_p2pk_add_output, stx_operation_p2pk_add_output_tree_chunk,
  stx_operation_p2pk_add_output_tree_fee, stx_operation_p2pk_add_output_tree_change,
  stx_operation_p2pk_add_output_tokens, stx_operation_p2pk_add_output_registers,
}
use ledger_app_ergo.SignTx.P2pk.Confirm.{stx_operation_p2pk_should_show_output_confirm_screen}
use ledger_app_ergo.SignTx.P2pk.Screens.{ui_stx_operation_p2pk_show_output_confirm_screen}
use ledger_app_ergo.SignTx.Handler.{
  handler_err, check_approved, check_read_param, check_params_finished, check_call_result_sw_ok,
  read_bip32_path, check_path,
}
use ledger_app_ergo.App.{App, Device, res_ok}

module _ {H : Type 0} (d : Device H) where
  unfoldable pub show_output_screen_if_needed : Function (Unit {0}) (App H)
  unfolding handler_err stx_operation_p2pk_should_show_output_confirm_screen
      ui_stx_operation_p2pk_show_output_confirm_screen
  show_output_screen_if_needed = function do
    s ← read
    when (stx_operation_p2pk_should_show_output_confirm_screen d (p2pk_of d s))
        do check_call_result_sw_ok d (ui_stx_operation_p2pk_show_output_confirm_screen d); ret tt
    modify res_ok

  unfoldable pub handle_output_init : Buffer → Function (Unit {0}) (App H)
  unfolding handler_err stx_operation_p2pk_add_output
  handle_output_init cdata = function do
    check_approved d
    (value, b1) ← check_read_param d (d.bufs.read_u64 cdata)
    (ergo_tree_size, b2) ← check_read_param d (d.bufs.read_u32 b1)
    (creation_height, b3) ← check_read_param d (d.bufs.read_u32 b2)
    (tokens_count, b4) ← check_read_param d (d.bufs.read_u8 b3)
    (registers_size, b5) ← check_read_param d (d.bufs.read_u32 b4)
    check_params_finished d b5
    check_call_result_sw_ok d (
        stx_operation_p2pk_add_output d value ergo_tree_size creation_height tokens_count
          registers_size)
    modify res_ok

  -- A handler that checks the state, makes one call and shows the output where it has to.
  abbrev call_and_show : Function ℕ (App H) → Function (Unit {0}) (App H)
  call_and_show f =
      function do check_approved d; check_call_result_sw_ok d f; call show_output_screen_if_needed

  unfoldable pub handle_output_tree_chunk : Buffer → Function (Unit {0}) (App H)
  unfolding handler_err show_output_screen_if_needed stx_operation_p2pk_add_output_tree_chunk
  handle_output_tree_chunk cdata = call_and_show (stx_operation_p2pk_add_output_tree_chunk d cdata)

  unfoldable pub handle_output_tree_fee : Buffer → Function (Unit {0}) (App H)
  unfolding handler_err show_output_screen_if_needed stx_operation_p2pk_add_output_tree_fee
  handle_output_tree_fee cdata = function do
    check_approved d
    check_params_finished d cdata
    check_call_result_sw_ok d (stx_operation_p2pk_add_output_tree_fee d)
    call show_output_screen_if_needed

  -- The result: the key, or the status word of the failure.
  unfoldable pub bip32_public_key : Bip32Path → ℕ × List ℕ
  unfolding bip32_path_validate crypto_generate_public_key
  bip32_public_key path =
      let (key, _, code) = crypto_generate_public_key d.crypto path.path path.len [] in
      if not (
        bip32_path_validate path.path path.len (bip32_hardened 44) (bip32_hardened bip32_ergo_coin)
          address_ge5)
      then (sw_bip32_bad_path, [])
      else (if not (code == 0) then (sw_internal_crypto_error, []) else (sw_ok, key))

  -- The path is read into the union of the output's information.
  abbrev pub store_output_path : Bip32Path → App H → App H
  store_output_path path s =
      let shared = shared_of d s in
      set_shared d
        (record shared {
          env = record shared.env {
            output = record shared.env.output { info = TreeInfo.bip32_path path };
          };
        })
        s

  unfoldable pub handle_output_tree_change : Buffer → Function (Unit {0}) (App H)
  unfolding handler_err read_bip32_path bip32_public_key show_output_screen_if_needed
      stx_operation_p2pk_add_output_tree_change
  handle_output_tree_change cdata = function do
    check_approved d
    (path, _) ← check_path d (read_bip32_path d cdata)
    modify (store_output_path path)
    let (code, public_key) = bip32_public_key path
    when (not (code == sw_ok)) (handler_err d code)
    check_call_result_sw_ok d (stx_operation_p2pk_add_output_tree_change d path public_key)
    call show_output_screen_if_needed

  unfoldable pub handle_output_tokens : Buffer → Function (Unit {0}) (App H)
  unfolding handler_err show_output_screen_if_needed stx_operation_p2pk_add_output_tokens
  handle_output_tokens cdata = call_and_show (stx_operation_p2pk_add_output_tokens d cdata)

  unfoldable pub handle_output_registers : Buffer → Function (Unit {0}) (App H)
  unfolding handler_err show_output_screen_if_needed stx_operation_p2pk_add_output_registers
  handle_output_registers cdata = call_and_show (stx_operation_p2pk_add_output_registers d cdata)
