-- ===== src/App.antt =====
-- src/context.h and context.c, and the replies of src/helpers/response.h: the application's state.
use ledger_app_ergo.Prelude.{ℕ, Option, Bool, false, List, ◌∷◌, take, drop, ◌++◌, replicate}
use ledger_app_ergo.Sdk.{BufferSdk, HashSdk, WriteSdk}
use ledger_app_ergo.Sdk.Crypto.{CryptoSdk}
use ledger_app_ergo.Sw.{sw_ok, sw_busy, sw_deny}
use ledger_app_ergo.Ergo.Full.{Layout}
use ledger_app_ergo.SignTx.Output.{TreeInfo, Bip32Path}
use ledger_app_ergo.AttestInput.Context.{AttestInput, zero_attest_input}
use ledger_app_ergo.ExtPubKey.Context.{ExtPubKey, zero_ext_pub_key}
use ledger_app_ergo.DeriveAddress.Context.{DeriveAddress, zero_derive_address}
use ledger_app_ergo.SignTx.Context.{P2pkEnv, SignTx, zero_sign_tx}

pub data Command : Type 0 where
  cmd_none cmd_get_app_version cmd_get_app_name cmd_get_extended_public_key : Command
  cmd_derive_address cmd_attest_input_box cmd_sign_transaction : Command

-- What is sent to the computer: a status word alone, or data with the status word SW_OK.
pub data Reply : Type 0 where
  send_sw : ℕ → Reply
  send_data : List ℕ → Reply

-- The union `commands_ctx`: all bytes zero, or the member that was stored last.
pub data CommandsCtx (H : Type 0) : Type 0 where
  cleared : CommandsCtx H
  attest_input : AttestInput H → CommandsCtx H
  sign_tx : SignTx H → CommandsCtx H
  derive_address : DeriveAddress → CommandsCtx H
  ext_pub_key : ExtPubKey → CommandsCtx H

-- `G_app_context`, the stored setting `N_storage.blind_signing_enabled`, the two screen counters of
-- stx_op_p2pk.c, the bytes that the random generator gives next, and the replies sent so far, the
-- newest first.
pub record App (H : Type 0) : Type 0 where
  pub connected_app_id : ℕ
  pub session_key : List ℕ
  pub current_command : Command
  pub is_ui_busy : Bool
  pub commands_ctx : CommandsCtx H
  pub blind_signing_enabled : Bool
  pub signtx_screen : ℕ
  pub signtx_outputs_screen : ℕ
  pub random : List ℕ
  pub sent : List Reply

-- What the application is built on: the SDK's functions, the compiler's layout of unions and words, a
-- hash context of zero bytes, whether a path of the given length is formatted for the screen, the size
-- of the buffer for replies, the length of the text that Base58 makes of an address, or none, and the
-- name and the version that the build files give. `amounts_of_ui` and `ui_of_amounts` read one member
-- of the union in AttestInput where the other was stored last.
pub record Device (H : Type 0) : Type 0 where
  pub bufs : BufferSdk
  pub hs : HashSdk H
  pub crypto : CryptoSdk
  pub layout : Layout (P2pkEnv H)
  pub hash_of : TreeInfo H → H
  pub path_of : TreeInfo H → Bip32Path
  pub word_bytes : ℕ → List ℕ
  pub zero_hash : H
  pub formats_path : List ℕ → ℕ → Bool
  pub writes : WriteSdk
  pub io_apdu_buffer_size : ℕ
  pub base58_encode : List ℕ → Option ℕ
  pub app_name : List ℕ
  pub major_version : ℕ
  pub minor_version : ℕ
  pub patch_version : ℕ
  pub is_debug_build : Bool
  pub amounts_of_ui : ℕ → List ℕ
  pub ui_of_amounts : List ℕ → ℕ

module _ {H : Type 0} where
  unfoldable pub app_set_current_command : Command → App H → App H
  app_set_current_command command s = record s {
    commands_ctx = cleared;
    is_ui_busy = false;
    current_command = command;
  }

  -- The context of zero bytes is given with zero fields that are no part of `app_ctx_t` kept.
  unfoldable pub app_init : App H → App H
  unfolding app_set_current_command
  app_init s =
      let key = take 16 (s.random ++ replicate 16 0) in
      app_set_current_command cmd_none
        (record s { connected_app_id = 0; session_key = key; random = drop 16 s.random })

  abbrev pub app_set_ui_busy : Bool → App H → App H
  app_set_ui_busy is_busy s = record s { is_ui_busy = is_busy }

  abbrev pub app_set_connected_app_id : ℕ → App H → App H
  app_set_connected_app_id id s = record s { connected_app_id = id }

  abbrev pub io_send_sw : ℕ → App H → App H
  io_send_sw sw s = record s { sent = send_sw sw ∷ s.sent }

  abbrev pub res_ok : App H → App H
  res_ok s = io_send_sw sw_ok s

  abbrev pub res_ok_data : List ℕ → App H → App H
  res_ok_data bytes s = record s { sent = send_data bytes ∷ s.sent }

  abbrev pub res_ui_busy : App H → App H
  res_ui_busy s = io_send_sw sw_busy s

  abbrev pub res_deny : App H → App H
  res_deny s = io_send_sw sw_deny s

  abbrev pub res_error : ℕ → App H → App H
  res_error code s = io_send_sw code s

-- A member is read only under its own command, and a new command clears the union; a read of a member
-- where another was stored stands in an error path alone, which clears the union. It is given the
-- context of zero bytes.
module _ {H : Type 0} (d : Device H) where
  abbrev pub sign_tx_view : CommandsCtx H → SignTx H
  sign_tx_view (sign_tx c) = c
  sign_tx_view _ = zero_sign_tx d.zero_hash

  abbrev pub attest_input_view : CommandsCtx H → AttestInput H
  attest_input_view (attest_input c) = c
  attest_input_view _ = zero_attest_input d.zero_hash

  abbrev pub app_sign_transaction_context : App H → SignTx H
  app_sign_transaction_context s = sign_tx_view s.commands_ctx

  abbrev pub set_sign_tx : SignTx H → App H → App H
  set_sign_tx c s = record s { commands_ctx = sign_tx c }

  abbrev pub app_attest_input_context : App H → AttestInput H
  app_attest_input_context s = attest_input_view s.commands_ctx

  abbrev pub set_attest_input : AttestInput H → App H → App H
  set_attest_input c s = record s { commands_ctx = attest_input c }

module _ {H : Type 0} where
  abbrev ext_pub_key_view : CommandsCtx H → ExtPubKey
  ext_pub_key_view (ext_pub_key c) = c
  ext_pub_key_view _ = zero_ext_pub_key

  abbrev derive_address_view : CommandsCtx H → DeriveAddress
  derive_address_view (derive_address c) = c
  derive_address_view _ = zero_derive_address

  abbrev pub app_extended_public_key_context : App H → ExtPubKey
  app_extended_public_key_context s = ext_pub_key_view s.commands_ctx

  abbrev pub app_derive_address_context : App H → DeriveAddress
  app_derive_address_context s = derive_address_view s.commands_ctx

  abbrev pub set_ext_pub_key : ExtPubKey → App H → App H
  set_ext_pub_key c s = record s { commands_ctx = ext_pub_key c }

  abbrev pub set_derive_address : DeriveAddress → App H → App H
  set_derive_address c s = record s { commands_ctx = derive_address c }
