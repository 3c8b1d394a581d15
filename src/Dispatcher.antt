-- ===== src/Dispatcher.antt =====
-- src/apdu_dispatcher.c, and src/commands/app_name.c and app_version.c: which command a message of the
-- computer goes to.
pub mod Routes
pub mod Answers
pub mod Machine
use ledger_app_ergo.Prelude.{
  ℕ, Bool, true, false, List, [], ◌∷◌, length, ltb, leb, ◌==◌, not, ◌||◌, if◌then◌else◌,
}
use ledger_app_ergo.Prelude.Flow.{Body, Function, ◌>>=◌, ◌>>◌, when, call, function}
use ledger_app_ergo.Sdk.{Buffer}
use ledger_app_ergo.Sw.{sw_wrong_p1p2, sw_ins_not_supported, sw_cla_not_supported}
use ledger_app_ergo.Common.Buffer.{buffer_init}
use ledger_app_ergo.Helpers.CmdMacros.{Step, ret_with}
use ledger_app_ergo.ExtPubKey.Handler.{handler_get_extended_public_key}
use ledger_app_ergo.DeriveAddress.Handler.{handler_derive_address}
use ledger_app_ergo.AttestInput.Handler.{AttestInputSubcommand}
use ledger_app_ergo.AttestInput.Messages.{handler_attest_input}
use ledger_app_ergo.SignTx.Handler.Dispatch.{SignTxSubcommand, handler_sign_transaction}
use ledger_app_ergo.App.{
  App, Device, Command, cmd_none, cmd_get_app_version, cmd_get_app_name,
  cmd_get_extended_public_key, cmd_derive_address, cmd_attest_input_box, cmd_sign_transaction,
  io_send_sw, res_ok_data,
}

-- `command_t` of the SDK's parser: the class, the instruction, the two parameters and the data.
pub record ApduCommand : Type 0 where
  pub cla : ℕ
  pub ins : ℕ
  pub p1 : ℕ
  pub p2 : ℕ
  pub lc : ℕ
  pub bytes : List ℕ

abbrev pub cla_byte : ℕ
cla_byte = 0xe0

-- The enumeration `command_e`; CMD_NONE stands for every other value, since the switch treats both
-- alike.
abbrev pub command_of : ℕ → Command
command_of ins =
    if ins == 0x01
    then cmd_get_app_version
    else (if ins == 0x02
        then cmd_get_app_name
        else (if ins == 0x10
            then cmd_get_extended_public_key
            else (if ins == 0x11
                then cmd_derive_address
                else (if ins == 0x20
                    then cmd_attest_input_box
                    else (if ins == 0x21 then cmd_sign_transaction else cmd_none)))))

-- The enumeration `attest_input_subcommand_e`.
abbrev pub attest_input_subcommand_of : ℕ → AttestInputSubcommand
attest_input_subcommand_of p1 =
    if p1 == 0x01
    then AttestInputSubcommand.init
    else (if p1 == 0x02
        then AttestInputSubcommand.tree_chunk
        else (if p1 == 0x03
            then AttestInputSubcommand.tokens
            else (if p1 == 0x04
                then AttestInputSubcommand.registers
                else (if p1 == 0x05
                    then AttestInputSubcommand.get_response_frame
                    else AttestInputSubcommand.unknown))))

-- The enumeration of stx_handler.h.
abbrev pub sign_tx_subcommand_of : ℕ → SignTxSubcommand
sign_tx_subcommand_of p1 =
    if p1 == 0x01
    then SignTxSubcommand.sign_pk
    else (if p1 == 0x10
        then SignTxSubcommand.start_tx
        else (if p1 == 0x11
            then SignTxSubcommand.token_ids
            else (if p1 == 0x12
                then SignTxSubcommand.input_frame
                else (if p1 == 0x13
                    then SignTxSubcommand.input_context_extension
                    else (if p1 == 0x14
                        then SignTxSubcommand.data_input
                        else (if p1 == 0x15
                            then SignTxSubcommand.output
                            else (if p1 == 0x16
                                then SignTxSubcommand.output_tree_chunk
                                else (if p1 == 0x17
                                    then SignTxSubcommand.output_miners_fee_tree
                                    else (if p1 == 0x18
                                        then SignTxSubcommand.output_change_tree
                                        else (if p1 == 0x19
                                            then SignTxSubcommand.output_tokens
                                            else (if p1 == 0x1a
                                                then SignTxSubcommand.output_registers
                                                else (if p1 == 0x20
                                                    then SignTxSubcommand.confirm
                                                    else SignTxSubcommand.unknown))))))))))))

module _ {H : Type 0} (d : Device H) where
  -- MAJOR, MINOR, PATCH and whether this is a DEBUG_BUILD.
  abbrev pub version : List ℕ
  version =
      d.major_version ∷ d.minor_version ∷ d.patch_version ∷ (if d.is_debug_build then 1 else 0) ∷ []

  unfoldable pub handler_get_version : App H → App H
  handler_get_version = res_ok_data version

  unfoldable pub handler_get_app_name : App H → App H
  handler_get_app_name = res_ok_data d.app_name

  abbrev pub wrong_p1p2_or : Bool → Function (Unit {0}) (App H) → Function (Unit {0}) (App H)
  wrong_p1p2_or is_wrong f = function do when is_wrong (ret_with (io_send_sw sw_wrong_p1p2)); call f

  abbrev pub answer_with : (App H → App H) → Function (Unit {0}) (App H)
  answer_with f s = (tt, f s)

  -- The `switch` over the instruction.
  unfoldable pub run_command : Command → (p1 p2 : ℕ) → Buffer → Function (Unit {0}) (App H)
  unfolding handler_get_version handler_get_app_name handler_get_extended_public_key
      handler_derive_address handler_attest_input handler_sign_transaction
  run_command cmd_get_app_version p1 p2 buf =
      wrong_p1p2_or (not (p1 == 0) || not (p2 == 0)) (answer_with handler_get_version)
  run_command cmd_get_app_name p1 p2 buf =
      wrong_p1p2_or (not (p1 == 0) || not (p2 == 0)) (answer_with handler_get_app_name)
  run_command cmd_get_extended_public_key p1 p2 buf =
      wrong_p1p2_or ((p1 == 0) || ltb 2 p1 || ltb 0 p2)
        (handler_get_extended_public_key d buf (p1 == 2))
  run_command cmd_derive_address p1 p2 buf =
      wrong_p1p2_or ((p1 == 0) || ltb 2 p1 || (p2 == 0) || ltb 2 p2)
        (handler_derive_address d buf (p1 == 2) (p2 == 2))
  run_command cmd_attest_input_box p1 p2 buf =
      wrong_p1p2_or ((p1 == 0) || (p2 == 0))
        (handler_attest_input d buf (attest_input_subcommand_of p1) p2)
  run_command cmd_sign_transaction p1 p2 buf =
      wrong_p1p2_or ((p1 == 0) || (p2 == 0))
        (handler_sign_transaction d buf (sign_tx_subcommand_of p1) p2)
  run_command cmd_none p1 p2 buf = answer_with (io_send_sw sw_ins_not_supported)

  unfoldable pub apdu_dispatcher : ApduCommand → Function (Unit {0}) (App H)
  unfolding run_command
  apdu_dispatcher cmd = function do
    when (not (cmd.cla == cla_byte)) (ret_with (io_send_sw sw_cla_not_supported))
    call (run_command (command_of cmd.ins) cmd.p1 cmd.p2 (buffer_init cmd.bytes cmd.lc))
