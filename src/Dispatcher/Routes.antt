-- ===== src/Dispatcher/Routes.antt =====
-- A message reaches one handler or is refused, so what holds of these ends holds of the dispatcher.
use ledger_app_ergo.Prelude.{ℕ, Bool, ◌∷◌, ◌==◌, not, ◌||◌, ltb}
use ledger_app_ergo.Prelude.Flow.{Function, call}
use ledger_app_ergo.Prelude.Ends.{Ends-when}
use ledger_app_ergo.Sdk.{Buffer}
use ledger_app_ergo.Sw.{sw_wrong_p1p2, sw_ins_not_supported, sw_cla_not_supported}
use ledger_app_ergo.Common.Buffer.{buffer_init}
use ledger_app_ergo.SignTx.Handler.Dispatch.{SignTxSubcommand, handler_sign_transaction}
use ledger_app_ergo.AttestInput.Handler.{AttestInputSubcommand}
use ledger_app_ergo.AttestInput.Messages.{handler_attest_input}
use ledger_app_ergo.ExtPubKey.Handler.{handler_get_extended_public_key}
use ledger_app_ergo.DeriveAddress.Handler.{handler_derive_address}
use ledger_app_ergo.Dispatcher.{
  ApduCommand, cla_byte, command_of, attest_input_subcommand_of, sign_tx_subcommand_of, version,
  handler_get_version, handler_get_app_name, answer_with, wrong_p1p2_or, run_command,
  apdu_dispatcher,
}
use ledger_app_ergo.App.{
  App, Device, Command, Reply, send_sw, send_data, cmd_none, cmd_get_app_version, cmd_get_app_name,
  cmd_get_extended_public_key, cmd_derive_address, cmd_attest_input_box, cmd_sign_transaction,
}

module _ {H : Type 0} (d : Device H) (s : App H) (F : App H → Type 0) where
  -- The ends of the dispatcher: a reply of its own, or one of the four handlers.
  pub record Routes : Type 0 where
    pub answers : (reply : Reply) → F (record s { sent = reply ∷ s.sent })
    pub exports :
        (b : Buffer) (has_token : Bool) → F (handler_get_extended_public_key d b has_token s).1
    pub derives :
        (b : Buffer) (display has_token : Bool)
        → F (handler_derive_address d b display has_token s).1
    pub attests :
        (b : Buffer) (subcommand : AttestInputSubcommand) (p2 : ℕ)
        → F (handler_attest_input d b subcommand p2 s).1
    pub signs :
        (b : Buffer) (subcommand : SignTxSubcommand) (p2 : ℕ)
        → F (handler_sign_transaction d b subcommand p2 s).1

  module _ (routes : Routes) where
    abbrev Ends : (Unit {0}) × App H → Type 0
    Ends r = F r.1

    -- The check of the two parameters before a handler.
    checked-Ends :
        (is_wrong : Bool) (f : Function (Unit {0}) (App H))
        → Ends (f s)
        → Ends (wrong_p1p2_or d is_wrong f s)
    checked-Ends is_wrong f rest =
        Ends-when Ends is_wrong _ s (λ _. call f) (λ _. routes.answers (send_sw sw_wrong_p1p2))
          (λ _. rest)

    run_command-Ends :
        (command : Command) (p1 p2 : ℕ) (b : Buffer) → Ends (run_command d command p1 p2 b s)
    unfolding run_command handler_get_version handler_get_app_name
    run_command-Ends cmd_get_app_version p1 p2 b =
        checked-Ends (not (p1 == 0) || not (p2 == 0)) (answer_with d (handler_get_version d))
          (routes.answers (send_data (version d)))
    run_command-Ends cmd_get_app_name p1 p2 b =
        checked-Ends (not (p1 == 0) || not (p2 == 0)) (answer_with d (handler_get_app_name d))
          (routes.answers (send_data d.app_name))
    run_command-Ends cmd_get_extended_public_key p1 p2 b =
        checked-Ends ((p1 == 0) || ltb 2 p1 || ltb 0 p2)
          (handler_get_extended_public_key d b (p1 == 2)) (routes.exports b (p1 == 2))
    run_command-Ends cmd_derive_address p1 p2 b =
        checked-Ends ((p1 == 0) || ltb 2 p1 || (p2 == 0) || ltb 2 p2)
          (handler_derive_address d b (p1 == 2) (p2 == 2)) (routes.derives b (p1 == 2) (p2 == 2))
    run_command-Ends cmd_attest_input_box p1 p2 b =
        checked-Ends ((p1 == 0) || (p2 == 0))
          (handler_attest_input d b (attest_input_subcommand_of p1) p2)
          (routes.attests b (attest_input_subcommand_of p1) p2)
    run_command-Ends cmd_sign_transaction p1 p2 b =
        checked-Ends ((p1 == 0) || (p2 == 0))
          (handler_sign_transaction d b (sign_tx_subcommand_of p1) p2)
          (routes.signs b (sign_tx_subcommand_of p1) p2)
    run_command-Ends cmd_none p1 p2 b = routes.answers (send_sw sw_ins_not_supported)

    pub apdu_dispatcher-Ends : (cmd : ApduCommand) → F (apdu_dispatcher d cmd s).1
    unfolding apdu_dispatcher
    apdu_dispatcher-Ends cmd =
        Ends-when Ends (not (cmd.cla == cla_byte)) _ s _
          (λ _. routes.answers (send_sw sw_cla_not_supported))
          (λ _. run_command-Ends (command_of cmd.ins) cmd.p1 cmd.p2 (buffer_init cmd.bytes cmd.lc))
