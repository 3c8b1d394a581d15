-- ===== src/AttestInput/Messages/Guard.antt =====
-- How every message to an attestation that is under way ends.
use ledger_app_ergo.Prelude.{true, some, ap, ◌∙◌, ℕ, ◌≡◌, ◌≢◌, refl, false, ◌==◌, not, arith, none}
use ledger_app_ergo.Prelude.Flow.{function}
use ledger_app_ergo.Prelude.Ends.{Ends-when}
use ledger_app_ergo.Sdk.{Buffer}
use ledger_app_ergo.Sw.{
  sw_ok, sw_bad_state, sw_bad_session_id, sw_wrong_subcommand, sw_not_enough_data, sw_too_much_data,
}
use ledger_app_ergo.Helpers.CmdMacros.{reset_with}
use ledger_app_ergo.Helpers.CmdMacros.Answers.{Ends-read}
use ledger_app_ergo.Ergo.Box.Trees.{ergo_tx_serializer_box_add_tree}
use ledger_app_ergo.Ergo.Box.Tokens.{ergo_tx_serializer_box_add_tokens}
use ledger_app_ergo.Ergo.Box.Registers.{ergo_tx_serializer_box_add_registers}
use ledger_app_ergo.SignTx.Handler.Reacts.{Failed}
use ledger_app_ergo.AttestInput.Context.{AttestInput, finished}
use ledger_app_ergo.AttestInput.Response.{send_response_attested_input_frame}
use ledger_app_ergo.AttestInput.Response.Sends.{Sends, sent, reset, send_frame-Sends}
use ledger_app_ergo.AttestInput.Handler.{
  AttestInputSubcommand, init, tree_chunk, tokens, registers, get_response_frame, unknown,
  is_attest_input_box, is_finished, handler_err,
}
use ledger_app_ergo.AttestInput.Messages.{
  handle_tree_chunk, handle_tokens, handle_registers_chunk, handle_get_frame, handle_subcommand,
  checked_subcommand, run_subcommand, handler_attest_input,
}
use ledger_app_ergo.AttestInput.Messages.Reacts.{
  IsIn, Reacts, failed, framed, err-Failed, only_finished, Reacts-state, chunk-Reacts,
}
use ledger_app_ergo.App.{
  App, Device, Command, cmd_attest_input_box, attest_input_view, attest_input,
  app_set_current_command, app_attest_input_context,
}

is_command :
    (command : Command) → is_attest_input_box command ≡ true → command ≡ cmd_attest_input_box
is_command command h = ground arith

module _ {H : Type 0} (d : Device H) (b : Buffer) (session : ℕ) (s : App H) where
  abbrev Ending : (Unit {0}) × App H → Type 0
  Ending r = Reacts d b session s r.1

  abbrev with_ctx : AttestInput H → App H
  with_ctx c = record s { commands_ctx = attest_input c }

  reset-Failed :
      (code : ℕ) (s1 : App H) → code ≢ sw_ok → s1.sent ≡ s.sent → Failed s (reset_with code s1)
  unfolding reset_with app_set_current_command
  reset-Failed code s1 h same = record {
    code = code;
    is_error = h;
    answer = rw same;
    command = refl;
    context = refl;
    idle = refl;
  }

  -- The facts that the two checks in front of every message leave.
  module _ (command : s.current_command ≡ cmd_attest_input_box)
      (agrees : (c : AttestInput H) → s.commands_ctx ≡ attest_input c → session ≡ c.session) where
    frame-Reacts :
        (c : AttestInput H) (s' : App H) (index : ℕ) (rest : Buffer)
        → IsIn finished s c
        → d.bufs.read_u8 b ≡ some (index, rest)
        → d.bufs.can_read rest 1 ≡ false
        → s' ≡ (send_response_attested_input_frame d c s.session_key index (with_ctx c)).1
        → Sends (with_ctx c) s'
        → Reacts d b session s s'
    frame-Reacts c s' index rest is_in index_read whole is_frame (sent bytes e) =
        framed
          (record {
            before = c;
            after = c;
            is_in = is_in;
            is_in' = (ap (λ (x : App H). x.commands_ctx) e, is_in.1);
            of_command = command;
            of_session = agrees c is_in.0;
            same_session = refl;
            same_command = ap (λ (x : App H). x.current_command) e;
          })
          index rest index_read whole is_frame bytes (ap (λ (x : App H). x.sent) e)
    frame-Reacts c s' index rest is_in index_read whole is_frame (reset code h e) =
        rw e (failed (reset-Failed code (with_ctx c) h refl))

    handle_get_frame-Reacts : Reacts d b session s (handle_get_frame d s.session_key b s).1
    unfolding handle_get_frame
    handle_get_frame-Reacts =
        Reacts-state d b session s command agrees is_finished finished s.commands_ctx _ refl
          only_finished
          (λ c there state.
            let s1 = with_ctx c in
            let fails : (code : ℕ) → code ≢ sw_ok → Reacts d b session s (handler_err d code s1) =
              λ code h. failed (err-Failed d s code s1 h refl) in
            Ends-read Ending (handler_err d) (d.bufs.read_u8 b) s1 _
              (fails sw_not_enough_data (λ e. ground arith))
              (λ i e.
                Ends-when Ending (d.bufs.can_read i.1 1) _ s1 _
                  (λ _. fails sw_too_much_data (λ e. ground arith))
                  (λ whole.
                    frame-Reacts c _ i.0 i.1 (there, state) e whole refl
                      (send_frame-Sends d s1 c s.session_key i.0))))

    handle_subcommand-Reacts :
        (subcommand : AttestInputSubcommand)
        → Reacts d b session s (handle_subcommand d subcommand b s).1
    unfolding handle_subcommand handle_tree_chunk handle_tokens handle_registers_chunk
    handle_subcommand-Reacts tree_chunk =
        chunk-Reacts d b session s command agrees (ergo_tx_serializer_box_add_tree d.hs d.bufs b)
    handle_subcommand-Reacts tokens =
        chunk-Reacts d b session s command agrees
          (ergo_tx_serializer_box_add_tokens d.bufs d.hs b none)
    handle_subcommand-Reacts registers =
        chunk-Reacts d b session s command agrees
          (ergo_tx_serializer_box_add_registers d.hs d.bufs b)
    handle_subcommand-Reacts get_response_frame = handle_get_frame-Reacts
    handle_subcommand-Reacts init =
        failed (err-Failed d s sw_wrong_subcommand s (λ e. ground arith) refl)
    handle_subcommand-Reacts unknown =
        failed (err-Failed d s sw_wrong_subcommand s (λ e. ground arith) refl)

  checked-Reacts :
      (subcommand : AttestInputSubcommand)
      → Reacts d b session s (function (checked_subcommand d subcommand b session) s).1
  checked-Reacts subcommand =
      Ends-when Ending (not (is_attest_input_box s.current_command)) _ s _
        (λ _. failed (err-Failed d s sw_bad_state s (λ e. ground arith) refl))
        (λ here.
          Ends-when Ending (not (session == (app_attest_input_context d s).session)) _ s _
            (λ _. failed (err-Failed d s sw_bad_session_id s (λ e. ground arith) refl))
            (λ agreed.
              let here_too : is_attest_input_box s.current_command ≡ true = ground arith in
              let same : session ≡ (app_attest_input_context d s).session = ground arith in
              handle_subcommand-Reacts (is_command s.current_command here_too)
                (λ c there. same ∙ ap (λ u. (attest_input_view d u).session) there) subcommand))

  run-Reacts :
      (subcommand : AttestInputSubcommand)
      → subcommand ≢ init
      → Reacts d b session s (function (run_subcommand d subcommand b session) s).1
  unfolding run_subcommand
  run-Reacts init h = absurd (h refl)
  run-Reacts unknown h = failed (err-Failed d s sw_wrong_subcommand s (λ e. ground arith) refl)
  run-Reacts subcommand h = checked-Reacts subcommand

  -- While the screens are not busy, any message but the first one of an attestation does one of
  -- four things. It sends one error word and nothing else, and leaves no command, a wiped context
  -- and idle screens. It was one for an approved attestation, which stays approved, and sends
  -- SW_OK. It was one for an approved attestation, which is finished now with the serializer's
  -- hash taken, and sends the number of frames of its tokens. Or it was one for a finished
  -- attestation, which stays so, and has exactly one byte, and sends data, as the function for the
  -- frame with that byte as its index does. In the last three the command was the one of
  -- attestations, the session in the message was the one of the attestation, and both stay.
  pub handler_attest_input-Reacts :
      (subcommand : AttestInputSubcommand)
      → s.is_ui_busy ≡ false
      → subcommand ≢ init
      → Reacts d b session s (handler_attest_input d b subcommand session s).1
  unfolding handler_attest_input
  handler_attest_input-Reacts subcommand idle h =
      Ends-when Ending s.is_ui_busy _ s _ (λ e. absurd (ground arith))
        (λ _. run-Reacts subcommand h)
