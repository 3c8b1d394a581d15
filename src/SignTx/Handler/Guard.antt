-- ===== src/SignTx/Handler/Guard.antt =====
-- Which messages of stx_handler.c are served at all, and how every one of them ends.
use ledger_app_ergo.Prelude.{
  ℕ, ◌≡◌, ◌≢◌, inl, inr, refl, ap, Bool, true, false, Bool-cases, ◌==◌, not, ◌&&◌, arith,
}
use ledger_app_ergo.Prelude.Flow.{ret, function, then_do, result_of}
use ledger_app_ergo.Prelude.Ends.{Ends-when}
use ledger_app_ergo.Sdk.{Buffer}
use ledger_app_ergo.Sw.{sw_ok, sw_bad_state, sw_bad_session_id, sw_wrong_subcommand}
use ledger_app_ergo.SignTx.Context.{SignTxState, approved}
use ledger_app_ergo.SignTx.Handler.{Step, is_approved, handler_err}
use ledger_app_ergo.SignTx.Handler.Dispatch.{
  SignTxSubcommand, sign_pk, start_tx, token_ids, input_frame, input_context_extension, data_input,
  output, output_tree_chunk, output_miners_fee_tree, output_change_tree, output_tokens,
  output_registers, confirm, unknown, is_sign_transaction, handle_subcommand, checked_subcommand,
  run_subcommand, handler_sign_transaction,
}
use ledger_app_ergo.SignTx.Handler.Reacts.{Failed, Reacts, failed, went, Reacts-error}
use ledger_app_ergo.SignTx.Handler.Inputs.{
  handle_tokens-Reacts, handle_input_context_extension-Reacts, handle_data_inputs-Reacts,
  handle_tx_start-Reacts, handle_input_frame-Reacts,
}
use ledger_app_ergo.SignTx.Handler.Ends.{
  handle_output_tree_chunk-Reacts, handle_output_tokens-Reacts, handle_output_registers-Reacts,
  handle_output_tree_fee-Reacts, handle_output_init-Reacts, handle_output_tree_change-Reacts,
  handle_sign_confirm-Reacts,
}
use ledger_app_ergo.App.{
  App, Device, sign_tx_view, app_set_current_command, app_sign_transaction_context,
}

served_or_not : (a b : Bool) → not a ≡ false → not b ≡ false → (a && b) ≡ false → ⊥
served_or_not a b h k l = ground arith

unapproved : (a b : Bool) → a ≡ true → (a && b) ≡ false → b ≡ false
unapproved a b h k = ground arith

bad_state : (st st' : SignTxState) → st ≡ st' → st' ≡ approved → is_approved st ≡ false → ⊥
bad_state st st' h k l = ground arith

module _ {H : Type 0} (d : Device H) (s : App H) where
  handle_subcommand-Reacts :
      (subcommand : SignTxSubcommand) (b : Buffer) → Reacts s (handle_subcommand d subcommand b s).1
  unfolding handle_subcommand handler_err app_set_current_command
  handle_subcommand-Reacts start_tx b = handle_tx_start-Reacts d s b
  handle_subcommand-Reacts token_ids b = handle_tokens-Reacts d s b
  handle_subcommand-Reacts input_frame b = handle_input_frame-Reacts d s s.session_key b
  handle_subcommand-Reacts input_context_extension b = handle_input_context_extension-Reacts d s b
  handle_subcommand-Reacts data_input b = handle_data_inputs-Reacts d s b
  handle_subcommand-Reacts output b = handle_output_init-Reacts d s b
  handle_subcommand-Reacts output_tree_chunk b = handle_output_tree_chunk-Reacts d s b
  handle_subcommand-Reacts output_miners_fee_tree b = handle_output_tree_fee-Reacts d s b
  handle_subcommand-Reacts output_change_tree b = handle_output_tree_change-Reacts d s b
  handle_subcommand-Reacts output_tokens b = handle_output_tokens-Reacts d s b
  handle_subcommand-Reacts output_registers b = handle_output_registers-Reacts d s b
  handle_subcommand-Reacts confirm b = handle_sign_confirm-Reacts d s
  handle_subcommand-Reacts sign_pk b =
      Reacts-error d s sw_wrong_subcommand s ret (λ e. ground arith) refl
  handle_subcommand-Reacts unknown b =
      Reacts-error d s sw_wrong_subcommand s ret (λ e. ground arith) refl

  -- The message belongs to the signing that is under way.
  abbrev pub is_served : ℕ → Bool
  is_served session =
      is_sign_transaction s.current_command
      && (session == (app_sign_transaction_context d s).session)

  -- What a failure leaves.
  Failed-error :
      {A : Type 0} (code : ℕ) (k : A → Step H (Unit {0}))
      → code ≢ sw_ok
      → Failed s (result_of (then_do (handler_err d code s) k)).1
  unfolding handler_err app_set_current_command
  Failed-error code k h = record {
    code = code;
    is_error = h;
    answer = refl;
    command = refl;
    context = refl;
    idle = refl;
  }

  checked-Reacts :
      (subcommand : SignTxSubcommand) (b : Buffer) (session : ℕ)
      → Reacts s (function (checked_subcommand d subcommand b session) s).1
  checked-Reacts subcommand b session =
      Ends-when (λ r. Reacts s r.1) (not (is_sign_transaction s.current_command))
        (handler_err d sw_bad_state) s _
        (λ _. Reacts-error d s sw_bad_state s _ (λ e. ground arith) refl)
        (λ _.
          Ends-when (λ r. Reacts s r.1)
            (not (session == (app_sign_transaction_context d s).session))
            (handler_err d sw_bad_session_id) s _
            (λ _. Reacts-error d s sw_bad_session_id s _ (λ e. ground arith) refl)
            (λ _. handle_subcommand-Reacts subcommand b))

  checked-Failed :
      (subcommand : SignTxSubcommand) (b : Buffer) (session : ℕ)
      → is_served session ≡ false
      → Failed s (function (checked_subcommand d subcommand b session) s).1
  checked-Failed subcommand b session h =
      Ends-when (λ r. Failed s r.1) (not (is_sign_transaction s.current_command))
        (handler_err d sw_bad_state) s _ (λ _. Failed-error sw_bad_state _ (λ e. ground arith))
        (λ e.
          Ends-when (λ r. Failed s r.1)
            (not (session == (app_sign_transaction_context d s).session))
            (handler_err d sw_bad_session_id) s _
            (λ _. Failed-error sw_bad_session_id _ (λ e. ground arith))
            (λ e'. absurd (served_or_not _ _ e e' h)))

  run-Reacts :
      (b : Buffer) (subcommand : SignTxSubcommand) (session : ℕ)
      → subcommand ≢ sign_pk
      → Reacts s (function (run_subcommand d subcommand b session) s).1
  unfolding run_subcommand handler_err app_set_current_command
  run-Reacts b sign_pk session h = absurd (h refl)
  run-Reacts b unknown session h =
      Reacts-error d s sw_wrong_subcommand s ret (λ e. ground arith) refl
  run-Reacts b subcommand session h = checked-Reacts subcommand b session

  run-Failed :
      (b : Buffer) (subcommand : SignTxSubcommand) (session : ℕ)
      → subcommand ≢ sign_pk
      → is_served session ≡ false
      → Failed s (function (run_subcommand d subcommand b session) s).1
  unfolding run_subcommand handler_err app_set_current_command
  run-Failed b sign_pk session h e = absurd (h refl)
  run-Failed b unknown session h e = Failed-error sw_wrong_subcommand ret (λ e. ground arith)
  run-Failed b subcommand session h e = checked-Failed subcommand b session e

  unapproved-Failed :
      {s' : App H}
      → Reacts s s'
      → is_approved (app_sign_transaction_context d s).state ≡ false
      → Failed s s'
  unapproved-Failed (failed f) h = f
  unapproved-Failed (went w) h =
      absurd (bad_state _ _ (ap (λ u. (sign_tx_view d u).state) w.context) w.is_approved h)

  -- While the screens are not busy, any message but the first one of a signing either sends one
  -- error word and nothing else and leaves no command, a wiped context and idle screens, or it
  -- goes on under an approved signing: the session, the command, the path and the key stay, a
  -- finished operation has a finished serializer if that held before, and one SW_OK is sent, or
  -- nothing is and the screens are busy.
  pub handler_sign_transaction-Reacts :
      (b : Buffer) (subcommand : SignTxSubcommand) (session : ℕ)
      → s.is_ui_busy ≡ false
      → subcommand ≢ sign_pk
      → Reacts s (handler_sign_transaction d b subcommand session s).1
  unfolding handler_sign_transaction
  handler_sign_transaction-Reacts b subcommand session idle h =
      Ends-when (λ r. Reacts s r.1) s.is_ui_busy _ s _ (λ e. absurd (ground arith))
        (λ _. run-Reacts b subcommand session h)

  -- While the screens are not busy, any message but the first one of a signing that comes under
  -- another command, with another session or before the approval sends one error word and nothing
  -- else, and leaves no command, a wiped context and idle screens.
  pub handler_sign_transaction_unauthorised :
      (b : Buffer) (subcommand : SignTxSubcommand) (session : ℕ)
      → s.is_ui_busy ≡ false
      → subcommand ≢ sign_pk
      → (is_served session && is_approved (app_sign_transaction_context d s).state) ≡ false
      → Failed s (handler_sign_transaction d b subcommand session s).1
  unfolding handler_sign_transaction
  handler_sign_transaction_unauthorised b subcommand session idle h barred =
      elim (Bool-cases (is_served session)) [
        | inr e ↦
            Ends-when (λ r. Failed s r.1) s.is_ui_busy _ s _ (λ e'. absurd (ground arith))
              (λ _. run-Failed b subcommand session h e)
        | inl e ↦
            unapproved-Failed (handler_sign_transaction-Reacts b subcommand session idle h)
              (unapproved _ _ e barred)
      ]
