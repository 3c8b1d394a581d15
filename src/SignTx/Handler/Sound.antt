-- ===== src/SignTx/Handler/Sound.antt =====
-- What every message to the signing command keeps.
use mathlib.Core.Path.{subst}
use ledger_app_ergo.Prelude.{
  ℕ, ◌≡◌, ◌≢◌, ◌⊎◌, inl, inr, refl, sym, true, false, Bool-cases, ◌==◌, not, ◌&&◌, arith,
}
use ledger_app_ergo.Prelude.Ends.{Ends-when}
use ledger_app_ergo.Sdk.{Buffer}
use ledger_app_ergo.SignTx.Context.{P2pkState, SignTx, zero_sign_tx}
use ledger_app_ergo.SignTx.P2pk.{p2pk_of, is_finalized}
use ledger_app_ergo.SignTx.Handler.Dispatch.{
  SignTxSubcommand, sign_pk, run_subcommand, handler_sign_transaction,
}
use ledger_app_ergo.SignTx.Handler.Reacts.{IsComplete, Reacts, failed, went, is_complete_state}
use ledger_app_ergo.SignTx.Handler.Guard.{handler_sign_transaction-Reacts}
use ledger_app_ergo.SignTx.Handler.Start.{Starts, started, handle_init_p2pk-Starts}
use ledger_app_ergo.App.{
  App, Device, cleared, CommandsCtx, sign_tx_view, cmd_sign_transaction, app_set_current_command,
}

valid_token :
    (token : ℕ)
    → (token ≡ 1) ⊎ (token ≡ 2)
    → (not (token == 0x01) && not (token == 0x02)) ≡ true
    → ⊥
valid_token token h e = ground arith

pub some_token :
    (token : ℕ) → (not (token == 0x01) && not (token == 0x02)) ≡ false → (token ≡ 1) ⊎ (token ≡ 2)
some_token token e = ground arith

pub sign_pk_or : (subcommand : SignTxSubcommand) → (subcommand ≡ sign_pk) ⊎ (subcommand ≢ sign_pk)
sign_pk_or sign_pk = inl refl
sign_pk_or _ = inr (λ e. ground arith)

pub final_is_complete : (st : P2pkState) → is_finalized st ≡ true → is_complete_state st ≡ true
final_is_complete st h = ground arith

not_complete : (st : P2pkState) → st ≡ P2pkState.initialized → is_complete_state st ≡ true → ⊥
not_complete st h e = ground arith

module _ {H : Type 0} (d : Device H) where
  -- An operation behind its last piece has taken the whole transaction.
  abbrev pub IsSound : App H → Type 0
  IsSound s = IsComplete (p2pk_of d s)

  -- While the screens are not busy, the first message of a signing, with the token 1 or 2, either
  -- sends one error word and nothing else and leaves no command, a wiped context and idle screens,
  -- or it begins an operation with the path and the network of the message that counts as
  -- approved, and sends its session and nothing else. It then connects the application of the
  -- message's token, 0 where it has none, whichever was connected. That session is the one drawn
  -- from the random bytes that the secret of the proof has left, against the one in the context
  -- just wiped, not against the one before.
  pub sign_pk-Starts :
      (b : Buffer) (token : ℕ) (s : App H)
      → s.is_ui_busy ≡ false
      → (token ≡ 1) ⊎ (token ≡ 2)
      → Starts d b
          (token == 0x02)
          (app_set_current_command cmd_sign_transaction s)
          (handler_sign_transaction d b sign_pk token s).1
  unfolding handler_sign_transaction run_subcommand
  sign_pk-Starts b token s idle h =
      let F : Unit {0} × App H → Type 0 =
        λ r. Starts d b (token == 0x02) (app_set_current_command cmd_sign_transaction s) r.1 in
      Ends-when F s.is_ui_busy _ s _ (λ e. absurd (ground arith))
        (λ _.
          Ends-when F (not (token == 0x01) && not (token == 0x02)) _ s _
            (λ e. absurd (valid_token token h e))
            (λ _.
              handle_init_p2pk-Starts d b (token == 0x02)
                (app_set_current_command cmd_sign_transaction s) s.connected_app_id))

  pub zero-IsSound :
      (s : App H) → sign_tx_view d s.commands_ctx ≡ zero_sign_tx d.zero_hash → IsSound s
  zero-IsSound s h =
      let P : SignTx H → Type 0 = λ x. IsComplete x.p2pk in subst P (sym h) (λ e. ground arith)

  pub cleared-IsSound : (s : App H) → s.commands_ctx ≡ cleared → IsSound s
  cleared-IsSound s h = rw h (λ e. ground arith)

  Reacts-IsSound : (s s' : App H) → Reacts s s' → IsSound s → IsSound s'
  Reacts-IsSound s s' (failed f) h = cleared-IsSound s' f.context
  Reacts-IsSound s s' (went w) h =
      let P : CommandsCtx H → Type 0 = λ u. IsComplete (sign_tx_view d u).p2pk in
      subst P (sym w.context') (w.keeps.complete (subst P w.context h))

  Starts-IsSound : {b : _} {has_token : _} (s s' : App H) → Starts d b has_token s s' → IsSound s'
  Starts-IsSound s s' (Starts.failed f) = cleared-IsSound s' f.context
  Starts-IsSound s s' (started b) = λ e. absurd (not_complete _ b.begins e)

  begin-IsSound :
      (b : Buffer) (token : ℕ) (s : App H)
      → s.is_ui_busy ≡ false
      → IsSound s
      → IsSound (handler_sign_transaction d b sign_pk token s).1
  unfolding handler_sign_transaction run_subcommand
  begin-IsSound b token s idle h = elim (Bool-cases (not (token == 0x01) && not (token == 0x02))) [
    | inr e ↦
        Starts-IsSound (app_set_current_command cmd_sign_transaction s) _
          (sign_pk-Starts b token s idle (some_token token e))
    | inl e ↦
        Ends-when (λ r. IsSound r.1) s.is_ui_busy _ s _ (λ _. h)
          (λ _.
            Ends-when (λ r. IsSound r.1) (not (token == 0x01) && not (token == 0x02)) _ s _ (λ _. h)
              (λ e'. absurd (ground arith)))
  ]

  pub message-IsSound :
      (b : Buffer) (subcommand : SignTxSubcommand) (session : ℕ) (s : App H)
      → IsSound s
      → IsSound (handler_sign_transaction d b subcommand session s).1
  unfolding handler_sign_transaction
  message-IsSound b subcommand session s h = elim (Bool-cases s.is_ui_busy) [
    | inl busy ↦
        Ends-when (λ r. IsSound r.1) s.is_ui_busy _ s _ (λ _. h) (λ e. absurd (ground arith))
    | inr idle ↦ elim (sign_pk_or subcommand) [
      | inr other ↦
          Reacts-IsSound s _ (handler_sign_transaction-Reacts d s b subcommand session idle other) h
      | inl e ↦ rw e (begin-IsSound b session s idle h)
    ]
  ]
