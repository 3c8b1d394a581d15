-- ===== src/Dispatcher/Answers.antt =====
-- How the device answers any message at all.
use ledger_app_ergo.Prelude.{
  ℕ, ◌≡◌, ◌≢◌, ◌⊎◌, inl, inr, refl, true, false, Bool-cases, ◌∷◌, ◌==◌, not, ◌&&◌, arith,
}
use ledger_app_ergo.Sdk.{Buffer}
use ledger_app_ergo.Sw.{sw_ok, sw_busy, sw_wrong_p1p2}
use ledger_app_ergo.Helpers.CmdMacros.Answers.{Answered, replied, waits}
use ledger_app_ergo.SignTx.Handler.Reacts.{Reacts, failed, went}
use ledger_app_ergo.SignTx.Handler.Guard.{handler_sign_transaction-Reacts}
use ledger_app_ergo.SignTx.Handler.Start.{Starts, started}
use ledger_app_ergo.SignTx.Handler.Dispatch.{
  SignTxSubcommand, sign_pk, run_subcommand, handler_sign_transaction,
}
use ledger_app_ergo.SignTx.Handler.Sound.{sign_pk_or, some_token, sign_pk-Starts}
use ledger_app_ergo.AttestInput.Handler.{AttestInputSubcommand, init}
use ledger_app_ergo.AttestInput.Messages.{handler_attest_input}
use ledger_app_ergo.AttestInput.Messages.Reacts.{taken, attested, framed}
use ledger_app_ergo.AttestInput.Messages.Guard.{handler_attest_input-Reacts}
use ledger_app_ergo.AttestInput.Messages.Start.{Opens, opened, asks, handler_attest_input-Opens}
use ledger_app_ergo.ExtPubKey.Handler.{handler_get_extended_public_key}
use ledger_app_ergo.ExtPubKey.Handler.Answers.{handler_get_extended_public_key-Answered}
use ledger_app_ergo.DeriveAddress.Handler.{handler_derive_address}
use ledger_app_ergo.DeriveAddress.Handler.Answers.{handler_derive_address-Answered}
use ledger_app_ergo.Dispatcher.{ApduCommand, apdu_dispatcher}
use ledger_app_ergo.Dispatcher.Routes.{apdu_dispatcher-Ends}
use ledger_app_ergo.App.{App, Device, Reply, send_sw, cmd_sign_transaction, app_set_current_command}

pub init_or : (subcommand : AttestInputSubcommand) → (subcommand ≡ init) ⊎ (subcommand ≢ init)
init_or init = inl refl
init_or _ = inr (λ e. ground arith)

module _ {H : Type 0} (s : App H) where
  attested-Answered :
      {d : _} {b : _} {session : _} {s' : App H}
      → ledger_app_ergo.AttestInput.Messages.Reacts.Reacts d b session s s'
      → Answered s s'
  attested-Answered (ledger_app_ergo.AttestInput.Messages.Reacts.failed f) =
      replied (send_sw f.code) f.answer
  attested-Answered (taken g e) = replied _ e
  attested-Answered (attested g h e) = replied _ e
  attested-Answered (framed g index rest e1 e2 e3 bytes e) = replied _ e

  opened-Answered :
      (d : Device H) {b : _} {has_token : _} {s' : App H} → Opens d b has_token s s' → Answered s s'
  opened-Answered d (Opens.failed f) = replied (send_sw f.code) f.answer
  opened-Answered d (opened token c requests some_id connected is_in e command) = replied _ e
  opened-Answered d (asks a) = waits a.same a.busy

  signed-Answered : {s' : App H} → Reacts s s' → Answered s s'
  signed-Answered (failed f) = replied (send_sw f.code) f.answer
  signed-Answered (went w) = elim w.replied [
    | inl e ↦ replied (send_sw sw_ok) e
    | inr e ↦ waits e.0 e.1
  ]

-- No message changes anything while the screens wait for the user, but that it is answered.
pub Frozen : {H : Type 0} → App H → App H → Type 0
Frozen s s' = (reply : Reply) × (s' ≡ record s { sent = reply ∷ s.sent })

module _ {H : Type 0} (d : Device H) (s : App H) where
  started-Answered :
      {b : _} {has_token : _} {s' : App H}
      → Starts d b has_token (app_set_current_command cmd_sign_transaction s) s'
      → Answered s s'
  unfolding app_set_current_command
  started-Answered (Starts.failed f) = replied (send_sw f.code) f.answer
  started-Answered (started st) = replied _ st.answer

  -- The commands of many messages while the screens are busy.
  pub attest_busy :
      (b : Buffer) (subcommand : AttestInputSubcommand) (p2 : ℕ)
      → s.is_ui_busy ≡ true
      → (handler_attest_input d b subcommand p2 s).1 ≡ record s { sent = send_sw sw_busy ∷ s.sent }
  unfolding handler_attest_input
  attest_busy b subcommand p2 busy = rw busy

  sign_busy :
      (b : Buffer) (subcommand : SignTxSubcommand) (p2 : ℕ)
      → s.is_ui_busy ≡ true
      → (handler_sign_transaction d b subcommand p2 s).1
        ≡ record s { sent = send_sw sw_busy ∷ s.sent }
  unfolding handler_sign_transaction
  sign_busy b subcommand p2 busy = rw busy

  attest-Answered :
      (b : Buffer) (subcommand : AttestInputSubcommand) (p2 : ℕ)
      → Answered s (handler_attest_input d b subcommand p2 s).1
  attest-Answered b subcommand p2 = elim (Bool-cases s.is_ui_busy) [
    | inl busy ↦ rw (attest_busy b subcommand p2 busy) (replied (send_sw sw_busy) refl)
    | inr idle ↦ elim (init_or subcommand) [
      | inl e ↦ rw e (opened-Answered s d (handler_attest_input-Opens d s b p2 idle))
      | inr h ↦ attested-Answered s (handler_attest_input-Reacts d b p2 s subcommand idle h)
    ]
  ]

  start-Answered :
      (b : Buffer) (p2 : ℕ)
      → s.is_ui_busy ≡ false
      → Answered s (handler_sign_transaction d b sign_pk p2 s).1
  unfolding handler_sign_transaction run_subcommand
  start-Answered b p2 idle = elim (Bool-cases (not (p2 == 0x01) && not (p2 == 0x02))) [
    | inl bad ↦ rw (idle, bad) (replied (send_sw sw_wrong_p1p2) refl)
    | inr good ↦ started-Answered (sign_pk-Starts d b p2 s idle (some_token p2 good))
  ]

  sign-Answered :
      (b : Buffer) (subcommand : SignTxSubcommand) (p2 : ℕ)
      → Answered s (handler_sign_transaction d b subcommand p2 s).1
  sign-Answered b subcommand p2 = elim (Bool-cases s.is_ui_busy) [
    | inl busy ↦ rw (sign_busy b subcommand p2 busy) (replied (send_sw sw_busy) refl)
    | inr idle ↦ elim (sign_pk_or subcommand) [
      | inl e ↦ rw e (start-Answered b p2 idle)
      | inr h ↦ signed-Answered s (handler_sign_transaction-Reacts d s b subcommand p2 idle h)
    ]
  ]

  -- Any message, in any state of the application, is answered by exactly one reply, or by none and
  -- then the screens are busy.
  pub apdu_dispatcher-Answered : (cmd : ApduCommand) → Answered s (apdu_dispatcher d cmd s).1
  apdu_dispatcher-Answered = apdu_dispatcher-Ends d s (Answered s) (record {
    answers = λ reply. replied reply refl;
    exports = λ b has_token. handler_get_extended_public_key-Answered d s b has_token;
    derives = λ b display has_token. handler_derive_address-Answered d s b display has_token;
    attests = attest-Answered;
    signs = sign-Answered;
  })

  -- While the screens wait for the user, any message, whatever its class, instruction and
  -- parameters, gets one reply and changes nothing else of the application.
  pub apdu_dispatcher-Frozen :
      (cmd : ApduCommand) → s.is_ui_busy ≡ true → Frozen s (apdu_dispatcher d cmd s).1
  unfolding Frozen handler_get_extended_public_key handler_derive_address
  apdu_dispatcher-Frozen cmd busy =
      apdu_dispatcher-Ends d s (Frozen s)
        (record {
          answers = λ reply. (reply, refl);
          exports = λ b has_token. (send_sw sw_busy, rw busy);
          derives = λ b display has_token. (send_sw sw_busy, rw busy);
          attests = λ b subcommand p2. (send_sw sw_busy, attest_busy b subcommand p2 busy);
          signs = λ b subcommand p2. (send_sw sw_busy, sign_busy b subcommand p2 busy);
        })
        cmd
