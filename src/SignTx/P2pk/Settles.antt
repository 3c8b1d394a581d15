-- ===== src/SignTx/P2pk/Settles.antt =====
-- What an operation of stx_op_p2pk.c leaves: a new context and the result SW_OK, or nothing of it.
use ledger_app_ergo.Prelude.{
  ℕ, ◌≡◌, ◌≢◌, inl, inr, refl, Bool, true, Bool-cases, ◌==◌, ==_iff, arith,
}
use ledger_app_ergo.Prelude.Flow.{Body, Function, ret, then_do, result_of}
use ledger_app_ergo.Sw.{sw_ok, sw_from_tx_full_result}
use ledger_app_ergo.Ergo.Full.{
  FullResult, FullContext, FullFrame, ergo_tx_serializer_full_is_finished,
}
use ledger_app_ergo.Ergo.Memory.{Shared}
use ledger_app_ergo.SignTx.Output.{OutputInfo}
use ledger_app_ergo.SignTx.P2pk.Outputs.{on_output_info}
use ledger_app_ergo.SignTx.Context.{P2pkEnv, P2pk, P2pkState, tx_finished, SignTx}
use ledger_app_ergo.SignTx.P2pk.{
  handler_err, check_proper_state, check_sw, check_call_result_sw_ok, on_tx, on_tx_context,
  check_tx_call_result_ok, check_tx_finished, on_output,
}
use ledger_app_ergo.App.{App, Device, cmd_none, app_set_current_command, set_sign_tx}

module _ {H : Type 0} (d : Device H) (x : SignTx H) (s : App H) where
  -- The application with the given operation in the context that is being signed.
  abbrev pub holding : P2pk H → App H
  holding c = set_sign_tx d (record x { p2pk = c }) s

  abbrev pub reset : App H
  reset = app_set_current_command cmd_none s

pub data Settles {H : Type 0} (d : Device H) (x : SignTx H) (s : App H) (P : P2pk H → Type 0)
    (r : ℕ × App H) : Type 0 where
  settled : (c : P2pk H) → r.0 ≡ sw_ok → r.1 ≡ holding d x s c → P c → Settles d x s P r
  refused : r.0 ≢ sw_ok → r.1 ≡ reset d x s → Settles d x s P r

module _ {H : Type 0} {d : Device H} {x : SignTx H} {s : App H} {P : P2pk H → Type 0} where
  pub Settles-error :
      (c : P2pk H) (code : ℕ) (k : Unit {0} → Body ℕ (App H) ℕ)
      → code ≢ sw_ok
      → Settles d x s P (result_of (then_do (handler_err d code (holding d x s c)) k))
  unfolding handler_err app_set_current_command
  Settles-error c code k h = refused h refl

  pub Settles-check_sw :
      (c : P2pk H) (code : ℕ) (k : Unit {0} → Body ℕ (App H) ℕ)
      → (code ≡ sw_ok → Settles d x s P (result_of (k tt (holding d x s c))))
      → Settles d x s P (result_of (then_do (check_sw d code (holding d x s c)) k))
  unfolding handler_err app_set_current_command
  Settles-check_sw c code k rest = elim (Bool-cases (code == sw_ok)) [
    | inl e ↦ rw e (rest ((==_iff code sw_ok).0 e))
    | inr e ↦ rw e (refused (λ h. ground arith) refl)
  ]

  pub Settles-check_proper_state :
      (c : P2pk H) (is : P2pkState → Bool) (k : Unit {0} → Body ℕ (App H) ℕ)
      → (is c.state ≡ true → Settles d x s P (result_of (k tt (holding d x s c))))
      → Settles d x s P (result_of (then_do (check_proper_state d is (holding d x s c)) k))
  unfolding handler_err app_set_current_command
  Settles-check_proper_state c is k rest = elim (Bool-cases (is c.state)) [
    | inl e ↦ rw e (rest e)
    | inr e ↦ rw e (refused (λ h. omega arith) refl)
  ]

  pub Settles-tx :
      (c : P2pk H) (f : Function FullResult (FullFrame H (P2pkEnv H)))
      (k : Unit {0} → Body ℕ (App H) ℕ)
      → ((after : FullFrame H (P2pkEnv H))
          → Settles d x s P
              (result_of (k tt (holding d x s (record c { tx = after.ctx; mem = after.mem })))))
      → Settles d x s P
          (result_of (then_do (check_tx_call_result_ok d (on_tx d f) (holding d x s c)) k))
  Settles-tx c f k rest =
      let frame : FullFrame H (P2pkEnv H) = record { ctx = c.tx; mem = c.mem } in
      let after = (f frame).1 in
      Settles-check_sw (record c { tx = after.ctx; mem = after.mem })
        (sw_from_tx_full_result (f frame).0) k (λ _. rest after)

  pub Settles-tx_context :
      (c : P2pk H) (f : Function FullResult (FullContext (P2pkEnv H)))
      (k : Unit {0} → Body ℕ (App H) ℕ)
      → ((tx : FullContext (P2pkEnv H))
          → Settles d x s P (result_of (k tt (holding d x s (record c { tx = tx })))))
      → Settles d x s P
          (result_of (then_do (check_tx_call_result_ok d (on_tx_context d f) (holding d x s c)) k))
  Settles-tx_context c f k rest =
      Settles-check_sw (record c { tx = (f c.tx).1 }) (sw_from_tx_full_result (f c.tx).0) k
        (λ _. rest (f c.tx).1)

  pub Settles-output_info :
      (c : P2pk H) (f : Function ℕ (OutputInfo H)) (k : Unit {0} → Body ℕ (App H) ℕ)
      → ((shared : Shared (P2pkEnv H))
          → Settles d x s P (
              result_of
                (k tt (holding d x s (record c { mem = record c.mem { shared = shared } })))))
      → Settles d x s P
          (result_of (then_do (check_call_result_sw_ok d (on_output_info d f) (holding d x s c)) k))
  Settles-output_info c f k rest =
      let (code, shared) = on_output f c.mem.shared in
      Settles-check_sw (record c { mem = record c.mem { shared = shared } }) code k
        (λ _. rest shared)

  pub Settles-finished :
      (c : P2pk H)
      → (ergo_tx_serializer_full_is_finished c.tx ≡ true → P (record c { state = tx_finished }))
      → P c
      → Settles d x s P
          (result_of (then_do (check_tx_finished d (holding d x s c)) (λ _. ret sw_ok)))
  Settles-finished c finished unfinished =
      elim (Bool-cases (ergo_tx_serializer_full_is_finished c.tx)) [
        | inl e ↦ rw e (settled (record c { state = tx_finished }) refl refl (finished e))
        | inr e ↦ rw e (settled c refl refl unfinished)
      ]
