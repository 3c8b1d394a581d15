-- ===== src/SignTx/Handler/Shows.antt =====
-- What the screens of stx_op_p2pk.c leave, for the messages of stx_handler.c that show them.
use ledger_app_ergo.Prelude.{
  ℕ, ◌+◌, ◌≡◌, ◌≢◌, inl, inr, refl, Bool, true, false, Bool-cases, not, ◌||◌, ◌==◌, ◌%◌, u8_mod,
  arith,
}
use ledger_app_ergo.Prelude.Flow.{
  go, ◌>>=◌, ◌>>◌, ret, read, modify, when, call, function, then_do, result_of,
}
use ledger_app_ergo.Prelude.Ends.{Ends-when}
use ledger_app_ergo.Ergo.TokenTable.{index_not_exist}
use ledger_app_ergo.Sw.{sw_ok, sw_bad_state, sw_screens_buffer_overflow}
use ledger_app_ergo.SignTx.Context.{P2pk, P2pkState, SignTx, finalized}
use ledger_app_ergo.SignTx.P2pk.{handler_err, is_outputs_started, is_tx_finished}
use ledger_app_ergo.SignTx.P2pk.Confirm.{is_blind_signing_tx}
use ledger_app_ergo.SignTx.P2pk.Screens.{
  warn_unless, display_or_return, ui_stx_operation_p2pk_show_output_confirm_screen,
  ui_stx_operation_p2pk_show_confirm_screen,
}
use ledger_app_ergo.SignTx.P2pk.Settles.{holding}
use ledger_app_ergo.SignTx.Ui.{
  transaction_pairs, ui_add_screen, is_short_of, next_screen, ui_stx_add_output_screens,
  ui_stx_operation_output_confirm_action, ui_display_screens, ui_stx_add_transaction_screens,
  ui_add_dynamic_flow_screens,
}
use ledger_app_ergo.SignTx.Handler.Reacts.{Keeps, Replied, is_complete_state}
use ledger_app_ergo.App.{App, Device, sign_tx, app_set_current_command}

-- The result of a screen function: shown, or an error with nothing sent.
pub data Shown {H : Type 0} (x : SignTx H) (s : App H) (c : P2pk H) (r : ℕ × App H) : Type 0 where
  shown :
      (c' : P2pk H)
      → r.0 ≡ sw_ok
      → r.1.commands_ctx ≡ sign_tx (record x { p2pk = c' })
      → Keeps c c'
      → r.1.current_command ≡ s.current_command
      → Replied s r.1
      → Shown x s c r
  unshown : r.0 ≢ sw_ok → r.1.sent ≡ s.sent → Shown x s c r

module _ {H : Type 0} (d : Device H) (x : SignTx H) (s : App H) (c : P2pk H) where
  -- The screens of an output, from the given number of screens on.
  output_screens-Shown :
      (n blind : ℕ)
      → Shown x s c (
          function
            (do
              added ← call (ui_stx_add_output_screens d)
              when (not added) (ret sw_screens_buffer_overflow)
              ret sw_ok)
            (holding d x
              (record s { signtx_screen = n })
              (record c { blind_signing_required = blind })))
  unfolding ui_stx_add_output_screens ui_stx_operation_output_confirm_action
  output_screens-Shown n blind = elim (Bool-cases (is_short_of 6 n)) [
    | inl e ↦ rw e (unshown (λ h. ground arith) refl)
    | inr e ↦ elim (Bool-cases (is_short_of 2 n)) [
      | inl e' ↦ rw e (rw e' (unshown (λ h. ground arith) refl))
      | inr e' ↦ rw e (
          rw e' (
            shown _ refl refl (record { complete = λ h. h; same_path = refl; same_key = refl }) refl
              (inl refl)))
    ]
  ]

  blind-Shown :
      (enabled : Bool)
      → Shown x s c (
          function
            (do
              warn_unless d enabled
              added ← call (ui_stx_add_output_screens d)
              when (not added) (ret sw_screens_buffer_overflow)
              ret sw_ok)
            (holding d x s (record c { blind_signing_required = 1 })))
  unfolding ui_display_screens
  blind-Shown true = output_screens-Shown (next_screen s.signtx_screen) 1
  blind-Shown false =
      let n = next_screen (next_screen (next_screen (next_screen s.signtx_screen))) in
      elim (Bool-cases (is_short_of 2 n)) [
        | inl e' ↦ rw e' (unshown (λ h. ground arith) refl)
        | inr e' ↦ rw e' (
            shown (record c { blind_signing_required = 1 }) refl refl
              (record { complete = λ h. h; same_path = refl; same_key = refl }) refl
              (inr (refl, refl)))
      ]

  pub output-Shown :
      Shown x s c (ui_stx_operation_p2pk_show_output_confirm_screen d (holding d x s c))
  unfolding ui_stx_operation_p2pk_show_output_confirm_screen handler_err app_set_current_command
      ui_display_screens
  output-Shown =
      Ends-when (Shown x s c) (not (is_outputs_started c.state || is_tx_finished c.state))
        (handler_err d sw_bad_state) (holding d x s c) _ (λ _. unshown (λ h. ground arith) refl)
        (λ _. elim (Bool-cases (is_blind_signing_tx c.mem.shared.env.output)) [
          | inr e ↦ rw e (output_screens-Shown s.signtx_screen c.blind_signing_required)
          | inl e ↦ rw e (blind-Shown s.blind_signing_enabled)
        ])

-- A screen function changes a counter alone.
abbrev Counts : {H : Type 0} → App H → Bool × App H → Type 0
Counts s r = (n : ℕ) × (r.1 ≡ record s { signtx_screen = n })

flow_screens-Counts :
    {H : Type 0} (count : ℕ) (s : App H) → Counts s (ui_add_dynamic_flow_screens count s)
unfolding ui_add_dynamic_flow_screens
flow_screens-Counts count s =
    let n = s.signtx_screen in
    Ends-when (Counts s) (is_short_of 3 n) (ret false) s _ (λ _. (n, refl))
      (λ _.
        Ends-when (Counts s) ((count == 0) || (count == index_not_exist)) (ret false) s _
          (λ _. (n, refl)) (λ _. (next_screen (next_screen (next_screen n)), refl)))

after_flow-Counts :
    {H : Type 0} (s : App H) (r : Bool × App H)
    → Counts s r
    → Counts s (
        result_of (
          then_do (go r.0 r.1) (λ flow. do
            when (not flow) (ret false)
            t ← read
            when (is_short_of 2 t.signtx_screen) (ret false)
            modify ui_add_screen
            modify ui_add_screen
            ret true)))
after_flow-Counts s (false, s') counts = counts
after_flow-Counts s (true, s') (n, e) = rw e (
    Ends-when (Counts s) (is_short_of 2 n) (ret false) (record s { signtx_screen = n }) _
      (λ _. (n, refl)) (λ _. (next_screen (next_screen n), refl)))

transaction_screens-Counts :
    {H : Type 0} (d : Device H) (s : App H) → Counts s (ui_stx_add_transaction_screens d s)
unfolding ui_stx_add_transaction_screens
transaction_screens-Counts d s =
    Ends-when (Counts s) (is_short_of 6 s.signtx_screen) (ret false) s _
      (λ _. (s.signtx_screen, refl))
      (λ _.
        after_flow-Counts s
          (ui_add_dynamic_flow_screens ((s.signtx_outputs_screen + transaction_pairs d s) % u8_mod)
            s)
          (flow_screens-Counts ((s.signtx_outputs_screen + transaction_pairs d s) % u8_mod) s))

finished_is_complete : (st : P2pkState) → is_tx_finished st ≡ true → is_complete_state st ≡ true
finished_is_complete st h = ground arith

module _ {H : Type 0} (d : Device H) (x : SignTx H) (s : App H) (c : P2pk H) where
  -- The part behind the screens of the transaction.
  confirm_rest-Shown :
      (r : Bool × App H)
      → Keeps c (record c { state = finalized })
      → Counts (holding d x s (record c { state = finalized })) r
      → Shown x s c (
          result_of (
            then_do (go r.0 r.1) (λ added. do
              when (not added) (ret sw_screens_buffer_overflow)
              display_or_return
              ret sw_ok)))
  unfolding ui_display_screens
  confirm_rest-Shown (false, s') keeps (n, e) = rw e (unshown (λ h. ground arith) refl)
  confirm_rest-Shown (true, s') keeps (n, e) = elim (Bool-cases (is_short_of 2 n)) [
    | inl e' ↦ rw e (rw e' (unshown (λ h. ground arith) refl))
    | inr e' ↦
        rw e
          (rw e' (shown (record c { state = finalized }) refl refl keeps refl (inr (refl, refl))))
  ]

  pub confirm-Shown : Shown x s c (ui_stx_operation_p2pk_show_confirm_screen d (holding d x s c))
  unfolding ui_stx_operation_p2pk_show_confirm_screen handler_err app_set_current_command
  confirm-Shown = elim (Bool-cases (is_tx_finished c.state)) [
    | inr e ↦ rw e (unshown (λ h. ground arith) refl)
    | inl e ↦ rw e (
        let s' = holding d x s (record c { state = finalized }) in
        confirm_rest-Shown (ui_stx_add_transaction_screens d s')
          (record {
            complete = λ h _. h (finished_is_complete c.state e);
            same_path = refl;
            same_key = refl;
          })
          (transaction_screens-Counts d s'))
  ]
