-- ===== src/SignTx/Handler/Ends.antt =====
-- How the messages of stx_handler.c on outputs and the confirmation are answered.
use mathlib.Core.Path.{subst}
use ledger_app_ergo.Prelude.{
  ℕ, ◌≡◌, inl, inr, refl, Bool-cases, Option, none, some, ◌==◌, ==_iff, not, arith,
}
use ledger_app_ergo.Prelude.Flow.{
  Flow, stop, go, ◌>>=◌, ◌>>◌, ret, modify, when, call, function, then_do, result_of,
}
use ledger_app_ergo.Sdk.{Buffer}
use ledger_app_ergo.Sw.{sw_ok, sw_too_much_data, sw_buffer_error}
use ledger_app_ergo.SignTx.Context.{P2pk, SignTx, approved}
use ledger_app_ergo.SignTx.Output.{Bip32Path}
use ledger_app_ergo.SignTx.P2pk.{p2pk_of}
use ledger_app_ergo.SignTx.P2pk.Confirm.{stx_operation_p2pk_should_show_output_confirm_screen}
use ledger_app_ergo.SignTx.P2pk.Screens.{
  ui_stx_operation_p2pk_show_output_confirm_screen, ui_stx_operation_p2pk_show_confirm_screen,
}
use ledger_app_ergo.SignTx.P2pk.Settles.{holding}
use ledger_app_ergo.SignTx.P2pk.Steps.{OpCall, operate}
use ledger_app_ergo.SignTx.Handler.{
  Step, handler_err, check_approved, check_call_result_sw_ok, check_path, read_bip32_path,
  handle_sign_confirm,
}
use ledger_app_ergo.SignTx.Handler.Outputs.{
  store_output_path, bip32_public_key, show_output_screen_if_needed, handle_output_init,
  handle_output_tree_chunk, handle_output_tree_fee, handle_output_tree_change, handle_output_tokens,
  handle_output_registers,
}
use ledger_app_ergo.SignTx.Handler.Reacts.{
  Reacts, went, Keeps, Keeps-refl, Keeps-trans, Reacts-error, Reacts-approved, Reacts-operate,
  Reacts-answer, Reacts-read, Reacts-when,
}
use ledger_app_ergo.SignTx.Handler.Shows.{Shown, shown, unshown, output-Shown, confirm-Shown}
use ledger_app_ergo.App.{App, Device, sign_tx, app_set_current_command}

return_twice :
    {S : Type 0} (f : Flow (Unit {0}) S (Unit {0}))
    → result_of (then_do f (λ _. ret tt)) ≡ result_of f
return_twice (stop r s) = refl
return_twice (go r s) = refl

module _ {H : Type 0} (d : Device H) (s : App H) where
  abbrev confirm_body : Step H (Unit {0})
  confirm_body = do check_call_result_sw_ok d (ui_stx_operation_p2pk_show_confirm_screen d); ret tt

  -- The result of a screen function is checked, and the handler is done.
  Shown-Reacts :
      (x : SignTx H) (c : P2pk H) (r : ℕ × App H) (k : Unit {0} → Step H (Unit {0}))
      → Shown x s c r
      → s.commands_ctx ≡ sign_tx x
      → x.state ≡ approved
      → Keeps x.p2pk c
      → Reacts s
          (result_of (
            then_do
              (then_do (when (not (r.0 == sw_ok)) (handler_err d r.0) r.1) (λ _. ret tt))
              k)).1
  unfolding handler_err app_set_current_command
  Shown-Reacts x c r k (shown c' ok context keeps command replied) e h kept = rw ok (
      went (record {
        before = x;
        after = record x { p2pk = c' };
        context = e;
        is_approved = h;
        context' = context;
        stays_approved = h;
        same_session = refl;
        same_command = command;
        keeps = Keeps-trans x.p2pk c c' kept keeps;
        replied = replied;
      }))
  Shown-Reacts x c r k (unshown is_error same) e h kept = elim (Bool-cases (r.0 == sw_ok)) [
    | inl ok ↦ absurd (is_error ((==_iff r.0 sw_ok).0 ok))
    | inr bad ↦ rw bad (Reacts-error d s r.0 r.1 ret is_error same)
  ]

  show-Reacts :
      (x : SignTx H) (c : P2pk H)
      → s.commands_ctx ≡ sign_tx x
      → x.state ≡ approved
      → Keeps x.p2pk c
      → Reacts s (show_output_screen_if_needed d (holding d x s c)).1
  unfolding show_output_screen_if_needed
  show-Reacts x c e h keeps =
      elim (Bool-cases (stx_operation_p2pk_should_show_output_confirm_screen d c)) [
        | inr e' ↦ rw e' (Reacts-answer d s x c e h keeps)
        | inl e' ↦ rw e' (
            Shown-Reacts x c (ui_stx_operation_p2pk_show_output_confirm_screen d (holding d x s c))
              _ (output-Shown d x s c) e h keeps)
      ]

  operate_and_show-Reacts :
      (op : OpCall) (x : SignTx H) (c : P2pk H)
      → s.commands_ctx ≡ sign_tx x
      → x.state ≡ approved
      → Keeps x.p2pk c
      → Reacts s
          (function
            (do check_call_result_sw_ok d (operate d op); call (show_output_screen_if_needed d))
            (holding d x s c)).1
  operate_and_show-Reacts op x c e h kept =
      Reacts-operate d s x c op _
        (λ c' keeps. show-Reacts x c' e h (Keeps-trans x.p2pk c c' kept keeps))

  call_and_show-Reacts :
      (op : OpCall)
      → Reacts s
          (function
            (do
              check_approved d
              check_call_result_sw_ok d (operate d op)
              call (show_output_screen_if_needed d))
            s).1
  call_and_show-Reacts op =
      Reacts-approved d s s.commands_ctx _
        (λ x e h. operate_and_show-Reacts op x x.p2pk e h (Keeps-refl x.p2pk))

  pub handle_output_tree_chunk-Reacts : (b : Buffer) → Reacts s (handle_output_tree_chunk d b s).1
  unfolding handle_output_tree_chunk operate
  handle_output_tree_chunk-Reacts b = call_and_show-Reacts (OpCall.tree_chunk b)

  pub handle_output_tokens-Reacts : (b : Buffer) → Reacts s (handle_output_tokens d b s).1
  unfolding handle_output_tokens operate
  handle_output_tokens-Reacts b = call_and_show-Reacts (OpCall.output_tokens b)

  pub handle_output_registers-Reacts : (b : Buffer) → Reacts s (handle_output_registers d b s).1
  unfolding handle_output_registers operate
  handle_output_registers-Reacts b = call_and_show-Reacts (OpCall.output_registers b)

  pub handle_output_tree_fee-Reacts : (b : Buffer) → Reacts s (handle_output_tree_fee d b s).1
  unfolding handle_output_tree_fee operate
  handle_output_tree_fee-Reacts b = Reacts-approved d s s.commands_ctx _ (λ x e h.
      Reacts-when d s (d.bufs.can_read b 1) sw_too_much_data (sign_tx x) _ (λ e. ground arith)
        (operate_and_show-Reacts OpCall.tree_fee x x.p2pk e h (Keeps-refl x.p2pk)))

  pub handle_output_init-Reacts : (b : Buffer) → Reacts s (handle_output_init d b s).1
  unfolding handle_output_init operate
  handle_output_init-Reacts b = Reacts-approved d s s.commands_ctx _ (λ x e h.
      let u = sign_tx x in
      Reacts-read d s (d.bufs.read_u64 b) u _ (λ v. Reacts-read d s (d.bufs.read_u32 v.1) u _ (λ t.
        Reacts-read d s (d.bufs.read_u32 t.1) u _ (λ height.
          Reacts-read d s (d.bufs.read_u8 height.1) u _ (λ k.
            Reacts-read d s (d.bufs.read_u32 k.1) u _ (λ r.
              Reacts-when d s (d.bufs.can_read r.1 1) sw_too_much_data u _ (λ e. ground arith)
                (Reacts-operate d s x x.p2pk (OpCall.output v.0 t.0 height.0 k.0 r.0) _
                  (λ c keeps. Reacts-answer d s x c e h keeps))))))))

  -- The part behind the path of a change output.
  change-Reacts :
      (path : Option (Bip32Path × Buffer)) (x : SignTx H)
      → s.commands_ctx ≡ sign_tx x
      → x.state ≡ approved
      → Reacts s
          (function
            (do
              (path, _) ← check_path d path
              modify (store_output_path d path)
              let (code, public_key) = bip32_public_key d path
              when (not (code == sw_ok)) (handler_err d code)
              check_call_result_sw_ok d (operate d (OpCall.tree_change path public_key))
              call (show_output_screen_if_needed d))
            (holding d x s x.p2pk)).1
  unfolding handler_err app_set_current_command
  change-Reacts none x e h =
      Reacts-error d s sw_buffer_error (holding d x s x.p2pk) ret (λ e. ground arith) refl
  change-Reacts (some (path, _)) x e h =
      let code = (bip32_public_key d path).0 in
      let s' = store_output_path d path (holding d x s x.p2pk) in
      elim (Bool-cases (code == sw_ok)) [
        | inl ok ↦ rw ok (
            operate_and_show-Reacts (OpCall.tree_change path (bip32_public_key d path).1) x
              (p2pk_of d s') e h (record { complete = λ h. h; same_path = refl; same_key = refl }))
        | inr bad ↦ rw bad (Reacts-error d s code s' ret (λ e. ground arith) refl)
      ]

  pub handle_output_tree_change-Reacts : (b : Buffer) → Reacts s (handle_output_tree_change d b s).1
  unfolding handle_output_tree_change operate
  handle_output_tree_change-Reacts b =
      Reacts-approved d s s.commands_ctx _ (λ x e h. change-Reacts (read_bip32_path d b) x e h)

  pub handle_sign_confirm-Reacts : Reacts s (handle_sign_confirm d s).1
  unfolding handle_sign_confirm
  handle_sign_confirm-Reacts =
      Reacts-approved d s s.commands_ctx (λ _. confirm_body)
        (λ x e h.
          subst (λ r. Reacts s r.1) (return_twice (confirm_body (holding d x s x.p2pk)))
            (Shown-Reacts x x.p2pk
              (ui_stx_operation_p2pk_show_confirm_screen d (holding d x s x.p2pk)) (λ _. ret tt)
              (confirm-Shown d x s x.p2pk) e h (Keeps-refl x.p2pk)))
