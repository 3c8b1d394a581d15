-- ===== src/SignTx/Handler/Decide.antt =====
-- How the user's decision on the last screen ends: stx_ui_bagl.c and stx_op_p2pk.c.

use ledger_app_ergo.Prelude.{
  ℕ, ◌≡◌, ◌≢◌, ◌⊎◌, inl, inr, refl, Bool, true, false, List, ◌∷◌, Option, none, some, ◌==◌, not,
  if◌then◌else◌, arith, replicate,
}
use ledger_app_ergo.Sw.{
  sw_ok, sw_deny, sw_bad_state, sw_internal_crypto_error, sw_schnorr_signing_failed,
}
use ledger_app_ergo.Helpers.Crypto.{private_key_len, crypto_generate_private_key}
use ledger_app_ergo.Ergo.Schnorr.{ergo_secp256k1_schnorr_p2pk_sign_finish}
use ledger_app_ergo.SignTx.P2pk.{p2pk_of, is_finalized}
use ledger_app_ergo.SignTx.Ui.{
  send_signature, ui_stx_operation_execute_action, ui_stx_operation_p2pk_send_response,
}
use ledger_app_ergo.App.{
  App, Device, send_sw, send_data, cleared, cmd_none, app_set_ui_busy, app_set_current_command,
}

module _ {H : Type 0} (d : Device H) where
  -- How the user's decision ends.
  pub record Decided (is_approved : Bool) (s s' : App H) : Type 0 where
    pub command : s'.current_command ≡ cmd_none
    pub context : s'.commands_ctx ≡ cleared
    pub idle : s'.is_ui_busy ≡ false
    pub answer :
        ((signature : List ℕ) × (s'.sent ≡ send_data signature ∷ s.sent)
          × (is_approved ≡ true)
          × (is_finalized (p2pk_of d s).state ≡ true))
        ⊎ ((code : ℕ) × (s'.sent ≡ send_sw code ∷ s.sent) × (code ≢ sw_ok))

  abbrev Answers : App H → App H → Type 0
  Answers s s' =
      ((signature : List ℕ) × (s'.sent ≡ send_data signature ∷ s.sent)
        × (true ≡ true)
        × (is_finalized (p2pk_of d s).state ≡ true))
      ⊎ ((code : ℕ) × (s'.sent ≡ send_sw code ∷ s.sent) × (code ≢ sw_ok))

  signature-Answers :
      (signature : Option (List ℕ)) (s s1 : App H)
      → s1.sent ≡ s.sent
      → is_finalized (p2pk_of d s).state ≡ true
      → Answers s (send_signature d signature s1)
  unfolding app_set_current_command
  signature-Answers (some signature) s s1 same h = inl (signature, rw same, refl, h)
  signature-Answers none s s1 same h = inr (sw_schnorr_signing_failed, rw same, λ e. ground arith)

  choose-Answers :
      (is_final has_key : Bool) (s refused keyless signed : App H)
      → is_finalized (p2pk_of d s).state ≡ is_final
      → Answers s refused
      → Answers s keyless
      → (is_finalized (p2pk_of d s).state ≡ true → Answers s signed)
      → Answers s (if not is_final then refused else (if not has_key then keyless else signed))
  choose-Answers false has_key s refused keyless signed h r k f = r
  choose-Answers true false s refused keyless signed h r k f = k
  choose-Answers true true s refused keyless signed h r k f = f h

  response-Answers : (s : App H) → Answers s (ui_stx_operation_p2pk_send_response d s)
  unfolding ui_stx_operation_p2pk_send_response app_set_current_command
  response-Answers s =
      let c = p2pk_of d s in
      let (secret, code) =
        crypto_generate_private_key d.crypto c.bip32.path c.bip32.len
          (replicate private_key_len 0) in
      let signing =
        ergo_secp256k1_schnorr_p2pk_sign_finish d.hs d.crypto c.mem.hash secret c.schnorr_key in
      choose-Answers (is_finalized c.state) (code == 0) s _ _ _ refl
        (inr (sw_bad_state, refl, λ e. ground arith))
        (inr (sw_internal_crypto_error, refl, λ e. ground arith))
        (λ h. signature-Answers signing.0 s _ refl h)

  -- The decision of the user leaves no command, a wiped context and idle screens, and sends one
  -- reply and nothing else: a signature, if the user has approved and the operation was finalized,
  -- or an error word.
  pub execute_action-Decided :
      (is_approved : Bool) (s : App H)
      → Decided is_approved s (ui_stx_operation_execute_action d is_approved s)
  unfolding ui_stx_operation_execute_action app_set_current_command
      ui_stx_operation_p2pk_send_response
  execute_action-Decided false s = record {
    command = refl;
    context = refl;
    idle = refl;
    answer = inr (sw_deny, refl, λ e. ground arith);
  }
  execute_action-Decided true s = record {
    command = refl;
    context = refl;
    idle = refl;
    answer = response-Answers (app_set_ui_busy false s);
  }
