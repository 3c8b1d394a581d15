-- ===== src/Dispatcher/Machine.antt =====
-- The device of src/apdu_dispatcher.c as a machine: messages of the computer and the user's choices
-- on the screens, in any order.
use ledger_app_ergo.Prelude.{
  ℕ, ◌≡◌, ◌≢◌, ◌⊎◌, inl, inr, refl, Bool, true, false, Bool-cases, List, [], ◌∷◌, not, ◌&&◌, arith,
  drop, bit_and, get_or, ◌==◌, if◌then◌else◌, ap,
}
use ledger_app_ergo.Prelude.Flow.{◌>>=◌, ◌>>◌, modify}
use ledger_app_ergo.Sdk.{Buffer}
use ledger_app_ergo.Sw.{sw_ok, sw_buffer_error}
use ledger_app_ergo.Common.RwBuffer.{
  RwBuffer, rw_buffer_new_local_empty, rw_buffer_write_u8, rw_buffer_write_bytes,
}
use ledger_app_ergo.Common.RwBuffer.Contents.{contents}
use ledger_app_ergo.Helpers.CmdMacros.{Step, ret_with, reset_with, check_write_param}
use ledger_app_ergo.Helpers.CmdMacros.Answers.{Ends-write}
use ledger_app_ergo.Helpers.Crypto.{crypto_generate_public_key}
use ledger_app_ergo.Helpers.Session.{is_known_application}
use ledger_app_ergo.Ergo.Address.{p2pk_address_len}
use ledger_app_ergo.Ergo.Full.{ergo_tx_serializer_full_is_finished}
use ledger_app_ergo.SignTx.P2pk.{p2pk_of}
use ledger_app_ergo.SignTx.Ui.{ui_display_screens, ui_stx_operation_execute_action}
use ledger_app_ergo.SignTx.Handler.Decide.{Decided, execute_action-Decided}
use ledger_app_ergo.SignTx.Handler.Sound.{
  final_is_complete, IsSound, zero-IsSound, cleared-IsSound, message-IsSound,
}
use ledger_app_ergo.AttestInput.Handler.{AttestInputSubcommand, ui_action_attest_input}
use ledger_app_ergo.AttestInput.Messages.{handler_attest_input}
use ledger_app_ergo.AttestInput.Messages.Reacts.{Goes, taken, attested, framed}
use ledger_app_ergo.AttestInput.Messages.Guard.{handler_attest_input-Reacts}
use ledger_app_ergo.AttestInput.Messages.Start.{Opens, opened, asks, handler_attest_input-Opens}
use ledger_app_ergo.ExtPubKey.Context.{chain_code_len}
use ledger_app_ergo.ExtPubKey.Handler.{
  extended_public_key_len, send_response_extended_pubkey, ui_action_get_extended_pubkey,
  handler_get_extended_public_key,
}
use ledger_app_ergo.ExtPubKey.Handler.Ends as KeyEnds
use ledger_app_ergo.ExtPubKey.Handler.Exports as KeyScreens
use ledger_app_ergo.DeriveAddress.Handler.{
  send_response_address, ui_action_derive_address, handler_derive_address,
}
use ledger_app_ergo.DeriveAddress.Handler.Ends as AddressEnds
use ledger_app_ergo.DeriveAddress.Handler.Answers as AddressScreens
use ledger_app_ergo.Dispatcher.{ApduCommand, apdu_dispatcher}
use ledger_app_ergo.Dispatcher.Routes.{apdu_dispatcher-Ends}
use ledger_app_ergo.Dispatcher.Answers.{init_or, attest_busy}
use ledger_app_ergo.Menu.{toggle_blind_signing, blind_signing_callback}
use ledger_app_ergo.App.{
  App, Device, send_sw, send_data, sign_tx_view, app_init, app_set_current_command, res_ok_data,
  res_error, cmd_none, app_set_connected_app_id, app_set_ui_busy, app_derive_address_context,
}

-- A message; the decisions on the last screen of a signing, on an attestation, on a key and on an
-- address; a way out of the warning on blind signing; and the switch of the settings.
pub data Event : Type 0 where
  message : ApduCommand → Event
  sign attest export_key give_address leave_warning : Bool → Event
  switch : Event

module _ {H : Type 0} (d : Device H) where
  unfoldable pub respond : Event → App H → App H
  unfolding apdu_dispatcher ui_stx_operation_execute_action ui_action_attest_input
      ui_action_get_extended_pubkey ui_action_derive_address blind_signing_callback
      toggle_blind_signing
  respond (message cmd) s = (apdu_dispatcher d cmd s).1
  respond (sign is_approved) s = ui_stx_operation_execute_action d is_approved s
  respond (attest is_approved) s = ui_action_attest_input d is_approved s
  respond (export_key is_approved) s = ui_action_get_extended_pubkey is_approved s
  respond (give_address is_approved) s = ui_action_derive_address is_approved s
  respond (leave_warning is_settings) s = blind_signing_callback is_settings s
  respond switch s = toggle_blind_signing s

  -- The events in the order of time.
  unfoldable pub respond_all : List Event → App H → App H
  unfolding respond
  respond_all [] s = s
  respond_all (event ∷ events) s = respond_all events (respond event s)

  reset-IsSound : (code : ℕ) (s : App H) → IsSound d (reset_with code s)
  unfolding reset_with app_set_current_command
  reset-IsSound code s = cleared-IsSound d (reset_with code s) refl

  abbrev Sound : (Unit {0}) × App H → Type 0
  Sound r = IsSound d r.1

  send_key-IsSound :
      (key chain_code : List ℕ) (s : App H) → Sound (send_response_extended_pubkey key chain_code s)
  unfolding send_response_extended_pubkey app_set_current_command
  send_key-IsSound key chain_code s =
      let fails = reset-IsSound sw_buffer_error s in
      let tail = λ (r2 : RwBuffer). rw_buffer_write_bytes r2 chain_code chain_code_len in
      let sends : (r2 : RwBuffer) → Step H (Unit {0}) = λ r2. (do
        r3 ← check_write_param (tail r2)
        modify (app_set_current_command cmd_none)
        ret_with (res_ok_data (contents r3))) in
      let body = λ (r1 : RwBuffer). rw_buffer_write_bytes r1 (drop 1 key) 32 in
      let head =
        rw_buffer_write_u8 (rw_buffer_new_local_empty extended_public_key_len)
          (if bit_and (get_or key 64 0) 1 == 0 then 0x02 else 0x03) in
      Ends-write Sound head s (λ r1. do r2 ← check_write_param (body r1); sends r2) fails
        (λ r1 _. Ends-write Sound (body r1) s sends fails (λ r2 _.
          Ends-write Sound (tail r2) s _ fails (λ r3 _.
            cleared-IsSound d (res_ok_data (contents r3) (app_set_current_command cmd_none s))
              refl)))

  send_address-IsSound : (address : List ℕ) (s : App H) → Sound (send_response_address address s)
  unfolding send_response_address app_set_current_command
  send_address-IsSound address s =
      Ends-write Sound
        (rw_buffer_write_bytes (rw_buffer_new_local_empty p2pk_address_len) address
          p2pk_address_len)
        s (λ b. do modify (app_set_current_command cmd_none); ret_with (res_ok_data (contents b)))
        (reset-IsSound sw_buffer_error s)
        (λ b _.
          cleared-IsSound d (res_ok_data (contents b) (app_set_current_command cmd_none s)) refl)

  export-IsSound :
      (s : App H) (b : Buffer) (has_token : Bool)
      → IsSound d s
      → Sound (handler_get_extended_public_key d b has_token s)
  unfolding ui_display_screens
  export-IsSound s b has_token h =
      let fails = λ (code : ℕ) (s1 : App H) (e : code ≢ sw_ok) (same : s1.sent ≡ s.sent).
        reset-IsSound code s1 in
      KeyEnds.handler-Ends d s (IsSound d) fails b has_token
        (λ token path len raw s1 requests is_account size same connected no_error.
          let got = crypto_generate_public_key d.crypto path len raw in
          elim (Bool-cases (is_known_application token s1.connected_app_id)) [
            | inl e ↦ rw e (send_key-IsSound got.0 got.1 s1)
            | inr e ↦ rw e (
                KeyEnds.display-Ends d s (IsSound d) fails token path len got.0 got.1 s1 is_account
                  same (rw (KeyScreens.screens_fit token) (λ e. ground arith)))
          ])
        h

  derive-IsSound :
      (s : App H) (b : Buffer) (display has_token : Bool)
      → IsSound d s
      → Sound (handler_derive_address d b display has_token s)
  unfolding ui_display_screens
  derive-IsSound s b display has_token h =
      let fails = λ (code : ℕ) (s1 : App H) (e : code ≢ sw_ok) (same : s1.sent ≡ s.sent).
        reset-IsSound code s1 in
      AddressEnds.handler-Ends d s (IsSound d) fails
        (λ code s1 c there e same. zero-IsSound d (res_error code s1) (ap (sign_tx_view d) there))
        display b has_token
        (λ token network path len array address s1 requests is_address size same connected no_error
            made.
          elim (Bool-cases (not display && is_known_application token s1.connected_app_id)) [
            | inl e ↦ rw e (send_address-IsSound address s1)
            | inr e ↦ rw e (
                AddressEnds.display-Ends d s (IsSound d) fails (not display) token path len address
                  s1 is_address same
                  (rw (AddressScreens.screens_fit (not display) token) (λ e. ground arith)))
          ])
        h

  goes-IsSound :
      {session : _} {from to : _} (s s' : App H) → Goes session from to s s' → IsSound d s'
  goes-IsSound s s' g = zero-IsSound d s' (ap (sign_tx_view d) g.is_in'.0)

  attested-IsSound :
      {b : _} {session : _} (s s' : App H)
      → ledger_app_ergo.AttestInput.Messages.Reacts.Reacts d b session s s'
      → IsSound d s'
  attested-IsSound s s' (ledger_app_ergo.AttestInput.Messages.Reacts.failed f) =
      cleared-IsSound d s' f.context
  attested-IsSound s s' (taken g e) = goes-IsSound s s' g
  attested-IsSound s s' (attested g h e) = goes-IsSound s s' g
  attested-IsSound s s' (framed g index rest e1 e2 e3 bytes e) = goes-IsSound s s' g

  opened-IsSound : {b : _} {has_token : _} (s s' : App H) → Opens d b has_token s s' → IsSound d s'
  opened-IsSound s s' (Opens.failed f) = cleared-IsSound d s' f.context
  opened-IsSound s s' (opened token c requests some_id connected is_in e command) =
      zero-IsSound d s' (ap (sign_tx_view d) is_in.0)
  opened-IsSound s s' (asks a) = zero-IsSound d s' (ap (sign_tx_view d) a.is_in.0)

  attest-IsSound :
      (s : App H) (b : Buffer) (subcommand : AttestInputSubcommand) (p2 : ℕ)
      → IsSound d s
      → Sound (handler_attest_input d b subcommand p2 s)
  attest-IsSound s b subcommand p2 h = elim (Bool-cases s.is_ui_busy) [
    | inl busy ↦ rw (attest_busy d s b subcommand p2 busy) h
    | inr idle ↦ elim (init_or subcommand) [
      | inl e ↦ rw e (opened-IsSound s _ (handler_attest_input-Opens d s b p2 idle))
      | inr other ↦
          attested-IsSound s _ (handler_attest_input-Reacts d b p2 s subcommand idle other)
    ]
  ]

  apdu_dispatcher-IsSound :
      (cmd : ApduCommand) (s : App H) → IsSound d s → Sound (apdu_dispatcher d cmd s)
  apdu_dispatcher-IsSound cmd s h =
      apdu_dispatcher-Ends d s (IsSound d)
        (record {
          answers = λ reply. h;
          exports = λ b has_token. export-IsSound s b has_token h;
          derives = λ b display has_token. derive-IsSound s b display has_token h;
          attests = λ b subcommand p2. attest-IsSound s b subcommand p2 h;
          signs = λ b subcommand p2. message-IsSound d b subcommand p2 s h;
        })
        cmd

  respond-IsSound : (event : Event) (s : App H) → IsSound d s → IsSound d (respond event s)
  unfolding respond ui_action_attest_input ui_action_get_extended_pubkey ui_action_derive_address
      blind_signing_callback toggle_blind_signing app_set_current_command
  respond-IsSound (message cmd) s h = apdu_dispatcher-IsSound cmd s h
  respond-IsSound (sign is_approved) s h =
      cleared-IsSound d (ui_stx_operation_execute_action d is_approved s)
        (Decided.context (execute_action-Decided d is_approved s))
  respond-IsSound (attest true) s h = λ e. ground arith
  respond-IsSound (attest false) s h = λ e. ground arith
  respond-IsSound (export_key true) s h = λ e. ground arith
  respond-IsSound (export_key false) s h = λ e. ground arith
  respond-IsSound (give_address true) s h = elim (Bool-cases (app_derive_address_context s).send) [
    | inl e ↦ rw e (
        send_address-IsSound (app_derive_address_context s).raw_address (
          app_set_connected_app_id (app_derive_address_context s).app_token_value
            (app_set_ui_busy false s)))
    | inr e ↦ rw e (λ e'. ground arith)
  ]
  respond-IsSound (give_address false) s h = λ e. ground arith
  respond-IsSound (leave_warning true) s h = h
  respond-IsSound (leave_warning false) s h = h
  respond-IsSound switch s h = h

  respond_all-IsSound :
      (events : List Event) (s : App H) → IsSound d s → IsSound d (respond_all events s)
  unfolding respond_all
  respond_all-IsSound [] s h = h
  respond_all-IsSound (event ∷ events) s h =
      respond_all-IsSound events (respond event s) (respond-IsSound event s h)

  -- What the user's approval sends, from a state `s` with this answer.
  abbrev pub SignsComplete : App H → App H → Type 0
  SignsComplete s s' =
      ((signature : List ℕ) × (s'.sent ≡ send_data signature ∷ s.sent)
        × (ergo_tx_serializer_full_is_finished (p2pk_of d s).tx ≡ true))
      ⊎ ((code : ℕ) × (s'.sent ≡ send_sw code ∷ s.sent) × (code ≢ sw_ok))

  -- From a device that has just been initialised and after any messages to the dispatcher, any
  -- decisions on a signing, an attestation, a key and an address, any ways out of the warning on
  -- blind signing and any switches of the setting, in any order: the approval of the user sends a
  -- signature and the transaction's serializer is then in its finished state, or it sends an error
  -- word.
  pub approval-SignsComplete :
      (events : List Event) (s : App H)
      → SignsComplete
          (respond_all events (app_init s))
          (ui_stx_operation_execute_action d true (respond_all events (app_init s)))
  unfolding app_init app_set_current_command
  approval-SignsComplete events s =
      let reached = respond_all events (app_init s) in
      let is_sound =
        respond_all-IsSound events (app_init s) (cleared-IsSound d (app_init s) refl) in
      elim (Decided.answer (execute_action-Decided d true reached)) [
        | inl (signature, e, _, is_final) ↦
            inl (signature, e, is_sound (final_is_complete _ is_final))
        | inr (code, e, h) ↦ inr (code, e, h)
      ]
