-- ===== src/DeriveAddress/Handler/Ends.antt =====
-- The ways through the handler of da_handler.c: what holds of its ends holds of it.
use ledger_app_ergo.Prelude.{
  some, ℕ, ◌≡◌, ◌≢◌, refl, arith, length, if◌then◌else◌, Bool, true, false, ◌∷◌, ◌==◌, not, ◌&&◌,
  List, replicate, ap,
}
use ledger_app_ergo.Prelude.Ends.{Ends-when}
use ledger_app_ergo.Sdk.{Buffer}
use ledger_app_ergo.Sw.{
  sw_ok, sw_busy, sw_bip32_bad_path, sw_bip32_formatting_failed, sw_internal_crypto_error,
  sw_not_enough_data, sw_too_much_data, sw_address_generation_failed, sw_address_formatting_failed,
}
use ledger_app_ergo.Helpers.CmdMacros.{reset_with}
use ledger_app_ergo.Helpers.CmdMacros.Answers.{TokenRead, token-TokenRead, Ends-read}
use ledger_app_ergo.Helpers.Crypto.{crypto_generate_public_key, public_key_len}
use ledger_app_ergo.Helpers.Session.{is_known_application}
use ledger_app_ergo.Ergo.Address.{p2pk_address_len, ergo_address_from_pubkey}
use ledger_app_ergo.SignTx.Ui.{ui_display_screens}
use ledger_app_ergo.DeriveAddress.Context.{DeriveAddress}
use ledger_app_ergo.DeriveAddress.Handler.{
  address_screens, is_address_path, is_bad_text, send_response_address, ui_display_address,
  set_context, derive, read_token, handler_derive_address,
}
use ledger_app_ergo.App.{
  derive_address, App, Device, send_sw, cmd_derive_address, app_set_current_command, res_error,
  app_derive_address_context,
}

done : (b : Bool) → not b ≡ false → b ≡ true
done b h = ground arith

ready : (code : ℕ) → not (code == 0) ≡ false → code ≡ 0
ready code h = ground arith

-- The context as the screens show it.
abbrev pub shown : {H : Type 0} → (send : Bool) (token : ℕ) (address : List ℕ) → App H → App H
shown send token address s =
    set_context (λ c. record c { raw_address = address })
      (set_context (λ c. record c { app_token_value = token; send = send }) s)

token_read :
    {H : Type 0} (d : Device H) (has_token : Bool) (b : Buffer) (t : ℕ × Buffer)
    → read_token d has_token b ≡ some t
    → TokenRead d.bufs has_token b t.0 t.1
token_read d true b t e = token-TokenRead d.bufs true b t e
token_read d false b t e = token-TokenRead d.bufs false b t e

-- The message is one for the address of this path on this network, with this token, and has no more
-- bytes.
pub record Requests {H : Type 0} (d : Device H) (b : Buffer) (has_token : Bool) (network : ℕ)
    (path : List ℕ) (len token : ℕ) : Type 0 where
  pub after_network : Buffer
  pub after_len : Buffer
  pub after_path : Buffer
  pub rest : Buffer
  pub network_read : d.bufs.read_u8 b ≡ some (network, after_network)
  pub len_read : d.bufs.read_u8 after_network ≡ some (len, after_len)
  pub path_read : d.bufs.read_bip32_path after_len len ≡ some (path, after_path)
  pub token_is : TokenRead d.bufs has_token after_path token rest
  pub whole : d.bufs.can_read rest 1 ≡ false

module _ {H : Type 0} (d : Device H) (s : App H) (F : App H → Type 0)
    (fails : (code : ℕ) (s1 : App H)
      → code ≢ sw_ok
      → s1.sent ≡ s.sent
      → F (reset_with code s1)) where
  abbrev Ends : (Unit {0}) × App H → Type 0
  Ends r = F r.1

  -- The screens, or a text that cannot be made.
  pub display-Ends :
      (send : Bool) (token : ℕ) (path : List ℕ) (len : ℕ) (address : List ℕ) (s1 : App H)
      → is_address_path path len ≡ true
      → s1.sent ≡ s.sent
      → F (ui_display_screens (address_screens send token) (shown send token address s1)).1
      → F (ui_display_address d send token path len address s1).1
  unfolding ui_display_address
  display-Ends send token path len address s1 is_address same displayed =
      let s2 =
        set_context (λ (c : DeriveAddress). record c { app_token_value = token; send = send }) s1 in
      Ends-when Ends (not (is_address_path path len)) _ s1 _ (λ e. absurd (ground arith))
        (λ _.
          Ends-when Ends (not (d.formats_path path len)) _ s2 _
            (λ _. fails sw_bip32_formatting_failed s2 (λ e. ground arith) same)
            (λ _.
              Ends-when Ends (not send && is_bad_text (d.base58_encode address)) _ s2 _
                (λ _. fails sw_address_formatting_failed s2 (λ e. ground arith) same)
                (λ _. displayed)))

  module _
      (answers : (code : ℕ) (s1 : App H) (c : DeriveAddress)
        → s1.commands_ctx ≡ derive_address c
        → code ≢ sw_ok
        → s1.sent ≡ s.sent
        → F (res_error code s1))
      (display : Bool) (b : Buffer) (has_access_token : Bool)
      (given : (token network : ℕ) (path : List ℕ) (len : ℕ) (array address : List ℕ) (s1 : App H)
        → Requests d b has_access_token network path len token
        → is_address_path path len ≡ true
        → length array ≡ p2pk_address_len
        → s1.sent ≡ s.sent
        → s1.connected_app_id ≡ s.connected_app_id
        → let got = crypto_generate_public_key d.crypto path len (replicate public_key_len 0) in
          got.2 ≡ 0
          → ergo_address_from_pubkey d.hs network got.0 array ≡ (true, address)
          → F
              ((if not display && is_known_application token s1.connected_app_id
                  then send_response_address address
                  else ui_display_address d (not display) token path len address)
                s1).1) where
    derive-Ends :
        (token network : ℕ) (path : List ℕ) (len : ℕ) (s1 : App H)
        → Requests d b has_access_token network path len token
        → length (app_derive_address_context s1).raw_address ≡ p2pk_address_len
        → s1.sent ≡ s.sent
        → s1.connected_app_id ≡ s.connected_app_id
        → F (derive d display token network path len s1).1
    unfolding derive
    derive-Ends token network path len s1 requests size same connected =
        let got = crypto_generate_public_key d.crypto path len (replicate public_key_len 0) in
        let array = (app_derive_address_context s1).raw_address in
        let made = ergo_address_from_pubkey d.hs network got.0 array in
        let s2 = set_context (λ (c : DeriveAddress). record c { raw_address = made.1 }) s1 in
        Ends-when Ends (not (is_address_path path len)) _ s1 _
          (λ _. fails sw_bip32_bad_path s1 (λ e. ground arith) same)
          (λ is_address.
            Ends-when Ends (not (got.2 == 0)) _ s1 _
              (λ _. fails sw_internal_crypto_error s1 (λ e. ground arith) same)
              (λ no_error.
                Ends-when Ends (not made.0) _ s2 _
                  (λ _. answers sw_address_generation_failed s2 _ refl (λ e. ground arith) same)
                  (λ generated.
                    given token network path len array made.1 s2 requests (ground arith) size same
                      connected (ready got.2 no_error)
                      (ap (λ b. (b, made.1)) (done made.0 generated)))))

    pub handler-Ends :
        F (record s { sent = send_sw sw_busy ∷ s.sent })
        → F (handler_derive_address d b display has_access_token s).1
    unfolding handler_derive_address app_set_current_command
    handler-Ends busy =
        Ends-when Ends s.is_ui_busy _ s _ (λ _. busy)
          (λ _.
            let s1 = app_set_current_command cmd_derive_address s in
            let short = fails sw_not_enough_data s1 (λ e. ground arith) refl in
            Ends-read Ends reset_with (d.bufs.read_u8 b) s1 _ short (λ n e1.
              Ends-read Ends reset_with (d.bufs.read_u8 n.1) s1 _ short (λ l e2.
                Ends-read Ends reset_with (d.bufs.read_bip32_path l.1 l.0) s1 _ short (λ p e3.
                  Ends-read Ends reset_with (read_token d has_access_token p.1) s1 _ short (λ t e4.
                    Ends-when Ends (d.bufs.can_read t.1 1) _ s1 _
                      (λ _. fails sw_too_much_data s1 (λ e. ground arith) refl)
                      (λ whole.
                        let requests : Requests d b has_access_token n.0 p.0 l.0 t.0 = record {
                          after_network = n.1;
                          after_len = l.1;
                          after_path = p.1;
                          rest = t.1;
                          network_read = e1;
                          len_read = e2;
                          path_read = e3;
                          token_is = token_read d has_access_token p.1 t e4;
                          whole = whole;
                        } in
                        derive-Ends t.0 n.0 p.0 l.0 s1 requests refl refl refl))))))
