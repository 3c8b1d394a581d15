-- ===== src/ExtPubKey/Handler/Ends.antt =====
-- The ways through the handler of epk_handler.c: what holds of its ends holds of it.
use ledger_app_ergo.Prelude.{
  some, ℕ, ◌≡◌, refl, Bool, true, false, ◌∷◌, ◌==◌, not, arith, List, if◌then◌else◌, ◌≢◌, length,
}
use ledger_app_ergo.Prelude.Ends.{Ends-when}
use ledger_app_ergo.Sdk.{Buffer}
use ledger_app_ergo.Sw.{
  sw_bip32_bad_path, sw_bip32_formatting_failed, sw_internal_crypto_error, sw_not_enough_data,
  sw_too_much_data, sw_busy, sw_ok,
}
use ledger_app_ergo.Helpers.CmdMacros.{reset_with}
use ledger_app_ergo.Helpers.CmdMacros.Answers.{TokenRead, token-TokenRead, Ends-read}
use ledger_app_ergo.Helpers.Crypto.{crypto_generate_public_key}
use ledger_app_ergo.Helpers.Session.{is_known_application}
use ledger_app_ergo.SignTx.Ui.{ui_display_screens}
use ledger_app_ergo.ExtPubKey.Handler.{
  is_account_path, account_screens, exported, send_response_extended_pubkey, ui_display_account,
  set_context, store_key, export_account, read_token, handler_get_extended_public_key,
}
use ledger_app_ergo.App.{
  App, Device, send_sw, app_extended_public_key_context, app_set_current_command,
  cmd_get_extended_public_key,
}

zero_code : (code : ℕ) → not (code == 0) ≡ false → code ≡ 0
zero_code code h = ground arith

token_read :
    {H : Type 0} (d : Device H) (has_token : Bool) (b : Buffer) (t : ℕ × Buffer)
    → read_token d has_token b ≡ some t
    → TokenRead d.bufs has_token b t.0 t.1
token_read d true b t e = token-TokenRead d.bufs true b t e
token_read d false b t e = token-TokenRead d.bufs false b t e

-- The message is one for the key of this path, with this token, and has no more bytes.
pub record Requests {H : Type 0} (d : Device H) (b : Buffer) (has_token : Bool) (path : List ℕ)
    (len token : ℕ) : Type 0 where
  pub after_len : Buffer
  pub after_path : Buffer
  pub rest : Buffer
  pub len_read : d.bufs.read_u8 b ≡ some (len, after_len)
  pub path_read : d.bufs.read_bip32_path after_len len ≡ some (path, after_path)
  pub token_is : TokenRead d.bufs has_token after_path token rest
  pub whole : d.bufs.can_read rest 1 ≡ false

module _ {H : Type 0} (d : Device H) (s : App H) (F : App H → Type 0)
    (fails : (code : ℕ) (s1 : App H)
      → code ≢ sw_ok
      → s1.sent ≡ s.sent
      → F (reset_with code s1)) where
  abbrev Ends : (Unit {0}) × App H → Type 0
  Ends r = F r.1

  -- The screens, or no text for the path.
  pub display-Ends :
      (token : ℕ) (path : List ℕ) (len : ℕ) (key chain_code : List ℕ) (s1 : App H)
      → is_account_path path len ≡ true
      → s1.sent ≡ s.sent
      → F
          (ui_display_screens
            (account_screens token)
            (set_context (exported token key chain_code) s1)).1
      → F (ui_display_account d token path len key chain_code s1).1
  unfolding ui_display_account
  display-Ends token path len key chain_code s1 is_account same shown =
      Ends-when Ends (not (is_account_path path len)) _ s1 _ (λ e. absurd (ground arith))
        (λ _.
          Ends-when Ends (not (d.formats_path path len)) _ s1 _
            (λ _. fails sw_bip32_formatting_failed s1 (λ e. ground arith) same) (λ _. shown))

  module _ (b : Buffer) (has_access_token : Bool)
      (given : (token : ℕ) (path : List ℕ) (len : ℕ) (raw : List ℕ) (s1 : App H)
        → Requests d b has_access_token path len token
        → is_account_path path len ≡ true
        → length raw ≡ 65
        → s1.sent ≡ s.sent
        → s1.connected_app_id ≡ s.connected_app_id
        → let got = crypto_generate_public_key d.crypto path len raw in
          got.2 ≡ 0
          → F
              ((if is_known_application token s1.connected_app_id
                  then send_response_extended_pubkey got.0 got.1
                  else ui_display_account d token path len got.0 got.1)
                s1).1) where
    export_account-Ends :
        (token : ℕ) (path : List ℕ) (len : ℕ) (s1 : App H)
        → Requests d b has_access_token path len token
        → length (app_extended_public_key_context s1).raw_public_key ≡ 65
        → s1.sent ≡ s.sent
        → s1.connected_app_id ≡ s.connected_app_id
        → F (export_account d token path len s1).1
    unfolding export_account
    export_account-Ends token path len s1 requests size same connected =
        let raw = (app_extended_public_key_context s1).raw_public_key in
        let got = crypto_generate_public_key d.crypto path len raw in
        let s2 = store_key d got.0 got.1 s1 in
        Ends-when Ends (not (is_account_path path len)) _ s1 _
          (λ _. fails sw_bip32_bad_path s1 (λ e. ground arith) same)
          (λ is_account.
            Ends-when Ends (not (got.2 == 0)) _ s2 _
              (λ _. fails sw_internal_crypto_error s2 (λ e. ground arith) same)
              (λ no_error.
                given token path len raw s2 requests (ground arith) size same connected
                  (zero_code got.2 no_error)))

    pub handler-Ends :
        F (record s { sent = send_sw sw_busy ∷ s.sent })
        → F (handler_get_extended_public_key d b has_access_token s).1
    unfolding handler_get_extended_public_key app_set_current_command
    handler-Ends busy =
        Ends-when Ends s.is_ui_busy _ s _ (λ _. busy)
          (λ _.
            let s1 = app_set_current_command cmd_get_extended_public_key s in
            let short = fails sw_not_enough_data s1 (λ e. ground arith) refl in
            Ends-read Ends reset_with (d.bufs.read_u8 b) s1 _ short (λ l e1.
              Ends-read Ends reset_with (d.bufs.read_bip32_path l.1 l.0) s1 _ short (λ p e2.
                Ends-read Ends reset_with (read_token d has_access_token p.1) s1 _ short (λ t e3.
                  Ends-when Ends (d.bufs.can_read t.1 1) _ s1 _
                    (λ _. fails sw_too_much_data s1 (λ e. ground arith) refl)
                    (λ whole.
                      let requests : Requests d b has_access_token p.0 l.0 t.0 = record {
                        after_len = l.1;
                        after_path = p.1;
                        rest = t.1;
                        len_read = e1;
                        path_read = e2;
                        token_is = token_read d has_access_token p.1 t e3;
                        whole = whole;
                      } in
                      export_account-Ends t.0 p.0 l.0 s1 requests refl refl refl)))))
