-- ===== src/ExtPubKey/Handler/Exports.antt =====
-- When the device gives away an extended public key, and which bytes that are.
use mathlib.Core.Path.{subst}
use ledger_app_ergo.Prelude.{
  ℕ, ◌≡◌, inl, inr, refl, Bool, true, false, Bool-cases, ◌∷◌, ◌==◌, not, arith, ◌∙◌, List,
  replicate, ap, drop, ◌≢◌, ◌++◌, [], length, take, take_all, length-take, length-drop,
  length-append, length-replicate,
}
use ledger_app_ergo.Sdk.{Buffer}
use ledger_app_ergo.Sw.{sw_busy, sw_ok, sw_deny}
use ledger_app_ergo.Common.RwBuffer.{store, rw_buffer_new_local_empty}
use ledger_app_ergo.Common.RwBuffer.Contents.{appended}
use ledger_app_ergo.Common.RwBuffer.Holds.{empty-Holds, appended-Holds}
use ledger_app_ergo.Ergo.ErgoTree.{parity_byte}
use ledger_app_ergo.Ergo.ErgoTree.P2pk.{compressed}
use ledger_app_ergo.Helpers.Crypto.Keys.{KeyLaws, crypto_generate_public_key_sizes}
use ledger_app_ergo.Helpers.CmdMacros.{reset_with}
use ledger_app_ergo.Helpers.Crypto.{crypto_generate_public_key}
use ledger_app_ergo.Helpers.Session.{is_known_application}
use ledger_app_ergo.SignTx.Ui.{is_short_of, ui_display_screens}
use ledger_app_ergo.ExtPubKey.Context.{chain_code_len}
use ledger_app_ergo.ExtPubKey.Handler.{
  extended_public_key_len, is_account_path, account_screens, send_response_extended_pubkey,
  ui_display_account, handler_get_extended_public_key, ui_action_get_extended_pubkey,
}
use ledger_app_ergo.ExtPubKey.Handler.Ends.{Requests, display-Ends, handler-Ends}
use ledger_app_ergo.App.{
  app_set_connected_app_id, App, Device, cmd_none, res_ok_data, send_data, send_sw,
  app_set_current_command,
}

pub screens_fit : (token : ℕ) → is_short_of 2 (account_screens token) ≡ false
screens_fit token = elim (Bool-cases (not (token == 0))) [ inl e ↦ rw e | inr e ↦ rw e ]

-- The key in its compressed form, with its chain code behind it.
abbrev pub account_bytes : (key chain_code : List ℕ) → List ℕ
account_bytes key chain_code = compressed key ++ chain_code

pub send_response_extended_pubkey_lem :
    {H : Type 0} (key chain_code : List ℕ) (s : App H)
    → length key ≡ 65
    → length chain_code ≡ chain_code_len
    → send_response_extended_pubkey key chain_code s
      ≡ (tt, res_ok_data (account_bytes key chain_code) (app_set_current_command cmd_none s))
unfolding send_response_extended_pubkey app_set_current_command store
send_response_extended_pubkey_lem key chain_code s size chain =
    let n = extended_public_key_len in
    let b0 = rw_buffer_new_local_empty n in
    let p = parity_byte key ∷ [] in
    let body = drop 1 key in
    let long : length body ≡ 64 = omega (arith, length-drop 1 key) in
    let x = take 32 body in
    let short : length x ≡ 32 = omega (arith, length-take 32 body) in
    let h0 = empty-Holds (replicate n 0) n (length-replicate {A = ℕ} n 0) (omega arith) in
    let b1 = appended b0 p in
    let h1 = appended-Holds b0 [] p n h0 (omega arith) in
    let b2 = appended b1 x in
    let h2 = appended-Holds b1 p x n h1 (omega (arith, short)) in
    let ls = length-append p x in
    let h3 = appended-Holds b2 (p ++ x) chain_code n h2 (omega (arith, short, chain)) in
    let cut : take 32 chain_code ≡ chain_code = take_all 32 chain_code (omega (arith, chain)) in
    let all : take 65 (store (store (store (replicate n 0) 0 p) 1 x) 33 chain_code)
        ≡ account_bytes key chain_code =
      rw (short, chain) at h3.bytes in
    rw cut (ap (λ t. (tt, res_ok_data t (app_set_current_command cmd_none s))) all)

module _ {H : Type 0} (d : Device H) (b : Buffer) (has_token : Bool) where
  -- The key of the account of Ergo that the message asks for with this token, and its chain code, as
  -- the device derives them.
  pub record IsAccountKey (token : ℕ) (key chain_code : List ℕ) : Type 0 where
    pub path : List ℕ
    pub len : ℕ
    pub raw : List ℕ
    pub requests : Requests d b has_token path len token
    pub is_account : is_account_path path len ≡ true
    pub derived : crypto_generate_public_key d.crypto path len raw ≡ (key, chain_code, 0)

  -- An error word; the key, where the message's token is the id of the connected application; or the
  -- screens, with the key kept for an approval to send, and a denial to drop.
  pub data Exports (s s' : App H) : Type 0 where
    refused : (code : ℕ) → code ≢ sw_ok → s'.sent ≡ send_sw code ∷ s.sent → Exports s s'
    exports :
        (token : ℕ) (key chain_code : List ℕ)
        → IsAccountKey token key chain_code
        → token ≢ 0
        → s.connected_app_id ≡ token
        → s'.sent ≡ send_data (account_bytes key chain_code) ∷ s.sent
        → Exports s s'
    asks :
        (token : ℕ) (key chain_code : List ℕ)
        → IsAccountKey token key chain_code
        → s'.is_ui_busy ≡ true
        → s'.sent ≡ s.sent
        → (ui_action_get_extended_pubkey true s').sent
          ≡ send_data (account_bytes key chain_code) ∷ s.sent
        → (ui_action_get_extended_pubkey true s').connected_app_id ≡ token
        → (ui_action_get_extended_pubkey false s').sent ≡ send_sw sw_deny ∷ s.sent
        → Exports s s'

known_id :
    (token connected : ℕ)
    → is_known_application token connected ≡ true
    → (token ≢ 0) × (connected ≡ token)
unfolding is_known_application
known_id token connected h = (λ e. ground (arith, h, e), ground (arith, h))

module _ {H : Type 0} (d : Device H) (b : Buffer) (has_token : Bool) (s : App H) where
  abbrev Ending : (Unit {0}) × App H → Type 0
  Ending r = Exports d b has_token s r.1

  reset-Exports :
      (code : ℕ) (s1 : App H)
      → code ≢ sw_ok
      → s1.sent ≡ s.sent
      → Exports d b has_token s (reset_with code s1)
  unfolding reset_with app_set_current_command
  reset-Exports code s1 h same = refused code h (rw same)

  module _ (token : ℕ) (key chain_code : List ℕ)
      (is : IsAccountKey d b has_token token key chain_code) (size : length key ≡ 65)
      (chain : length chain_code ≡ 32) (s1 : App H) (same : s1.sent ≡ s.sent) where
    send-Exports :
        is_known_application token s.connected_app_id ≡ true
        → Ending (send_response_extended_pubkey key chain_code s1)
    unfolding app_set_current_command
    send-Exports known = rw (send_response_extended_pubkey_lem key chain_code s1 size chain) (
        let (some_id, connected) = known_id token s.connected_app_id known in
        exports token key chain_code is some_id connected (rw same))

    display-Exports :
        (path : List ℕ) (len : ℕ)
        → is_account_path path len ≡ true
        → Ending (ui_display_account d token path len key chain_code s1)
    unfolding ui_display_screens ui_action_get_extended_pubkey app_set_current_command
    display-Exports path len is_account =
        let sends =
          ap (λ (r : (Unit {0}) × App H). r.1.sent)
            (send_response_extended_pubkey_lem key chain_code s1 size chain) in
        display-Ends d s (Exports d b has_token s) reset-Exports token path len key chain_code s1
          is_account same
          (rw (screens_fit token) (
            asks token key chain_code is refl same
              (sends ∙ ap (λ t. send_data (account_bytes key chain_code) ∷ t) same)
              (ap (λ (r : (Unit {0}) × App H). r.1.connected_app_id)
                (send_response_extended_pubkey_lem key chain_code
                  (app_set_connected_app_id token s1) size chain))
              (rw same)))

  -- Where the SDK gives points of 65 bytes and chain codes of 32, the request for a key ends in
  -- one of three ways. An error word is sent. Or the token that the message has at its end is not
  -- 0 and is the id of the application that was connected, and the key of the account of Ergo that
  -- the message names is sent, compressed and with its chain code. Or the screens are busy and
  -- nothing is sent; an approval then sends exactly those bytes and connects the application of
  -- the message's token, 0 where it has none, and a denial sends the word of a denial.
  pub handler_get_extended_public_key-Exports :
      KeyLaws d.crypto → Exports d b has_token s (handler_get_extended_public_key d b has_token s).1
  handler_get_extended_public_key-Exports laws =
      handler-Ends d s (Exports d b has_token s) reset-Exports b has_token
        (λ token path len raw s1 requests is_account size same connected no_error.
          let got = crypto_generate_public_key d.crypto path len raw in
          let (long, chain) = crypto_generate_public_key_sizes d.crypto laws path len raw size in
          let is : IsAccountKey d b has_token token got.0 got.1 = record {
            path = path;
            len = len;
            raw = raw;
            requests = requests;
            is_account = is_account;
            derived = ap (λ c. (got.0, got.1, c)) no_error;
          } in
          elim (Bool-cases (is_known_application token s1.connected_app_id)) [
            | inl e ↦ rw e (
                send-Exports token got.0 got.1 is long chain s1 same
                  (subst (λ id. is_known_application token id ≡ true) connected e))
            | inr e ↦
                rw e (display-Exports token got.0 got.1 is long chain s1 same path len is_account)
          ])
        (refused sw_busy (λ e. ground arith) refl)
