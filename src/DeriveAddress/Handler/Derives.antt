-- ===== src/DeriveAddress/Handler/Derives.antt =====
-- Which address the device gives, and when.
use mathlib.Core.Path.{subst}
use ledger_app_ergo.Prelude.{
  ℕ, ◌≡◌, ◌≢◌, refl, arith, sym, length, [], ◌++◌, take, take_all, length-take, length-drop,
  length-append, length-replicate, drop, if◌then◌else◌, ◌∙◌, Bool, true, false, Bool-cases, inl,
  inr, ◌∷◌, not, ◌&&◌, List, replicate, ap,
}
use ledger_app_ergo.Sdk.{Buffer, HashSdk}
use ledger_app_ergo.Sw.{sw_ok, sw_deny, sw_busy}
use ledger_app_ergo.Ergo.Address.{p2pk, prefix_byte}
use ledger_app_ergo.Ergo.Address.Layout.{p2pk_address_layout}
use ledger_app_ergo.Helpers.Session.{network_id_is_valid}
use ledger_app_ergo.Ergo.ErgoTree.P2pk.{compressed}
use ledger_app_ergo.DeriveAddress.Handler.Ends.{Requests, shown, display-Ends, handler-Ends}
use ledger_app_ergo.DeriveAddress.Handler.Answers.{screens_fit}
use ledger_app_ergo.Common.RwBuffer.{store, rw_buffer_new_local_empty}
use ledger_app_ergo.Helpers.CmdMacros.{reset_with}
use ledger_app_ergo.Common.RwBuffer.Holds.{empty-Holds, appended-Holds}
use ledger_app_ergo.Helpers.Crypto.Keys.{KeyLaws, crypto_generate_public_key_sizes}
use ledger_app_ergo.Helpers.Crypto.{crypto_generate_public_key, public_key_len}
use ledger_app_ergo.Helpers.Session.{is_known_application}
use ledger_app_ergo.Ergo.Address.{p2pk_address_len}
use ledger_app_ergo.SignTx.Ui.{ui_display_screens}
use ledger_app_ergo.DeriveAddress.Handler.{
  is_address_path, send_response_address, ui_display_address, ui_action_derive_address,
  handler_derive_address,
}
use ledger_app_ergo.App.{
  app_set_connected_app_id, App, Device, res_ok_data, cmd_none, send_data, send_sw,
  app_set_current_command,
}

-- The SDK's hash of 256 bits makes 32 bytes and no error.
pub record DigestLaws {H : Type 0} (sdk : HashSdk H) : Type 0 where
  pub no_error : (xs : List ℕ) → (sdk.cx_blake2b_256_hash xs).1 ≡ sdk.cx_ok
  pub size : (xs : List ℕ) → length (sdk.cx_blake2b_256_hash xs).0 ≡ 32

pub send_response_address_lem :
    {H : Type 0} (address : List ℕ) (s : App H)
    → length address ≡ p2pk_address_len
    → send_response_address address s
      ≡ (tt, res_ok_data address (app_set_current_command cmd_none s))
unfolding send_response_address app_set_current_command store
send_response_address_lem address s size =
    let n = p2pk_address_len in
    let b0 = rw_buffer_new_local_empty n in
    let h0 = empty-Holds (replicate n 0) n (length-replicate {A = ℕ} n 0) (omega arith) in
    let h1 = appended-Holds b0 [] address n h0 (omega (arith, size)) in
    let cut : take n address ≡ address = take_all n address (omega (arith, size)) in
    let all : take n (store (replicate n 0) 0 address) ≡ address = rw size at h1.bytes in
    rw cut (ap (λ t. (tt, res_ok_data t (app_set_current_command cmd_none s))) all)

module _ {H : Type 0} (d : Device H) where
  -- The prefix, the compressed key and the first four bytes of their digest.
  abbrev pub address_of : (network : ℕ) (key : List ℕ) → List ℕ
  address_of network key =
      let bytes = prefix_byte p2pk network ∷ compressed key in
      bytes ++ take 4 (d.hs.cx_blake2b_256_hash bytes).0

  -- The address that the message asks for with this token: that of a key of Ergo that the device
  -- derives, on a network that there is.
  pub record IsAddress (b : Buffer) (has_token : Bool) (token : ℕ) (address : List ℕ) : Type 0 where
    pub path : List ℕ
    pub len : ℕ
    pub network : ℕ
    pub requests : Requests d b has_token network path len token
    pub key : List ℕ
    pub chain_code : List ℕ
    pub is_for_address : is_address_path path len ≡ true
    pub is_valid : network_id_is_valid network ≡ true
    pub derived :
        crypto_generate_public_key d.crypto path len (replicate public_key_len 0)
        ≡ (key, chain_code, 0)
    pub layout : address ≡ address_of network key

  -- An error word; the address, where the message's token is the id of the connected application; or
  -- the screens, whose approval sends the address unless it was to be displayed.
  pub data Derives (b : Buffer) (display has_token : Bool) (s s' : App H) : Type 0 where
    refused :
        (code : ℕ)
        → code ≢ sw_ok
        → s'.sent ≡ send_sw code ∷ s.sent
        → Derives b display has_token s s'
    sends :
        (token : ℕ) (address : List ℕ)
        → IsAddress b has_token token address
        → display ≡ false
        → token ≢ 0
        → s.connected_app_id ≡ token
        → s'.sent ≡ send_data address ∷ s.sent
        → Derives b display has_token s s'
    asks :
        (token : ℕ) (address : List ℕ)
        → IsAddress b has_token token address
        → s'.is_ui_busy ≡ true
        → s'.sent ≡ s.sent
        → (ui_action_derive_address true s').sent
          ≡ (if display then send_sw sw_ok else send_data address) ∷ s.sent
        → (ui_action_derive_address true s').connected_app_id ≡ token
        → (ui_action_derive_address false s').sent ≡ send_sw sw_deny ∷ s.sent
        → Derives b display has_token s s'

known_connected :
    (display : Bool) (token connected : ℕ)
    → (not display && is_known_application token connected) ≡ true
    → (display ≡ false) × (token ≢ 0) × (connected ≡ token)
unfolding is_known_application
known_connected display token connected h =
    (ground (arith, h), λ e. ground (arith, h, e), ground (arith, h))

valid_or :
    (b : Bool) (x y address : List ℕ)
    → let result : Bool × List ℕ = if b then (true, x) else (false, y) in
      result ≡ (true, address) → (b ≡ true) × (address ≡ x)
valid_or true x y address e = (refl, sym (ap (λ (p : Bool × List ℕ). p.1) e))
valid_or false x y address e =
    let bad : false ≡ true = ap (λ (p : Bool × List ℕ). p.0) e in absurd (ground arith)

-- The sum of the parts' lengths.
length-address_of :
    {H : Type 0} (d : Device H) (network : ℕ) (key : List ℕ)
    → DigestLaws d.hs
    → length key ≡ 65
    → length (address_of d network key) ≡ p2pk_address_len
length-address_of d network key digests size =
    let bytes = prefix_byte p2pk network ∷ compressed key in
    let digest = (d.hs.cx_blake2b_256_hash bytes).0 in
    omega (
      arith,
      size,
      digests.size bytes,
      length-drop 1 key,
      length-take 32 (drop 1 key),
      length-take 4 digest,
      length-append bytes (take 4 digest),
    )

module _ {H : Type 0} where
  -- The decision on the screens, when the address was to be shown or sent.
  approval_sends :
      (display : Bool) (address : List ℕ) (s s1 : App H) (token : ℕ)
      → length address ≡ p2pk_address_len
      → s1.sent ≡ s.sent
      → (ui_action_derive_address true
          (record (shown (not display) token address s1) { is_ui_busy = true })).sent
        ≡ (if display then send_sw sw_ok else send_data address) ∷ s.sent
  unfolding ui_action_derive_address app_set_current_command
  approval_sends true address s s1 token size same = ap (λ t. send_sw sw_ok ∷ t) same
  approval_sends false address s s1 token size same =
      ap (λ (r : (Unit {0}) × App H). r.1.sent) (send_response_address_lem address s1 size)
      ∙ ap (λ t. send_data address ∷ t) same

  approval_connects :
      (display : Bool) (address : List ℕ) (s1 : App H) (token : ℕ)
      → length address ≡ p2pk_address_len
      → (ui_action_derive_address true
          (record (shown (not display) token address s1) { is_ui_busy = true })).connected_app_id
        ≡ token
  unfolding ui_action_derive_address app_set_current_command
  approval_connects true address s1 token size = refl
  approval_connects false address s1 token size =
      ap (λ (r : (Unit {0}) × App H). r.1.connected_app_id)
        (send_response_address_lem address (app_set_connected_app_id token s1) size)

  denial_sends :
      (send : Bool) (address : List ℕ) (s s1 : App H) (token : ℕ)
      → s1.sent ≡ s.sent
      → (ui_action_derive_address false
          (record (shown send token address s1) { is_ui_busy = true })).sent
        ≡ send_sw sw_deny ∷ s.sent
  unfolding ui_action_derive_address app_set_current_command
  denial_sends send address s s1 token same = ap (λ t. send_sw sw_deny ∷ t) same

module _ {H : Type 0} (d : Device H) (keys : KeyLaws d.crypto) (digests : DigestLaws d.hs)
    (b : Buffer) (has_access_token : Bool) (s : App H) where
  reset-Derives :
      (display : Bool) (code : ℕ) (s1 : App H)
      → code ≢ sw_ok
      → s1.sent ≡ s.sent
      → Derives d b display has_access_token s (reset_with code s1)
  unfolding reset_with app_set_current_command
  reset-Derives display code s1 h same = refused code h (rw same)

  module _ (display : Bool) (token : ℕ) (address : List ℕ)
      (is : IsAddress d b has_access_token token address) (size : length address ≡ p2pk_address_len)
      (s1 : App H) (same : s1.sent ≡ s.sent) where
    send-Derives :
        (not display && is_known_application token s.connected_app_id) ≡ true
        → Derives d b display has_access_token s (send_response_address address s1).1
    unfolding app_set_current_command
    send-Derives known = rw (send_response_address_lem address s1 size) (
        let (sending, some_id, connected) =
          known_connected display token s.connected_app_id known in
        sends token address is sending some_id connected (rw same))

    display-Derives :
        (path : List ℕ) (len : ℕ)
        → is_address_path path len ≡ true
        → Derives d b display has_access_token s
            (ui_display_address d (not display) token path len address s1).1
    unfolding ui_display_screens
    display-Derives path len is_address =
        display-Ends d s (Derives d b display has_access_token s) (reset-Derives display)
          (not display) token path len address s1 is_address same
          (rw (screens_fit (not display) token) (
            asks token address is refl same (approval_sends display address s s1 token size same)
              (approval_connects display address s1 token size)
              (denial_sends (not display) address s s1 token same)))

  -- Where the SDK gives points of 65 bytes, chain codes of 32 and digests of 32 without error, the
  -- request for an address ends in one of three ways. An error word is sent. Or an address is sent
  -- that was not to be displayed, and the token that the message has at its end is not 0 and is
  -- the id of the application that was connected. Or the screens are busy and nothing is sent; an
  -- approval then sends SW_OK if the address was to be displayed and else the address, and
  -- connects the application of the message's token, 0 where it has none, and a denial sends the
  -- word of a denial. Any such address is the prefix of the message's network, which is valid, the
  -- compressed key that the device derives for the address path of Ergo in the message, and the
  -- first four bytes of the digest of both.
  pub handler_derive_address-Derives :
      (display : Bool)
      → Derives d b display has_access_token s
          (handler_derive_address d b display has_access_token s).1
  handler_derive_address-Derives display =
      handler-Ends d s (Derives d b display has_access_token s) (reset-Derives display)
        (λ code s1 c there h same. refused code h (ap (λ t. send_sw code ∷ t) same)) display b
        has_access_token
        (λ token network path len array address s1 requests is_address size same connected no_error
            made.
          let got = crypto_generate_public_key d.crypto path len (replicate public_key_len 0) in
          let (long, chain) =
            crypto_generate_public_key_sizes d.crypto keys path len (replicate public_key_len 0)
              refl in
          let bytes = prefix_byte p2pk network ∷ compressed got.0 in
          let digest = (d.hs.cx_blake2b_256_hash bytes).0 in
          let laid =
            p2pk_address_layout d.hs network got.0 array digest long size
              (ap (λ c. (digest, c)) (digests.no_error bytes))
              (omega (arith, digests.size bytes)) in
          let (valid, layout) =
            valid_or (network_id_is_valid network) (address_of d network got.0) array address
              (sym laid.0 ∙ made) in
          let is : IsAddress d b has_access_token token address = record {
            requests = requests;
            path = path;
            len = len;
            network = network;
            key = got.0;
            chain_code = got.1;
            is_for_address = is_address;
            is_valid = valid;
            derived = ap (λ c. (got.0, got.1, c)) no_error;
            layout = layout;
          } in
          let whole : length address ≡ p2pk_address_len =
            ap length layout ∙ length-address_of d network got.0 digests long in
          elim (Bool-cases (not display && is_known_application token s1.connected_app_id)) [
            | inl e ↦ rw e (
                send-Derives display token address is whole s1 same
                  (subst (λ id. (not display && is_known_application token id) ≡ true) connected e))
            | inr e ↦
                rw e (display-Derives display token address is whole s1 same path len is_address)
          ])
        (refused sw_busy (λ e. ground arith) refl)
