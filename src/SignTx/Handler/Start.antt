-- ===== src/SignTx/Handler/Start.antt =====
-- How a signing begins: stx_operation_p2pk_init and handle_init_p2pk.
use ledger_app_ergo.Prelude.{
  ℕ, ◌≡◌, ◌≢◌, inl, inr, refl, Bool, true, false, Bool-cases, List, [], ◌∷◌, Option, none, some,
  ◌==◌, ==_iff, not, ◌&&◌, arith, replicate,
}
use ledger_app_ergo.Prelude.Flow.{◌>>◌, ret, modify, when, function, then_do, result_of}
use ledger_app_ergo.Prelude.Ends.{Ends-when}
use ledger_app_ergo.Sdk.{Buffer}
use ledger_app_ergo.Sw.{
  sw_ok, sw_bip32_bad_path, sw_bad_net_type_value, sw_internal_crypto_error, sw_not_enough_data,
  sw_too_much_data, sw_buffer_error, sw_bip32_formatting_failed,
}
use ledger_app_ergo.Common.Bip32.{bip32_hardened, bip32_ergo_coin, address_ge5, bip32_path_validate}
use ledger_app_ergo.Helpers.Crypto.{private_key_len, crypto_generate_private_key}
use ledger_app_ergo.Helpers.Session.{
  network_id_is_supported, session_id_new_random, is_known_application,
}
use ledger_app_ergo.Helpers.CmdMacros.Answers.{TokenRead, token-TokenRead}
use ledger_app_ergo.SignTx.Output.{Bip32Path}
use ledger_app_ergo.SignTx.Context.{P2pkState, approved}
use ledger_app_ergo.SignTx.P2pk.{p2pk_of, sign_init, stx_operation_p2pk_init}
use ledger_app_ergo.SignTx.P2pk.Screens.{no_screens, ui_stx_operation_p2pk_show_token_and_path}
use ledger_app_ergo.SignTx.Ui.{ui_stx_add_operation_approve_screens}
use ledger_app_ergo.SignTx.Handler.{
  Step, handler_err, handle_init_p2pk, new_session, store_path, read_token, read_bip32_path,
  check_path, check_read_param, check_call_result_sw_ok,
}
use ledger_app_ergo.SignTx.Handler.Reacts.{Failed}
use ledger_app_ergo.App.{
  App, Device, app_set_current_command, app_sign_transaction_context, send_data,
}

-- The random bytes that are left when the secret of the Schnorr proof has been drawn.
abbrev random_behind_key : {H : Type 0} → Device H → Bip32Path → App H → List ℕ
random_behind_key d path s =
    let (secret, code) =
      crypto_generate_private_key d.crypto path.path path.len (replicate private_key_len 0) in
    (sign_init d secret s).1.random

-- The result of stx_operation_p2pk_init.
pub data Begun {H : Type 0} (d : Device H) (path : Bip32Path) (network_id : ℕ) (s : App H)
    (r : ℕ × App H) : Type 0 where
  begun :
      r.0 ≡ sw_ok
      → (p2pk_of d r.1).state ≡ P2pkState.initialized
      → (p2pk_of d r.1).bip32 ≡ path
      → (p2pk_of d r.1).network_id ≡ network_id
      → r.1.random ≡ random_behind_key d path s
      → (app_sign_transaction_context d r.1).session ≡ (app_sign_transaction_context d s).session
      → r.1.current_command ≡ s.current_command
      → r.1.sent ≡ s.sent
      → Begun d path network_id s r
  not_begun : r.0 ≢ sw_ok → r.1.sent ≡ s.sent → Begun d path network_id s r

init-Begun :
    {H : Type 0} (d : Device H) (s : App H) (path : Bip32Path) (network_id : ℕ)
    → Begun d path network_id s (stx_operation_p2pk_init d path network_id s)
unfolding stx_operation_p2pk_init
init-Begun d s path network_id =
    let F = Begun d path network_id s in
    let (secret, code) =
      crypto_generate_private_key d.crypto path.path path.len (replicate private_key_len 0) in
    Ends-when F
      (not (
        bip32_path_validate path.path path.len (bip32_hardened 44) (bip32_hardened bip32_ergo_coin)
          address_ge5))
      (ret sw_bip32_bad_path) s _ (λ _. not_begun (λ e. ground arith) refl)
      (λ _.
        Ends-when F (not (network_id_is_supported network_id)) (ret sw_bad_net_type_value) s _
          (λ _. not_begun (λ e. ground arith) refl)
          (λ _.
            Ends-when F (not (code == 0)) (ret sw_internal_crypto_error) s _
              (λ _. not_begun (λ e. ground arith) refl)
              (λ _.
                let inited = sign_init d secret s in
                Ends-when F (not inited.0) _ inited.1 _ (λ _. not_begun (λ e. ground arith) refl)
                  (λ _. begun refl refl refl refl refl refl refl refl))))

token_read :
    {H : Type 0} (d : Device H) (has_token : Bool) (b : Buffer) (t : ℕ × Buffer)
    → read_token d has_token b ≡ some t
    → TokenRead d.bufs has_token b t.0 t.1
token_read d true b t e = token-TokenRead d.bufs true b t e
token_read d false b t e = token-TokenRead d.bufs false b t e

-- The message is one for a signing with the key of this path on this network, with this token, and
-- has no more bytes.
pub record Requests {H : Type 0} (d : Device H) (b : Buffer) (has_token : Bool) (network : ℕ)
    (path : Bip32Path) (token : ℕ) : Type 0 where
  pub after_network : Buffer
  pub after_path : Buffer
  pub rest : Buffer
  pub network_read : d.bufs.read_u8 b ≡ some (network, after_network)
  pub path_read : read_bip32_path d after_network ≡ some (path, after_path)
  pub token_is : TokenRead d.bufs has_token after_path token rest
  pub whole : d.bufs.can_read rest 1 ≡ false

-- A signing has begun with the key of the message, the message's token is the id of the connected
-- application, and the session is the answer. It is drawn behind the secret of the proof.
pub record Started {H : Type 0} (d : Device H) (b : Buffer) (has_token : Bool) (s s' : App H)
    : Type 0 where
  pub network : ℕ
  pub path : Bip32Path
  pub token : ℕ
  pub requests : Requests d b has_token network path token
  pub of_path : (p2pk_of d s').bip32 ≡ path
  pub of_network : (p2pk_of d s').network_id ≡ network
  pub connects : s'.connected_app_id ≡ token
  pub begins : (p2pk_of d s').state ≡ P2pkState.initialized
  pub is_approved : (app_sign_transaction_context d s').state ≡ approved
  pub session :
      (app_sign_transaction_context d s').session
      ≡ (session_id_new_random
          (app_sign_transaction_context d s).session
          (random_behind_key d path s)).0
  pub answer : s'.sent ≡ send_data ((app_sign_transaction_context d s').session ∷ []) ∷ s.sent
  pub command : s'.current_command ≡ s.current_command

pub data Starts {H : Type 0} (d : Device H) (b : Buffer) (has_token : Bool) (s s' : App H)
    : Type 0 where
  failed : Failed s s' → Starts d b has_token s s'
  started : Started d b has_token s s' → Starts d b has_token s s'

module _ {H : Type 0} (d : Device H) (b : Buffer) (has_token : Bool) (s : App H) where
  Starts-error :
      {A : Type 0} (code : ℕ) (s1 : App H) (k : A → Step H (Unit {0}))
      → code ≢ sw_ok
      → s1.sent ≡ s.sent
      → Starts d b has_token s (result_of (then_do (handler_err d code s1) k)).1
  unfolding handler_err app_set_current_command
  Starts-error code s1 k h same = failed (record {
    code = code;
    is_error = h;
    answer = rw same;
    command = refl;
    context = refl;
    idle = refl;
  })

  Starts-show :
      (s1 : App H) (path : Bip32Path) (network token : ℕ) (is_known : Bool)
      → Requests d b has_token network path token
      → Begun d path network s (sw_ok, s1)
      → Starts d b has_token s
          (function
            (do
              modify (new_session d)
              check_call_result_sw_ok d (ui_stx_operation_p2pk_show_token_and_path d token is_known)
              ret tt)
            s1).1
  unfolding ui_stx_operation_p2pk_show_token_and_path ui_stx_add_operation_approve_screens
      handler_err app_set_current_command
  Starts-show s1 path network token is_known requests (not_begun h same) = absurd (h refl)
  Starts-show s1 asked network token is_known requests
        (begun ok state of_path of_network random session command same) =
      let path = (p2pk_of d s1).bip32 in
      elim (Bool-cases (d.formats_path path.path path.len)) [
        | inr e ↦ rw e (
            Starts-error sw_bip32_formatting_failed (no_screens (new_session d s1)) ret
              (λ e. ground arith) same)
        | inl e ↦ elim (Bool-cases (not is_known && not (token == 0))) [
          | inl e' ↦ rw e (
              rw e' (
                started (record {
                  network = network;
                  path = asked;
                  token = token;
                  requests = requests;
                  of_path = of_path;
                  of_network = of_network;
                  connects = refl;
                  begins = state;
                  is_approved = refl;
                  session = rw (session, random);
                  answer = rw same;
                  command = command;
                })))
          | inr e' ↦ rw e (
              rw e' (
                started (record {
                  network = network;
                  path = asked;
                  token = token;
                  requests = requests;
                  of_path = of_path;
                  of_network = of_network;
                  connects = refl;
                  begins = state;
                  is_approved = refl;
                  session = rw (session, random);
                  answer = rw same;
                  command = command;
                })))
        ]
      ]

  Starts-read :
      {A : Type 0} (o : Option A) (s1 : App H) (k : A → Step H (Unit {0}))
      → s1.sent ≡ s.sent
      → ((a : A) → o ≡ some a → Starts d b has_token s (result_of (k a s1)).1)
      → Starts d b has_token s (result_of (then_do (check_read_param d o s1) k)).1
  Starts-read none s1 k same rest = Starts-error sw_not_enough_data s1 k (λ e. ground arith) same
  Starts-read (some a) s1 k same rest = rest a refl

  Starts-path :
      (o : Option (Bip32Path × Buffer)) (k : Bip32Path × Buffer → Step H (Unit {0}))
      → ((p : Bip32Path × Buffer) → o ≡ some p → Starts d b has_token s (result_of (k p s)).1)
      → Starts d b has_token s (result_of (then_do (check_path d o s) k)).1
  Starts-path none k rest = Starts-error sw_buffer_error s k (λ e. ground arith) refl
  Starts-path (some p) k rest = rest p refl

  Starts-Begun :
      (r : ℕ × App H) (path : Bip32Path) (network : ℕ) (k : Unit {0} → Step H (Unit {0}))
      → Begun d path network s r
      → ((s1 : App H)
          → Begun d path network s (sw_ok, s1)
          → Starts d b has_token s (result_of (k tt s1)).1)
      → Starts d b has_token s
          (result_of (then_do (when (not (r.0 == sw_ok)) (handler_err d r.0) r.1) k)).1
  Starts-Begun r path network k (begun ok state of_path of_network random session command same)
        rest =
      rw ok (rest r.1 (begun refl state of_path of_network random session command same))
  Starts-Begun r path network k (not_begun is_error same) rest = elim (Bool-cases (r.0 == sw_ok)) [
    | inl ok ↦ absurd (is_error ((==_iff r.0 sw_ok).0 ok))
    | inr bad ↦ rw bad (Starts-error r.0 r.1 k is_error same)
  ]

  with_path-Begun :
      (path : Bip32Path) (network_id : ℕ)
      → Begun d path network_id s (stx_operation_p2pk_init d path network_id (store_path d path s))
  with_path-Begun path network_id = elim (init-Begun d (store_path d path s) path network_id) [
    | begun ok state of_path of_network random session command same ↦
        begun ok state of_path of_network random session command same
    | not_begun is_error same ↦ not_begun is_error same
  ]

  -- The part behind the parameters.
  finished-Starts :
      (path : Bip32Path) (network_id token : ℕ) (has_more is_known : Bool)
      → (has_more ≡ false → Requests d b has_token network_id path token)
      → Starts d b has_token s
          (function
            (do
              when has_more (handler_err d sw_too_much_data)
              check_call_result_sw_ok d (stx_operation_p2pk_init d path network_id)
              modify (new_session d)
              check_call_result_sw_ok d (ui_stx_operation_p2pk_show_token_and_path d token is_known)
              ret tt)
            (store_path d path s)).1
  finished-Starts path network_id token true is_known requests =
      Starts-error sw_too_much_data (store_path d path s) _ (λ e. ground arith) refl
  finished-Starts path network_id token false is_known requests =
      Starts-Begun (stx_operation_p2pk_init d path network_id (store_path d path s)) path network_id
        _ (with_path-Begun path network_id)
        (λ s1 h. Starts-show s1 path network_id token is_known (requests refl) h)

  pub handle_init_p2pk-Starts :
      (app_session_id : ℕ)
      → Starts d b has_token s (handle_init_p2pk d b has_token app_session_id s).1
  unfolding handle_init_p2pk
  handle_init_p2pk-Starts app_session_id = Starts-read (d.bufs.read_u8 b) s _ refl (λ network e1.
      Starts-path (read_bip32_path d network.1) _ (λ path e2.
        let s1 = store_path d path.0 s in
        Starts-read (read_token d has_token path.1) s1 _ refl (λ token e3.
          finished-Starts path.0 network.0 token.0 (d.bufs.can_read token.1 1)
            (is_known_application app_session_id token.0)
            (λ whole. record {
              after_network = network.1;
              after_path = path.1;
              rest = token.1;
              network_read = e1;
              path_read = e2;
              token_is = token_read d has_token path.1 token e3;
              whole = whole;
            }))))
