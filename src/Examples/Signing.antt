-- ===== src/Examples/Signing.antt =====
-- A whole signing on a concrete device: one input, one miners' fee output, and the user's approval.
use ledger_app_ergo.Prelude.{
  ℕ, some, ◌≢◌, inl, arith, ◌≡◌, refl, true, false, List, [], ◌∷◌, ◌++◌, replicate, length, take,
}
use ledger_app_ergo.Sdk.{Buffer}
use ledger_app_ergo.Sdk.Crypto.{CryptoSdk, negative}
use ledger_app_ergo.Common.Buffer.{buffer_init}
use ledger_app_ergo.Sdk.Laws.{IsBuffer}
use ledger_app_ergo.Helpers.Session.{session_id_new_random, first_fresh, session_id_new_random_lem}
use ledger_app_ergo.Helpers.InputFrame.{input_frame_data_length, input_frame_data_length_lem}
use ledger_app_ergo.SignTx.Output.{TreeInfo, Bip32Path}
use ledger_app_ergo.SignTx.Context.{zero_path, zero_p2pk, P2pk, P2pkState, SignTx, approved, p2pk}
use ledger_app_ergo.SignTx.P2pk.Settles.{holding, Settles}
use ledger_app_ergo.SignTx.P2pk.Steps.{OpCall, start, operate, Moves}
use ledger_app_ergo.SignTx.P2pk.Steps.All.{operate-Settles}
use ledger_app_ergo.SignTx.Ui.{ui_stx_operation_execute_action}
use ledger_app_ergo.SignTx.Handler.Reacts.{Failed, Reacts}
use ledger_app_ergo.SignTx.Handler.Guard.{
  handler_sign_transaction-Reacts, handler_sign_transaction_unauthorised,
}
use ledger_app_ergo.SignTx.Handler.Start.{Starts}
use ledger_app_ergo.SignTx.Handler.Decide.{Decided, execute_action-Decided}
use ledger_app_ergo.SignTx.Handler.{handle_init_p2pk}
use ledger_app_ergo.SignTx.Handler.Dispatch.{sign_pk, start_tx, handler_sign_transaction}
use ledger_app_ergo.Dispatcher.Machine.{
  Event, message, switch, respond_all, SignsComplete, approval-SignsComplete,
}
use ledger_app_ergo.SignTx.Handler.Sound.{sign_pk-Starts}
use ledger_app_ergo.App.{
  App, Device, cleared, cmd_none, app_init, send_data, sign_tx, cmd_sign_transaction,
  app_set_current_command,
}
use ledger_app_ergo.Examples.Device.{
  list_buffers, list_writes, list_buffers_laws, byte_log, separate,
}

abbrev pub toy_crypto : CryptoSdk
toy_crypto = record {
  cx_ok = 0;
  os_derive_bip32_no_throw = λ path len. (replicate 64 5, replicate 32 8, 0);
  cx_ecfp_init_private_key_no_throw = λ raw. (raw, 0);
  cx_ecfp_generate_pair_no_throw = λ key. (replicate 65 4, 0);
  cx_ecfp_scalar_mult_no_throw = λ point scalar. (replicate 65 2, 0);
  cx_math_is_zero = λ x. false;
  cx_math_cmp_no_throw = λ a b. (negative, 0);
  cx_math_multm_no_throw = λ a b m. (a, 0);
  cx_math_addm_no_throw = λ a b m. (a, 0);
  cx_hmac_sha256 = λ key xs. replicate 32 0;
}

abbrev pub device : Device (List ℕ)
device = record {
  bufs = list_buffers;
  hs = byte_log;
  crypto = toy_crypto;
  layout = separate;
  hash_of = λ info. [];
  path_of = λ info. zero_path;
  word_bytes = λ n. n ∷ 0 ∷ 0 ∷ 0 ∷ [];
  zero_hash = [];
  formats_path = λ path len. true;
  writes = list_writes;
  io_apdu_buffer_size = 260;
  base58_encode = λ address. some 51;
  app_name = 69 ∷ 114 ∷ 103 ∷ 111 ∷ [];
  major_version = 1;
  minor_version = 0;
  patch_version = 5;
  is_debug_build = false;
  amounts_of_ui = λ token. replicate 100 0;
  ui_of_amounts = λ amounts. 0;
}

abbrev pub powered : App (List ℕ)
powered = record {
  connected_app_id = 0;
  session_key = [];
  current_command = cmd_none;
  is_ui_busy = false;
  commands_ctx = cleared;
  blind_signing_enabled = false;
  signtx_screen = 0;
  signtx_outputs_screen = 0;
  random = replicate 16 1 ++ (replicate 32 3 ++ (9 ∷ []));
  sent = [];
}

abbrev pub data_of : List ℕ → Buffer
data_of bytes = buffer_init bytes (length bytes)

abbrev hard_word : ℕ → ℕ → List ℕ
hard_word high low = 0x80 ∷ 0 ∷ high ∷ low ∷ []

abbrev pub path_bytes : List ℕ
path_bytes = hard_word 0 44 ++ (hard_word 1 173 ++ (hard_word 0 0 ++ replicate 8 0))

-- A message to the signing command.
abbrev sign_message : List ℕ → (p1 p2 : ℕ) → Event
sign_message bytes p1 p2 =
    message (record { cla = 0xe0; ins = 0x21; p1 = p1; p2 = p2; lc = length bytes; bytes = bytes })

abbrev pub signing : List Event
signing =
    sign_message (0 ∷ 5 ∷ path_bytes) 0x01 1
    ∷ sign_message ((0 ∷ 1 ∷ 0 ∷ 0 ∷ 0 ∷ 0 ∷ 1 ∷ [])) 0x10 9
    ∷ sign_message
        ((replicate 32 6
          ++ (1 ∷ 0 ∷ replicate 7 0 ++ (200 ∷ 0 ∷ (replicate 16 0 ++ replicate 4 0)))))
        0x12 9
    ∷ sign_message ((replicate 7 0 ++ (100 ∷ 0 ∷ 0 ∷ 0 ∷ 105 ∷ 0 ∷ 0 ∷ 0 ∷ 1 ∷ 0 ∷ replicate 4 0)))
        0x15 9
    ∷ sign_message [] 0x17 9
    ∷ switch
    ∷ sign_message [] 0x20 9
    ∷ []

first_reply :
    (respond_all device (take 1 signing) (app_init powered)).sent ≡ send_data (9 ∷ []) ∷ []
unfolding respond_all app_init handle_init_p2pk
first_reply = refl

-- An operation that the user has approved, at its start.
abbrev approved_sign_tx : SignTx (List ℕ)
approved_sign_tx = record {
  state = approved;
  session = 9;
  operation = p2pk;
  p2pk = zero_p2pk [];
  app_token_value = 0;
}

abbrev one_by_one : OpCall
one_by_one = start 1 0 1 0

operate-Settles_example :
    Settles device approved_sign_tx powered
      (Moves one_by_one (zero_p2pk []))
      (operate device one_by_one (holding device approved_sign_tx powered (zero_p2pk [])))
operate-Settles_example = operate-Settles device approved_sign_tx powered one_by_one (zero_p2pk [])

abbrev start_message : Buffer
start_message = data_of (0 ∷ 1 ∷ 0 ∷ 0 ∷ 0 ∷ 0 ∷ 1 ∷ [])

abbrev signing_app : App (List ℕ)
signing_app = record powered {
  current_command = cmd_sign_transaction;
  commands_ctx = sign_tx approved_sign_tx;
}

handler_sign_transaction-Reacts_example :
    Reacts signing_app (handler_sign_transaction device start_message start_tx 9 signing_app).1
handler_sign_transaction-Reacts_example =
    handler_sign_transaction-Reacts device signing_app start_message start_tx 9 refl
      (λ e. ground arith)

handler_sign_transaction_unauthorised_example :
    Failed signing_app (handler_sign_transaction device start_message start_tx 8 signing_app).1
handler_sign_transaction_unauthorised_example =
    handler_sign_transaction_unauthorised device signing_app start_message start_tx 8 refl
      (λ e. ground arith) refl

approval-SignsComplete_example :
    SignsComplete device
      (respond_all device signing (app_init powered))
      (ui_stx_operation_execute_action device true (respond_all device signing (app_init powered)))
approval-SignsComplete_example = approval-SignsComplete device signing powered

execute_action-Decided_example :
    Decided device true signing_app (ui_stx_operation_execute_action device true signing_app)
execute_action-Decided_example = execute_action-Decided device true signing_app

sign_pk-Starts_example :
    Starts device
      (data_of (0 ∷ 5 ∷ path_bytes))
      false
      (app_set_current_command cmd_sign_transaction powered)
      (handler_sign_transaction device (data_of (0 ∷ 5 ∷ path_bytes)) sign_pk 1 powered).1
sign_pk-Starts_example =
    sign_pk-Starts device (data_of (0 ∷ 5 ∷ path_bytes)) 1 powered refl (inl refl)

-- A change output of another account, after one that has been approved.
abbrev approved_path : Bip32Path
approved_path = record { len = 5; path = 0x8000_002c ∷ 0x8000_01ad ∷ 0x8000_0000 ∷ 0 ∷ 3 ∷ [] }

abbrev other_path : Bip32Path
other_path = record { len = 5; path = 0x8000_002c ∷ 0x8000_01ad ∷ 0x8000_0007 ∷ 1 ∷ 99 ∷ [] }

abbrev change_shown : P2pk (List ℕ)
change_shown =
    let c : P2pk (List ℕ) = zero_p2pk [] in
    let shared = c.mem.shared in
    record c {
      state = P2pkState.outputs_started;
      last_approved_change = approved_path;
      mem = record c.mem {
        shared = record shared {
          env = record shared.env {
            output = record shared.env.output {
              state = 0xc1;
              info = TreeInfo.bip32_path other_path;
            };
          };
        };
      };
    }

abbrev nine : ℕ
nine = 9

session_id_new_random_lem_example :
    ((session_id_new_random 7 (0 ∷ 7 ∷ 9 ∷ [])).0 ≡ nine) × (nine ≢ 0) × (nine ≢ 7)
unfolding first_fresh
session_id_new_random_lem_example = session_id_new_random_lem 7 (0 ∷ 7 ∷ 9 ∷ []) nine refl

abbrev frame : Buffer
frame = data_of (replicate 42 1 ++ (0 ∷ replicate 16 2))

frame-IsBuffer : IsBuffer frame
frame-IsBuffer = record { position = omega arith; within = omega arith; fits = omega arith }

input_frame_data_length_lem_example : input_frame_data_length list_buffers frame ≡ 43
input_frame_data_length_lem_example =
    input_frame_data_length_lem list_buffers list_buffers_laws frame frame-IsBuffer (omega arith)
