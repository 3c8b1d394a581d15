-- ===== src/Examples/Commands.antt =====
-- The commands beside the signing on the same device.
use ledger_app_ergo.Prelude.{
  inl, take, ℕ, length-take, length-append, length-replicate, ◌≡◌, refl, true, false, List, [], ◌∷◌,
  ◌++◌, replicate, length, arith, zero, suc, ◌<◌, get_or,
}
use ledger_app_ergo.Sdk.{Buffer}
use ledger_app_ergo.Common.Buffer.{buffer_init}
use ledger_app_ergo.Helpers.Crypto.Keys.{KeyLaws}
use ledger_app_ergo.Helpers.InputFrame.{input_frame_data_length}
use ledger_app_ergo.Helpers.CmdMacros.Answers.{Answered}
use ledger_app_ergo.Ergo.TokenTable.{TokenTable}
use ledger_app_ergo.SignTx.Handler.{is_frame_signed}
use ledger_app_ergo.Ergo.Memory.{Shared}
use ledger_app_ergo.Ergo.Box.{fee}
use ledger_app_ergo.AttestInput.Handler.Tokens.{IsListing}
use ledger_app_ergo.AttestInput.Handler.Tokens.Gather.{Token, Gathers, call_each, call_each-Gathers}
use ledger_app_ergo.AttestInput.Context.{
  AmountsOrUi, zero_table, AttestInput, approved, finished, token_amounts, zero_attest_input,
}
use ledger_app_ergo.AttestInput.Response.{send_response_attested_input_frame}
use ledger_app_ergo.AttestInput.Response.Frame.{IsAttested}
use ledger_app_ergo.AttestInput.Response.Chunks.{described}
use ledger_app_ergo.AttestInput.Response.Accepted.{attested_frame-Accepted}
use ledger_app_ergo.AttestInput.Handler.{init, tree_chunk}
use ledger_app_ergo.AttestInput.Messages.{handler_attest_input}
use ledger_app_ergo.AttestInput.Messages.Reacts.{Reacts}
use ledger_app_ergo.AttestInput.Messages.Guard.{handler_attest_input-Reacts}
use ledger_app_ergo.AttestInput.Messages.Start.{Opens, handler_attest_input-Opens}
use ledger_app_ergo.ExtPubKey.Handler.{handler_get_extended_public_key}
use ledger_app_ergo.ExtPubKey.Handler.Exports.{Exports, handler_get_extended_public_key-Exports}
use ledger_app_ergo.DeriveAddress.Handler.{handler_derive_address}
use ledger_app_ergo.DeriveAddress.Handler.Derives.{
  DigestLaws, Derives, handler_derive_address-Derives,
}
use ledger_app_ergo.Dispatcher.{ApduCommand, apdu_dispatcher}
use ledger_app_ergo.Dispatcher.Answers.{Frozen, apdu_dispatcher-Answered, apdu_dispatcher-Frozen}
use ledger_app_ergo.App.{App, attest_input, cmd_attest_input_box, res_ok_data}
use ledger_app_ergo.Examples.Device.{byte_log, list_buffers, list_buffers_laws, list_writes_laws}
use ledger_app_ergo.Examples.Signing.{device, powered, data_of, path_bytes, toy_crypto}

abbrev one_token : TokenTable
one_token = record { count = 1; tokens = replicate 32 7 ∷ [] }

-- A finished attestation of a box with one token.
abbrev attested_box : AttestInput (List ℕ)
attested_box =
    let z = zero_attest_input {H = List ℕ} [] in
    record z {
      mem = record {
        hash = [];
        shared = record { tokens_table = one_token; env = token_amounts (500 ∷ []) };
      };
      session = 9;
      state = finished;
    }

one_token_ids : (i : ℕ) → i < 1 → length (get_or one_token.tokens i []) ≡ 32
one_token_ids zero h = refl
one_token_ids (suc i) h = absurd (omega arith)

attested_box-IsAttested : IsAttested attested_box
attested_box-IsAttested = record { box_id = refl; ids = one_token_ids; count = omega arith }

abbrev one_frame : List ℕ
one_frame =
    let data_bytes = described device attested_box 1 0 in
    data_bytes ++ take 16 (device.crypto.cx_hmac_sha256 [] data_bytes)

attested_frame-Accepted_example :
    (send_response_attested_input_frame device attested_box [] 0 powered
      ≡ (tt, res_ok_data one_frame powered))
    × (input_frame_data_length list_buffers (buffer_init one_frame (length one_frame))
        ≡ length (described device attested_box 1 0))
    × (is_frame_signed device [] (buffer_init one_frame (length one_frame)) ≡ true)
attested_frame-Accepted_example =
    attested_frame-Accepted device list_buffers_laws list_writes_laws attested_box [] 1 0 powered
      attested_box-IsAttested (omega arith, omega arith, inl refl) (omega arith) (omega arith)
      (omega arith) refl

abbrev attesting_app : App (List ℕ)
attesting_app = record powered {
  current_command = cmd_attest_input_box;
  commands_ctx = attest_input (record attested_box { state = approved });
}

handler_attest_input-Reacts_example :
    Reacts device
      (data_of [])
      9
      attesting_app
      (handler_attest_input device (data_of []) tree_chunk 9 attesting_app).1
handler_attest_input-Reacts_example =
    handler_attest_input-Reacts device (data_of []) 9 attesting_app tree_chunk refl
      (λ e. ground arith)

abbrev box_message : Buffer
box_message = data_of (replicate 32 6 ++ replicate 23 1)

handler_attest_input-Opens_example :
    Opens device box_message false powered
      (handler_attest_input device box_message init 1 powered).1
handler_attest_input-Opens_example = handler_attest_input-Opens device powered box_message 1 refl

toy_crypto-KeyLaws : KeyLaws toy_crypto
toy_crypto-KeyLaws = record { point = λ key. refl; chain_code = λ path len. refl }

abbrev account_message : Buffer
account_message = data_of (5 ∷ path_bytes)

handler_get_extended_public_key-Exports_example :
    Exports device account_message false powered
      (handler_get_extended_public_key device account_message false powered).1
handler_get_extended_public_key-Exports_example =
    handler_get_extended_public_key-Exports device account_message false powered toy_crypto-KeyLaws

abbrev address_command : ApduCommand
address_command = record {
  cla = 0xe0;
  ins = 0x11;
  p1 = 1;
  p2 = 1;
  lc = 22;
  bytes = 0 ∷ 5 ∷ path_bytes;
}

apdu_dispatcher-Answered_example :
    Answered powered (apdu_dispatcher device address_command powered).1
apdu_dispatcher-Answered_example = apdu_dispatcher-Answered device powered address_command

abbrev waiting_app : App (List ℕ)
waiting_app = record attesting_app { is_ui_busy = true }

apdu_dispatcher-Frozen_example :
    Frozen waiting_app (apdu_dispatcher device address_command waiting_app).1
apdu_dispatcher-Frozen_example = apdu_dispatcher-Frozen device waiting_app address_command refl

-- The table at the start of an attestation.
abbrev no_tokens_yet : Shared AmountsOrUi
no_tokens_yet = record { tokens_table = zero_table; env = token_amounts (replicate 100 0) }

no_tokens_yet-IsListing : IsListing device no_tokens_yet
no_tokens_yet-IsListing = record {
  table = record { counted = omega arith; memory = refl };
  ids = λ i lt. absurd (omega arith);
  amounts = refl;
  distinct = λ i j lt lt'. absurd (omega arith);
}

-- The last token has the id of the first one.
abbrev three_tokens : List Token
three_tokens = (replicate 32 1, 10) ∷ (replicate 32 2, 20) ∷ (replicate 32 1, 30) ∷ []

call_each-Gathers_example :
    Gathers device three_tokens no_tokens_yet (call_each device fee three_tokens no_tokens_yet)
call_each-Gathers_example =
    call_each-Gathers device fee three_tokens no_tokens_yet (refl, (refl, (refl, tt)))
      no_tokens_yet-IsListing

byte_log-DigestLaws : DigestLaws byte_log
byte_log-DigestLaws = record {
  no_error = λ xs. refl;
  size = λ xs. omega (
    arith,
    length-take 32 (xs ++ replicate 32 0),
    length-append xs (replicate 32 0),
    length-replicate {A = ℕ} 32 0,
  );
}

abbrev address_message : Buffer
address_message = data_of (0 ∷ 5 ∷ path_bytes)

handler_derive_address-Derives_example :
    Derives device address_message false false powered
      (handler_derive_address device address_message false false powered).1
handler_derive_address-Derives_example =
    handler_derive_address-Derives device toy_crypto-KeyLaws byte_log-DigestLaws address_message
      false powered false
