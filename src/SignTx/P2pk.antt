-- ===== src/SignTx/P2pk.antt =====
-- src/commands/signtx/operations/stx_op_p2pk.c: checks, callbacks and the start of a signing.
pub mod Inputs
pub mod Outputs
pub mod Confirm
pub mod Screens
pub mod Approval
pub mod Settles
pub mod Steps
use ledger_app_ergo.Prelude.{
  ℕ, Bool, true, false, some, none, List, replicate, ◌==◌, not, ◌||◌, if◌then◌else◌,
}
use ledger_app_ergo.Prelude.Flow.{
  stop, go, Body, Function, ◌>>=◌, ◌>>◌, ret, read, modify, when, call, function,
}
use ledger_app_ergo.Sw.{
  sw_ok, sw_bad_state, sw_bip32_bad_path, sw_bad_net_type_value, sw_internal_crypto_error,
  sw_from_tx_full_result,
}
use ledger_app_ergo.Common.Bip32.{bip32_hardened, bip32_ergo_coin, address_ge5, bip32_path_validate}
use ledger_app_ergo.Helpers.Crypto.{private_key_len, crypto_generate_private_key}
use ledger_app_ergo.Helpers.Session.{network_id_is_supported}
use ledger_app_ergo.Ergo.Memory.{Shared, Memory}
use ledger_app_ergo.Ergo.Input.{InputTokenCb}
use ledger_app_ergo.Ergo.Box.{BoxResult, BoxTypeCb, BoxTokenCb, BoxFinishedCb}
use ledger_app_ergo.Ergo.Full.{
  FullResult, FullContext, FullFrame, ergo_tx_serializer_full_is_finished,
}
use ledger_app_ergo.Ergo.Full.Inputs.{ergo_tx_serializer_full_init}
use ledger_app_ergo.Ergo.Schnorr.{ergo_secp256k1_schnorr_p2pk_sign_init}
use ledger_app_ergo.SignTx.Amounts.{
  Amounts, AmountsFrame, stx_amounts_init, stx_amounts_add_input_token, stx_amounts_add_output,
  stx_amounts_add_output_token,
}
use ledger_app_ergo.SignTx.Output.{
  OutputInfo, Bip32Path, stx_output_info_add_token, stx_output_info_set_box_finished,
}
use ledger_app_ergo.SignTx.Context.{
  P2pkEnv, P2pk, P2pkState, initialized, tx_started, tx_finished, error, SignTx,
}
use ledger_app_ergo.App.{
  App, Device, cmd_none, app_set_current_command, app_sign_transaction_context, set_sign_tx,
}

abbrev pub is_initialized : P2pkState → Bool
is_initialized initialized = true
is_initialized _ = false

abbrev pub is_tx_started : P2pkState → Bool
is_tx_started tx_started = true
is_tx_started _ = false

abbrev pub is_inputs_started : P2pkState → Bool
is_inputs_started P2pkState.inputs_started = true
is_inputs_started _ = false

abbrev pub is_outputs_started : P2pkState → Bool
is_outputs_started P2pkState.outputs_started = true
is_outputs_started _ = false

abbrev pub is_tx_finished : P2pkState → Bool
is_tx_finished tx_finished = true
is_tx_finished _ = false

abbrev pub is_finalized : P2pkState → Bool
is_finalized P2pkState.finalized = true
is_finalized _ = false

-- `if (res != ERGO_TX_SERIALIZER_BOX_RES_OK) return res;`
abbrev return_unless_ok : {S : Type 0} → BoxResult → Body BoxResult S (Unit {0})
return_unless_ok BoxResult.ok = λ s. go tt s
return_unless_ok res = ret res

module _ {H : Type 0} where
  -- Calls on `amounts` with its token table, and on `transaction.ui.output`.
  abbrev pub on_amounts : {R : Type 0} → Function R AmountsFrame → Function R (Shared (P2pkEnv H))
  on_amounts f s =
      let frame : AmountsFrame = record { tokens_table = s.tokens_table; env = s.env.amounts } in
      let (res, after) = f frame in
      (
        res,
        record { tokens_table = after.tokens_table; env = record s.env { amounts = after.env } },
      )

  abbrev pub on_output : {R : Type 0} → Function R (OutputInfo H) → Function R (Shared (P2pkEnv H))
  on_output f s =
      let (res, output) = f s.env.output in
      (res, record s { env = record s.env { output = output } })

  unfoldable pub p2pk_input_token_cb : InputTokenCb (P2pkEnv H)
  unfolding stx_amounts_add_input_token
  p2pk_input_token_cb box_id tn_id value =
      on_amounts (stx_amounts_add_input_token box_id tn_id value)

  unfoldable pub p2pk_output_type_cb : BoxTypeCb (P2pkEnv H)
  unfolding stx_amounts_add_output
  p2pk_output_type_cb type value = on_amounts (stx_amounts_add_output type value)

  unfoldable pub p2pk_output_token_cb : BoxTokenCb (P2pkEnv H)
  unfolding stx_output_info_add_token stx_amounts_add_output_token
  p2pk_output_token_cb type token_id value = function do
    s ← read
    res ← call (on_output (stx_output_info_add_token s.tokens_table token_id value))
    return_unless_ok res
    sum ← call (on_amounts (stx_amounts_add_output_token type token_id value))
    ret sum

module _ {H : Type 0} (d : Device H) where
  unfoldable pub p2pk_output_finished_cb : BoxFinishedCb (P2pkEnv H)
  unfolding stx_output_info_set_box_finished
  p2pk_output_finished_cb type = on_output (stx_output_info_set_box_finished d.hs d.hash_of)

  -- `ctx` and what it holds: the context inside the application's union.
  abbrev pub p2pk_of : App H → P2pk H
  p2pk_of s = (app_sign_transaction_context d s).p2pk

  abbrev pub set_p2pk : P2pk H → App H → App H
  set_p2pk c s = set_sign_tx d (record (app_sign_transaction_context d s) { p2pk = c }) s

  abbrev pub set_state : P2pkState → App H → App H
  set_state state s = set_p2pk (record (p2pk_of s) { state = state }) s

  abbrev pub shared_of : App H → Shared (P2pkEnv H)
  shared_of s = (p2pk_of s).mem.shared

  abbrev pub set_shared : Shared (P2pkEnv H) → App H → App H
  set_shared shared s =
      let c = p2pk_of s in set_p2pk (record c { mem = record c.mem { shared = shared } }) s

  -- `return handler_err(ctx, err);`
  unfoldable pub handler_err : ℕ → Body ℕ (App H) (Unit {0})
  unfolding app_set_current_command
  handler_err err s = stop err (app_set_current_command cmd_none (set_state error s))

  -- `CHECK_PROPER_STATE` and `CHECK_PROPER_STATES`
  abbrev pub check_proper_state : (P2pkState → Bool) → Body ℕ (App H) (Unit {0})
  check_proper_state is s = when (not (is (p2pk_of s).state)) (handler_err sw_bad_state) s

  -- `CHECK_CALL_RESULT_SW_OK`
  abbrev pub check_sw : ℕ → Body ℕ (App H) (Unit {0})
  check_sw code = when (not (code == sw_ok)) (handler_err code)

  abbrev pub check_call_result_sw_ok : Function ℕ (App H) → Body ℕ (App H) (Unit {0})
  check_call_result_sw_ok f = do code ← call f; check_sw code

  -- A call on the transaction serializer, and one on its context alone.
  abbrev pub on_tx : Function FullResult (FullFrame H (P2pkEnv H)) → Function FullResult (App H)
  on_tx f s =
      let c = p2pk_of s in
      let frame : FullFrame H (P2pkEnv H) = record { ctx = c.tx; mem = c.mem } in
      let (res, after) = f frame in (res, set_p2pk (record c { tx = after.ctx; mem = after.mem }) s)

  abbrev pub on_tx_context :
      Function FullResult (FullContext (P2pkEnv H)) → Function FullResult (App H)
  on_tx_context f s =
      let c = p2pk_of s in let (res, tx) = f c.tx in (res, set_p2pk (record c { tx = tx }) s)

  -- `CHECK_TX_CALL_RESULT_OK`
  abbrev pub check_tx_call_result_ok : Function FullResult (App H) → Body ℕ (App H) (Unit {0})
  check_tx_call_result_ok f = do res ← call f; check_sw (sw_from_tx_full_result res)

  -- `CHECK_TX_FINISHED`
  abbrev pub check_tx_finished : Body ℕ (App H) (Unit {0})
  check_tx_finished s =
      when (ergo_tx_serializer_full_is_finished (p2pk_of s).tx) (modify (set_state tx_finished)) s

  abbrev set_schnorr_key : List ℕ → App H → App H
  set_schnorr_key key s = set_p2pk (record (p2pk_of s) { schnorr_key = key }) s

  -- `ergo_secp256k1_schnorr_p2pk_sign_init(&ctx->tx_hash, ctx->schnorr_key, secret)`
  abbrev pub sign_init : (secret : List ℕ) → Function Bool (App H)
  sign_init secret s =
      let c = p2pk_of s in
      let (inited, hash, key, random) =
        ergo_secp256k1_schnorr_p2pk_sign_init d.hs d.crypto c.mem.hash c.schnorr_key secret
          s.random in
      (
        inited,
        record (set_p2pk (record c { mem = record c.mem { hash = hash }; schnorr_key = key }) s) {
          random = random;
        },
      )

  -- What the fresh `secret` holds is never read.
  unfoldable pub stx_operation_p2pk_init : Bip32Path → (network_id : ℕ) → Function ℕ (App H)
  unfolding bip32_path_validate network_id_is_supported crypto_generate_private_key
      ergo_secp256k1_schnorr_p2pk_sign_init
  stx_operation_p2pk_init path network_id = function do
    when
        (not (
          bip32_path_validate path.path path.len (bip32_hardened 44)
            (bip32_hardened bip32_ergo_coin) address_ge5))
        (ret sw_bip32_bad_path)
    when (not (network_id_is_supported network_id)) (ret sw_bad_net_type_value)
    let (secret, code) =
        crypto_generate_private_key d.crypto path.path path.len (replicate private_key_len 0)
    when (not (code == 0)) (ret sw_internal_crypto_error)
    inited ← call (sign_init secret)
    when (not inited)
        do modify (set_schnorr_key (replicate private_key_len 0)); ret sw_internal_crypto_error
    modify (λ s.
        set_p2pk
          (record (p2pk_of s) {
            bip32 = path;
            network_id = network_id;
            state = initialized;
            blind_signing_required = 0;
          })
          s)
    ret sw_ok

  -- `stx_amounts_init(&ctx->amounts);`
  abbrev pub init_amounts : App H → App H
  init_amounts s =
      let shared = shared_of s in
      let amounts : AmountsFrame = stx_amounts_init in
      set_shared
        (record {
          tokens_table = amounts.tokens_table;
          env = record shared.env { amounts = amounts.env };
        })
        s

  unfoldable pub stx_operation_p2pk_start_tx :
      (inputs_count data_inputs_count outputs_count tokens_count : ℕ) → Function ℕ (App H)
  unfolding handler_err ergo_tx_serializer_full_init
  stx_operation_p2pk_start_tx inputs data_inputs outputs tokens = function do
    check_proper_state is_initialized
    check_tx_call_result_ok
        (on_tx (ergo_tx_serializer_full_init d.hs d.layout inputs data_inputs outputs tokens))
    modify init_amounts
    modify (set_state tx_started)
    ret sw_ok
