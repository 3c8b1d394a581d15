-- ===== src/SignTx/Context.antt =====
-- src/commands/signtx/operations/stx_op_p2pk.h, stx_types.h and stx_context.h: what a signing keeps.
-- The texts and titles of the screens are left out.
use ledger_app_ergo.Prelude.{ℕ, List, replicate}
use ledger_app_ergo.Ergo.Memory.{Memory, Shared}
use ledger_app_ergo.Ergo.Full.{FullContext, zero_full_context}
use ledger_app_ergo.SignTx.Amounts.{Amounts, AmountsFrame, stx_amounts_init}
use ledger_app_ergo.SignTx.Output.{OutputInfo, Bip32Path, stx_output_info_init}

-- What the callbacks reach through their context beside the token table: `amounts` and
-- `transaction.ui.output`.
pub record P2pkEnv (H : Type 0) : Type 0 where
  pub amounts : Amounts
  pub output : OutputInfo H

pub data P2pkState : Type 0 where
  initialized tx_started inputs_started outputs_started tx_finished finalized error : P2pkState

-- `tx` is `transaction.tx` and `last_approved_change` is `transaction.last_approved_change`; `mem`
-- holds `tx_hash`, `amounts.tokens_table`, `amounts` and `transaction.ui.output`, to which pointers
-- and callbacks lead.
pub record P2pk (H : Type 0) : Type 0 where
  pub state : P2pkState
  pub blind_signing_required : ℕ
  pub schnorr_key : List ℕ
  pub bip32 : Bip32Path
  pub network_id : ℕ
  pub tx : FullContext (P2pkEnv H)
  pub mem : Memory H (P2pkEnv H)
  pub last_approved_change : Bip32Path

pub data SignTxState : Type 0 where
  initialized approved error : SignTxState

pub data Operation : Type 0 where
  p2pk : Operation

-- The application token of the approval screens is `app_token_value`.
pub record SignTx (H : Type 0) : Type 0 where
  pub state : SignTxState
  pub session : ℕ
  pub operation : Operation
  pub p2pk : P2pk H
  pub app_token_value : ℕ

abbrev pub zero_path : Bip32Path
zero_path = record { len = 0; path = replicate 10 0 }

module _ {H : Type 0} (zero_hash : H) where
  abbrev zero_shared : Shared (P2pkEnv H)
  zero_shared =
      let amounts : AmountsFrame = stx_amounts_init in
      record {
        tokens_table = amounts.tokens_table;
        env = record { amounts = amounts.env; output = stx_output_info_init 0 };
      }

  -- All bytes zero.
  abbrev pub zero_p2pk : P2pk H
  zero_p2pk = record {
    state = initialized;
    blind_signing_required = 0;
    schnorr_key = replicate 32 0;
    bip32 = zero_path;
    network_id = 0;
    tx = zero_full_context;
    mem = record { hash = zero_hash; shared = zero_shared };
    last_approved_change = zero_path;
  }

  abbrev pub zero_sign_tx : SignTx H
  zero_sign_tx = record {
    state = initialized;
    session = 0;
    operation = p2pk;
    p2pk = zero_p2pk;
    app_token_value = 0;
  }
