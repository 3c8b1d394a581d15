-- ===== src/AttestInput/Context.antt =====
-- src/commands/attestinput/ainpt_context.h: what an attestation keeps. The text of the application's
-- id is left out.
use ledger_app_ergo.Prelude.{ℕ, List, replicate}
use ledger_app_ergo.Ergo.TokenTable.{TokenTable, token_max_count, ergo_id_len}
use ledger_app_ergo.Ergo.Memory.{Memory, Shared}
use ledger_app_ergo.Ergo.Box.{BoxContext, zero_box_context}

pub data AttestInputState : Type 0 where
  initialized finished approved error : AttestInputState

-- The union of `token_amounts` and `ui`: what was stored last, of `ui` the `app_token_value`.
pub data AmountsOrUi : Type 0 where
  token_amounts : List ℕ → AmountsOrUi
  ui : ℕ → AmountsOrUi

-- `mem` holds `hash`, `tokens_table` and the union, to which the pointer and the callback's context of
-- `box` lead.
pub record AttestInput (H : Type 0) : Type 0 where
  pub box_id : List ℕ
  pub mem : Memory H AmountsOrUi
  pub box : BoxContext AmountsOrUi
  pub box_index : ℕ
  pub session : ℕ
  pub state : AttestInputState

abbrev pub zero_table : TokenTable
zero_table = record { count = 0; tokens = replicate token_max_count (replicate ergo_id_len 0) }

-- All bytes zero.
abbrev pub zero_attest_input : {H : Type 0} → H → AttestInput H
zero_attest_input zero_hash =
    let shared : Shared AmountsOrUi = record {
      tokens_table = zero_table;
      env = token_amounts (replicate token_max_count 0);
    } in
    record {
      box_id = replicate ergo_id_len 0;
      mem = record { hash = zero_hash; shared = shared };
      box = zero_box_context;
      box_index = 0;
      session = 0;
      state = initialized;
    }
