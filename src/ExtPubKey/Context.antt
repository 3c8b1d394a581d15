-- ===== src/ExtPubKey/Context.antt =====
-- src/commands/extpubkey/epk_context.h. The texts of the path and of the application's id are left out.
use ledger_app_ergo.Prelude.{ℕ, List, replicate}
use ledger_app_ergo.Helpers.Crypto.{public_key_len}

pub record ExtPubKey : Type 0 where
  pub app_token_value : ℕ
  pub chain_code : List ℕ
  pub raw_public_key : List ℕ

abbrev pub chain_code_len : ℕ
chain_code_len = 32

-- All bytes zero.
abbrev pub zero_ext_pub_key : ExtPubKey
zero_ext_pub_key = record {
  app_token_value = 0;
  chain_code = replicate chain_code_len 0;
  raw_public_key = replicate public_key_len 0;
}
