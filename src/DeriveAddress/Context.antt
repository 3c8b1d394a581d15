-- ===== src/DeriveAddress/Context.antt =====
-- src/commands/deriveaddress/da_context.h. The texts of the path, the address and the application's id
-- are left out.
use ledger_app_ergo.Prelude.{ℕ, Bool, false, List, replicate}
use ledger_app_ergo.Ergo.Address.{p2pk_address_len}

pub record DeriveAddress : Type 0 where
  pub app_token_value : ℕ
  pub raw_address : List ℕ
  pub send : Bool

-- All bytes zero.
abbrev pub zero_derive_address : DeriveAddress
zero_derive_address = record {
  app_token_value = 0;
  raw_address = replicate p2pk_address_len 0;
  send = false;
}
