-- ===== src/Ergo/Memory.antt =====
-- The objects that the serializers' contexts point to: the hash context and the token table (their
-- `hash` and `tokens_table` pointers), and what the callbacks' `void* context` points to.
use ledger_app_ergo.Prelude.{ℕ, Bool, List}
use ledger_app_ergo.Sdk.{HashSdk}
use ledger_app_ergo.Helpers.Blake2b.{blake2b_update}
use ledger_app_ergo.Ergo.TokenTable.{TokenTable}

-- What a callback can reach.
pub record Shared (E : Type 0) : Type 0 where
  pub tokens_table : TokenTable
  pub env : E

pub record Memory (H E : Type 0) : Type 0 where
  pub hash : H
  pub shared : Shared E

module _ {H E : Type 0} (hs : HashSdk H) where
  -- `blake2b_update` on the hash context that is pointed to.
  unfoldable pub update_hash : List ℕ → Memory H E → Bool × Memory H E
  update_hash bytes m = let (ok, h) = blake2b_update hs m.hash bytes in (ok, record m { hash = h })
