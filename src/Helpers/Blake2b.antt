-- ===== src/Helpers/Blake2b.antt =====
-- src/helpers/blake2b.c over the SDK's hash functions.
use ledger_app_ergo.Prelude.{ℕ, Bool, List, [], ◌==◌, ◌≡◌, arith, true}
use ledger_app_ergo.Sdk.{HashSdk}
use ledger_app_ergo.Sdk.Laws.{HashLaws}

module _ {H : Type 0} (sdk : HashSdk H) where
  unfoldable pub blake2b_256_init : H → Bool × H
  blake2b_256_init ctx =
      let (ctx', code) = sdk.cx_blake2b_init_no_throw ctx 256 in (code == sdk.cx_ok, ctx')

  unfoldable pub blake2b_update : H → List ℕ → Bool × H
  blake2b_update ctx bytes =
      let (ctx', _, code) = sdk.cx_hash_no_throw ctx 0 bytes 0 in (code == sdk.cx_ok, ctx')

  -- The result, the digest and the context.
  unfoldable pub blake2b_256_finalize : H → Bool × List ℕ × H
  blake2b_256_finalize ctx =
      let (ctx', out, code) = sdk.cx_hash_no_throw ctx sdk.cx_last_no_reinit [] 32 in
      (code == sdk.cx_ok, out, ctx')

  unfoldable pub blake2b_256 : List ℕ → Bool × List ℕ
  blake2b_256 bytes = let (out, code) = sdk.cx_blake2b_256_hash bytes in (code == sdk.cx_ok, out)

  pub blake2b_update_lem :
      (laws : HashLaws sdk) (h : H) (bytes : List ℕ)
      → blake2b_update h bytes ≡ (true, laws.absorb h bytes)
  unfolding blake2b_update
  blake2b_update_lem laws h bytes = ground (arith, laws.update_lem h bytes)
