-- ===== src/Ergo/Box/Bytes.antt =====
-- How bytes and numbers join the hash of a box.
use ledger_app_ergo.Prelude.{ℕ, ◌<◌, ◌≡◌, ◌^◌, List}
use ledger_app_ergo.Prelude.Flow.{go}
use ledger_app_ergo.Sdk.{HashSdk}
use ledger_app_ergo.Sdk.Laws.{HashLaws}
use ledger_app_ergo.Helpers.Blake2b.{blake2b_update_lem}
use ledger_app_ergo.Common.RwBuffer.{rw_buffer_new_local_empty}
use ledger_app_ergo.Common.Gve.{gve_put_u64}
use ledger_app_ergo.Common.Gve.Encoding.{vlq, vlq_buffer, gve_put_u64_fresh}
use ledger_app_ergo.Ergo.Memory.{update_hash}
use ledger_app_ergo.Ergo.Box.{BoxFrame}
use ledger_app_ergo.Ergo.Box.Trees.{hash_put, hash_bytes}

module _ {H E : Type 0} (hs : HashSdk H) (laws : HashLaws hs) where
  -- The frame with more bytes in its hash.
  abbrev pub hashed : List ℕ → BoxFrame H E → BoxFrame H E
  hashed bytes s = record s { mem = record s.mem { hash = laws.absorb s.mem.hash bytes } }

  hash_bytes_lem :
      (bytes : List ℕ) (s : BoxFrame H E) → hash_bytes hs bytes s ≡ go tt (hashed bytes s)
  unfolding update_hash
  hash_bytes_lem bytes s = rw (blake2b_update_lem hs laws s.mem.hash bytes)

  pub hash_vlq :
      (v : ℕ) (s : BoxFrame H E)
      → v < 2 ^ 64
      → hash_put hs (gve_put_u64 (rw_buffer_new_local_empty 10) v) s
        ≡ go (vlq_buffer v) (hashed (vlq v) s)
  hash_vlq v s h = let (e, c) = gve_put_u64_fresh v h in rw e (rw c (rw (hash_bytes_lem (vlq v) s)))
