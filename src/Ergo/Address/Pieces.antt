-- ===== src/Ergo/Address/Pieces.antt =====
-- How the pieces of an address come into the array: what is written in front of a piece stays.
use ledger_app_ergo.Prelude.{
  ℕ, ◌+◌, ◌≤◌, ◌<◌, ◌≡◌, Bool, false, List, [], ◌∷◌, length, take, drop, arith, refl, take_all,
  length-take, length-drop,
}
use ledger_app_ergo.Prelude.Flow.{Flow, go}
use ledger_app_ergo.Common.RwBuffer.{RwBuffer}
use ledger_app_ergo.Common.RwBuffer.Contents.{appended, rw_buffer_write_u8_lem}
use ledger_app_ergo.Common.RwBuffer.Holds.{Holds, appended-Holds}
use ledger_app_ergo.Ergo.Address.{
  write_u8_or_false, write_bytes_or_false, write_key, p2pk_address_len,
}
use ledger_app_ergo.Ergo.ErgoTree.{parity_byte}
use ledger_app_ergo.Ergo.ErgoTree.P2pk.{compressed}

pub write_u8_lem :
    (b : RwBuffer) (xs : List ℕ) (n x : ℕ)
    → Holds b xs n
    → length xs < n
    → write_u8_or_false x b ≡ go tt (appended b (x ∷ []))
unfolding write_u8_or_false
write_u8_lem b xs n x h le = rw (rw_buffer_write_u8_lem b x h.is) (ground (arith, h.size, h.end))

pub write_bytes_lem :
    (b : RwBuffer) (xs ys : List ℕ) (n k : ℕ)
    → Holds b xs n
    → length xs + k ≤ n
    → k ≤ length ys
    → write_bytes_or_false ys k b ≡ go tt (appended b (take k ys))
unfolding write_bytes_or_false
write_bytes_lem b xs ys n k h le le' =
    let body = take k ys in
    let size : length body ≡ k = omega (arith, length-take k ys) in
    ground (arith, size, h.size, h.end)

-- A piece of an address is written behind the bytes in front of it.
abbrev pub Writes : (RwBuffer → Flow Bool RwBuffer (Unit {0})) → RwBuffer → List ℕ → ℕ → Type 0
Writes m b xs n = (b' : RwBuffer) × (m b ≡ go tt b') × Holds b' xs n

pub write_key-Writes :
    (public_key : List ℕ) (b : RwBuffer) (x : ℕ)
    → length public_key ≡ 65
    → Holds b (x ∷ []) p2pk_address_len
    → Writes (write_key public_key false) b (x ∷ compressed public_key) p2pk_address_len
unfolding write_key
write_key-Writes key b x e h =
    let body = drop 1 key in
    let size : length body ≡ 64 = omega (arith, length-drop 1 key) in
    let short : length (take 32 body) ≡ 32 = omega (arith, length-take 32 body) in
    let p = parity_byte key ∷ [] in
    let h1 = appended-Holds b (x ∷ []) p p2pk_address_len h (omega arith) in
    let h2 =
      appended-Holds (appended b p) (x ∷ p) (take 32 body) p2pk_address_len h1
        (omega (arith, short)) in
    (
      appended (appended b p) (take 32 body),
      rw (write_u8_lem b (x ∷ []) p2pk_address_len (parity_byte key) h (omega arith)) (
          write_bytes_lem (appended b p) (x ∷ p) body p2pk_address_len 32 h1 (omega arith)
            (omega (arith, size))),
      h2,
    )

pub write_block-Writes :
    (block : List ℕ) (k : ℕ) (b : RwBuffer) (x n : ℕ)
    → length block ≡ k
    → k < n
    → Holds b (x ∷ []) n
    → Writes (write_bytes_or_false block k) b (x ∷ block) n
write_block-Writes block k b x n e lt h =
    let all : take k block ≡ block = take_all k block (omega (arith, e)) in
    (
      appended b block,
      rw (write_bytes_lem b (x ∷ []) block n k h (omega arith) (omega (arith, e)), all) refl,
      appended-Holds b (x ∷ []) block n h (omega (arith, e)),
    )
