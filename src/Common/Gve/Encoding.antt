-- ===== src/Common/Gve/Encoding.antt =====
-- What `gve_put_u64` writes, in plain arithmetic.
use ledger_app_ergo.Prelude.{
  ℕ, zero, suc, ◌+◌, ◌-◌, ◌*◌, ◌/◌, ◌%◌, ◌^◌, ◌≤◌, ◌<◌, ◌≡◌, List, [], ◌∷◌, length, bit_and, bit_or,
  arith,
}
use native.Mathlib.Decide.{dec_lt}
use native.Mathlib.Nat.{pow-suc}
use ledger_app_ergo.Prelude.Bits.{mask_low_seven, bit_or_disjoint}
use ledger_app_ergo.Common.RwBuffer.{RwBuffer, rw_buffer_new_local_empty}
use ledger_app_ergo.Common.RwBuffer.Contents.{
  IsRwBuffer, contents, appended, rw_buffer_write_bytes_lem, contents-appended,
  rw_buffer_new_local_empty-IsRwBuffer,
}
use ledger_app_ergo.Common.Gve.{gve_ok, put_groups, gve_put_u64, gve_out_len}

-- The number that a run of bytes stands for: each byte adds its low seven bits.
abbrev pub decoded : List ℕ → ℕ
decoded [] = 0
decoded (b ∷ bs) = b % 128 + 128 * decoded bs

-- Every byte but the last has its top bit set.
abbrev pub IsRun : List ℕ → Type 0
IsRun [] = ⊥
IsRun (b ∷ []) = b < 128
IsRun (b ∷ bs) = (128 ≤ b) × (b < 256) × IsRun bs

top_bit_set : (v : ℕ) → bit_or (bit_and v 0x7f) 0x80 ≡ v % 128 + 128
top_bit_set v = rw mask_low_seven (bit_or_disjoint 7 (v % 128) 1 (omega arith))

pub put_groups_last : (room v : ℕ) → v < 128 → put_groups (suc room) v ≡ v ∷ []
unfolding put_groups
put_groups_last room v h = ground (arith, mask_low_seven v)

pub put_groups_more :
    (room v : ℕ) → 128 ≤ v → put_groups (suc room) v ≡ (v % 128 + 128) ∷ put_groups room (v / 128)
unfolding put_groups
put_groups_more room v h = ground (arith, top_bit_set v)

IsRun-cons : (b : ℕ) (bs : List ℕ) → 128 ≤ b → b < 256 → IsRun bs → IsRun (b ∷ bs)
IsRun-cons b [] lo hi h = absurd h
IsRun-cons b (c ∷ cs) lo hi h = (lo, hi, h)

-- With a place for each seven bits, the run stands for the number and takes no more places.
abbrev Encodes : ℕ → ℕ → List ℕ → Type 0
Encodes room v bs = IsRun bs × (decoded bs ≡ v) × (length bs ≤ room)

put_groups-Encodes : (k v : ℕ) → v < 128 ^ suc k → Encodes (suc k) v (put_groups (suc k) v)
put_groups-Encodes zero v h =
    let small : v < 128 = omega arith in rw (put_groups_last zero v small) (omega arith)
put_groups-Encodes (suc k) v h = elim (dec_lt v 128) [
  | yes small ↦ rw (put_groups_last (suc k) v small) (omega arith)
  | no large ↦
      let ih = put_groups-Encodes k (v / 128) (omega (arith, pow-suc 128 (suc k))) in
      rw (put_groups_more (suc k) v (omega arith))
        (IsRun-cons _ _ (omega arith) (omega arith) ih.0, omega (arith, ih.1), omega (arith, ih.2))
]

-- For a number below 2^64, the run that gve_put_u64 prepares has its top bits set on every byte
-- but the last, stands for the number in groups of seven bits, and fits the ten places.
pub groups_total :
    (v : ℕ)
    → v < 2 ^ 64
    → IsRun (put_groups gve_out_len v)
      × (decoded (put_groups gve_out_len v) ≡ v)
      × (length (put_groups gve_out_len v) ≤ gve_out_len)
groups_total v h = put_groups-Encodes 9 v (omega arith)

-- Into a well-formed buffer with room for ten bytes, gve_put_u64 of a number below 2^64 returns
-- GVE_OK and appends the run of the number.
gve_put_u64_lem :
    (b : RwBuffer) (v : ℕ)
    → IsRwBuffer b
    → v < 2 ^ 64
    → 10 ≤ b.size - b.read.size
    → gve_put_u64 b v ≡ (gve_ok, appended b (put_groups gve_out_len v))
unfolding gve_put_u64
gve_put_u64_lem b v hb hv room =
    let (run, value, fits) = groups_total v hv in
    let put = rw_buffer_write_bytes_lem b (put_groups gve_out_len v) hb in ground (arith, put)

-- The bytes of a number in a fresh local buffer.
abbrev pub vlq : ℕ → List ℕ
vlq v = put_groups gve_out_len v

abbrev pub vlq_buffer : ℕ → RwBuffer
vlq_buffer v = appended (rw_buffer_new_local_empty gve_out_len) (vlq v)

pub gve_put_u64_fresh :
    (v : ℕ)
    → v < 2 ^ 64
    → (gve_put_u64 (rw_buffer_new_local_empty gve_out_len) v ≡ (gve_ok, vlq_buffer v))
      × (contents (vlq_buffer v) ≡ vlq v)
gve_put_u64_fresh v h =
    let b = rw_buffer_new_local_empty gve_out_len in
    let hb = rw_buffer_new_local_empty-IsRwBuffer gve_out_len (omega arith) in
    let (_, _, fits) = groups_total v h in
    (gve_put_u64_lem b v hb h (omega arith), contents-appended b (vlq v) hb fits)
