-- ===== src/Common/Gve/RoundTrip.antt =====
-- `gve_get_u64` reads back what `gve_put_u64` writes.
use ledger_app_ergo.Prelude.{
  ℕ, zero, suc, ◌+◌, ◌-◌, ◌*◌, ◌/◌, ◌%◌, ◌^◌, ◌≤◌, ◌<◌, ◌≡◌, some, List, [], ◌∷◌, ◌++◌, take, drop,
  bit_and, bit_or, arith, u64_mod, ap, ◌∙◌,
}
use native.Mathlib.Decide.{dec_lt}
use native.Mathlib.Nat.{pow-suc, div-add-mod}
use native.Mathlib.Numerals.{towards_suc}
use ledger_app_ergo.Prelude.Bits.{mask_low_seven, mask_bit_seven, bit_or_disjoint}
use ledger_app_ergo.Sdk.{Buffer, BufferSdk, advance}
use ledger_app_ergo.Sdk.Laws.{IsBuffer, BufferLaws, unread, big_endian, word}
use ledger_app_ergo.Common.Buffer.Read.{drop-add, advance-IsBuffer}
use ledger_app_ergo.Common.Gve.{gve_ok, put_groups, get_groups, gve_get_u64, gve_out_len}
use ledger_app_ergo.Common.Gve.Encoding.{put_groups_last, put_groups_more}

front_of :
    (n : ℕ) (xs : List ℕ) (x : ℕ) (rest : List ℕ)
    → take n xs ≡ x ∷ rest
    → (1 ≤ n) × (big_endian 0 (take 1 xs) ≡ x) × (take (n - 1) (drop 1 xs) ≡ rest)
front_of zero xs x rest h = cc
front_of (suc n) [] x rest h = cc
front_of (suc n) (y ∷ ys) x rest h = let e : suc n - 1 ≡ n = omega arith in rw e (ground arith)

-- A byte that is next to be read.
next_byte :
    (b : Buffer) (x : ℕ) (rest : List ℕ)
    → unread b ≡ x ∷ rest
    → (1 ≤ b.size - b.offset) × (word 1 b ≡ x) × (unread (advance b 1) ≡ rest)
next_byte b x rest h =
    let e : b.size - (b.offset + 1) ≡ b.size - b.offset - 1 = omega arith in
    rw (e, drop-add b.offset 1 b.ptr) (front_of (b.size - b.offset) (drop b.offset b.ptr) x rest h)

module _ (sdk : BufferSdk) (laws : BufferLaws sdk) where
  read_next :
      (b : Buffer) (x : ℕ) (rest : List ℕ)
      → IsBuffer b
      → unread b ≡ x ∷ rest
      → sdk.read_u8 b ≡ some (x, advance b 1)
  read_next b x rest hb h = ground (arith, laws.read_u8_lem b hb, next_byte b x rest h)

  -- The new value: the group goes to bit `shift` of what is below it.
  joined :
      (acc g shift : ℕ)
      → acc < 2 ^ shift
      → acc + g * 2 ^ shift < u64_mod
      → bit_or acc (g * 2 ^ shift % u64_mod) ≡ acc + g * 2 ^ shift
  joined acc g shift h fits =
      let e : g * 2 ^ shift % u64_mod ≡ g * 2 ^ shift = omega arith in
      rw e (bit_or_disjoint shift acc g h)

  module _ (k shift acc : ℕ) (b : Buffer) (below : acc < 2 ^ shift) (hb : IsBuffer b) where
    last_byte :
        (w : ℕ) (rest : List ℕ)
        → w < 128
        → acc + w * 2 ^ shift < u64_mod
        → unread b ≡ w ∷ rest
        → get_groups sdk (suc k) shift acc b ≡ (gve_ok, acc + w * 2 ^ shift, advance b 1)
    unfolding get_groups
    last_byte w rest hw fits h =
        let low : bit_and w 0x7f ≡ w = omega (arith, mask_low_seven w) in
        let value : bit_or acc (bit_and w 0x7f * 2 ^ shift % u64_mod) ≡ acc + w * 2 ^ shift =
          rw low (joined acc w shift below fits) in
        ground (arith, read_next b w rest hb h, value, mask_bit_seven w)

    inner_byte :
        (g : ℕ) (rest : List ℕ)
        → g < 128
        → acc + g * 2 ^ shift < u64_mod
        → unread b ≡ (g + 128) ∷ rest
        → get_groups sdk (suc k) shift acc b
          ≡ get_groups sdk k (shift + 7) (acc + g * 2 ^ shift) (advance b 1)
    unfolding get_groups
    inner_byte g rest hg fits h =
        let low : bit_and (g + 128) 0x7f ≡ g = omega (arith, mask_low_seven (g + 128)) in
        let value : bit_or acc (bit_and (g + 128) 0x7f * 2 ^ shift % u64_mod)
            ≡ acc + g * 2 ^ shift =
          rw low (joined acc g shift below fits) in
        ground (arith, read_next b (g + 128) rest hb h, value, mask_bit_seven (g + 128))

  seven_more : (s : ℕ) → 2 ^ (s + 7) ≡ 128 * 2 ^ s
  seven_more s = simp towards_suc (omega arith)

  split_groups : (v s : ℕ) → v * 2 ^ s ≡ v % 128 * 2 ^ s + v / 128 * 2 ^ (s + 7)
  split_groups v s = rw seven_more (omega (arith, ap (λ (t : ℕ). t * 2 ^ s) (div-add-mod v 128)))

  -- With `v` shifted by `shift` still to be read, and the bits below already in `acc`.
  get_groups_put :
      (k v shift acc total : ℕ) (b : Buffer) (rest : List ℕ)
      → v < 128 ^ suc k
      → acc < 2 ^ shift
      → acc + v * 2 ^ shift ≡ total
      → total < u64_mod
      → IsBuffer b
      → unread b ≡ put_groups (suc k) v ++ rest
      → (b' : Buffer) × (get_groups sdk (suc k) shift acc b ≡ (gve_ok, total, b'))
        × (unread b' ≡ rest)
  get_groups_put zero v shift acc total b rest small below sum fits hb h =
      let h' : unread b ≡ v ∷ rest = rw (put_groups_last zero v (omega arith)) at h in
      let e = last_byte zero shift acc b below hb v rest (omega arith) (omega arith) h' in
      (advance b 1, rw sum at e, (next_byte b v rest h').2)
  get_groups_put (suc k) v shift acc total b rest small below sum fits hb h = elim (dec_lt v 128) [
    | yes low ↦
        (let h' : unread b ≡ v ∷ rest = rw (put_groups_last (suc k) v low) at h in
          let e = last_byte (suc k) shift acc b below hb v rest low (omega arith) h' in
          (advance b 1, rw sum at e, (next_byte b v rest h').2))
    | no high ↦
        (let tail = put_groups (suc k) (v / 128) ++ rest in
          let h' : unread b ≡ (v % 128 + 128) ∷ tail =
            rw (put_groups_more (suc k) v (omega arith)) at h in
          let (some_left, byte, left) = next_byte b (v % 128 + 128) tail h' in
          let s = split_groups v shift in
          let step =
            inner_byte (suc k) shift acc b below hb (v % 128) tail (omega arith) (omega arith) h' in
          let (b', e, u) =
            get_groups_put k (v / 128) (shift + 7) (acc + v % 128 * 2 ^ shift) total (advance b 1)
              rest (omega (arith, pow-suc 128 (suc k))) (grind (arith, seven_more shift))
              (omega arith) fits (advance-IsBuffer b 1 hb some_left) left in
          (b', step ∙ e, u))
  ]

  -- Over buffer functions that obey their laws, and on a well-formed buffer whose unread bytes
  -- begin with the run that gve_put_u64 writes for a number below 2^64, gve_get_u64 returns GVE_OK
  -- and that number, and leaves unread what follows the run.
  pub gve_get_u64-put :
      (v : ℕ) (b : Buffer) (rest : List ℕ)
      → v < 2 ^ 64
      → IsBuffer b
      → unread b ≡ put_groups gve_out_len v ++ rest
      → (b' : Buffer) × (gve_get_u64 sdk b ≡ (gve_ok, v, b')) × (unread b' ≡ rest)
  unfolding gve_get_u64
  gve_get_u64-put v b rest hv hb h =
      get_groups_put 9 v 0 0 v b rest (omega arith) (omega arith) (omega arith) hv hb h
