-- ===== src/Prelude/Bits.antt =====
-- The masks of the code as arithmetic, at every number. The laws come from the recursion over binary
-- digits that the native operations stand for.
use Prim.Native.Nat.{
  ℕ, zero, suc, ◌+◌, ◌*◌, ◌/◌, ◌%◌, ◌^◌, ◌≤◌, ◌<◌, min, max, bit_and, bit_or, digits,
  bit_and-bitwise, bit_or-bitwise,
}
use mathlib.Core.Path.{◌≡◌, refl, ap}
use mathlib.Core.Bool.{Bool, true, ◌&&◌}
use native.Mathlib.Nat.{pow-suc}
use native.Mathlib.Omega.{arith}

-- The recursion over binary digits, for any operation on digits and any value of the empty number.
module _ (empty : ℕ → ℕ) (op : ℕ → ℕ → ℕ) where
  -- It does not depend on the rounds that it is given, where these are enough.
  digits_rounds : (a b n m : ℕ) → a ≤ n → a ≤ m → digits empty op n a b ≡ digits empty op m a b
  digits_rounds zero b zero zero enough more = refl
  digits_rounds zero b zero (suc m) enough more = refl
  digits_rounds zero b (suc n) zero enough more = refl
  digits_rounds zero b (suc n) (suc m) enough more = refl
  digits_rounds (suc a) b zero m enough more = absurd (omega arith)
  digits_rounds (suc a) b (suc n) zero enough more = absurd (omega arith)
  digits_rounds (suc a) b (suc n) (suc m) enough more =
      let halves = digits_rounds (suc a / 2) (b / 2) n m (omega arith) (omega arith) in
      omega (arith, halves)

  -- Its first step, with the rounds of the halved number.
  digits_step :
      (a b : ℕ)
      → digits empty op (suc a) (suc a) b
        ≡ digits empty op (suc a / 2) (suc a / 2) (b / 2) * 2 + op (suc a % 2) (b % 2)
  digits_step a b =
      let fewer = digits_rounds (suc a / 2) (b / 2) a (suc a / 2) (omega arith) (omega arith) in
      omega (arith, fewer)

bit_and_halves : (a b : ℕ) → bit_and a b ≡ bit_and (a / 2) (b / 2) * 2 + min (a % 2) (b % 2)
bit_and_halves (suc a) b =
    let whole = bit_and-bitwise (suc a) b in
    let half = bit_and-bitwise (suc a / 2) (b / 2) in
    omega (arith, whole, digits_step (λ _. zero) min a b, half)
bit_and_halves zero b =
    let whole = bit_and-bitwise 0 b in
    let half = bit_and-bitwise 0 (b / 2) in omega (arith, whole, half)

bit_and-zero_upto : (n a : ℕ) → a ≤ n → bit_and a 0 ≡ 0
bit_and-zero_upto n zero h = refl
bit_and-zero_upto zero (suc a) h = absurd (omega arith)
bit_and-zero_upto (suc n) (suc a) h =
    omega (arith, bit_and_halves (suc a) 0, bit_and-zero_upto n (suc a / 2) (omega arith))

-- Each line of the mask of k ones takes one digit off.
mask_one : (a : ℕ) → bit_and a 1 ≡ a % 2
mask_one a = omega (arith, bit_and_halves a 1, bit_and-zero_upto (a / 2) (a / 2) (omega arith))

mask_seven : (a : ℕ) → bit_and a 7 ≡ a % 8
mask_seven a = omega (arith, bit_and_halves a 7, bit_and_halves (a / 2) 3, mask_one (a / 2 / 2))

mask_thirty_one : (a : ℕ) → bit_and a 31 ≡ a % 32
mask_thirty_one a =
    omega (arith, bit_and_halves a 31, bit_and_halves (a / 2) 15, mask_seven (a / 2 / 2))

-- `x & 0x7F` and `x & 0x3F` keep the low seven and six bits.
pub mask_low_seven : (a : ℕ) → bit_and a 0x7f ≡ a % 128
mask_low_seven a =
    omega (arith, bit_and_halves a 127, bit_and_halves (a / 2) 63, mask_thirty_one (a / 2 / 2))

pub mask_low_six : (a : ℕ) → bit_and a 0x3f ≡ a % 64
mask_low_six a = omega (arith, bit_and_halves a 63, mask_thirty_one (a / 2))

bit_or_halves : (a b : ℕ) → bit_or a b ≡ bit_or (a / 2) (b / 2) * 2 + max (a % 2) (b % 2)
bit_or_halves (suc a) b =
    let whole = bit_or-bitwise (suc a) b in
    let half = bit_or-bitwise (suc a / 2) (b / 2) in
    omega (arith, whole, digits_step (λ b. b) max a b, half)
bit_or_halves zero b =
    let whole = bit_or-bitwise 0 b in
    let half = bit_or-bitwise 0 (b / 2) in omega (arith, whole, half)

-- `|` of a number below 2 ^ s and a number shifted left by s joins their bits.
pub bit_or_disjoint : (s a b : ℕ) → a < 2 ^ s → bit_or a (b * 2 ^ s) ≡ a + b * 2 ^ s
bit_or_disjoint zero zero b h = omega (arith, bit_or-bitwise 0 (b * 2 ^ 0))
bit_or_disjoint zero (suc a) b h = absurd (omega arith)
bit_or_disjoint (suc s) a b h =
    let half : b * 2 ^ suc s ≡ b * 2 ^ s * 2 = rw pow-suc (omega arith) in
    let e : b * 2 ^ s * 2 / 2 ≡ b * 2 ^ s = omega arith in
    let ih : bit_or (a / 2) (b * 2 ^ s) ≡ a / 2 + b * 2 ^ s =
      bit_or_disjoint s (a / 2) b (omega (arith, pow-suc 2 s)) in
    let f : bit_or (a / 2) (b * 2 ^ s * 2 / 2) ≡ bit_or (a / 2) (b * 2 ^ s) =
      ap (bit_or (a / 2)) e in
    rw half (omega (arith, bit_or_halves a (b * 2 ^ s * 2), f, ih))

mask_eight : (a : ℕ) → bit_and a 8 ≡ a / 8 % 2 * 8
mask_eight a = omega (
  arith,
  bit_and_halves a 8,
  bit_and_halves (a / 2) 4,
  bit_and_halves (a / 2 / 2) 2,
  mask_one (a / 2 / 2 / 2),
)

-- `x & 0x40` and `x & 0x80` test one bit.
pub mask_bit_six : (a : ℕ) → bit_and a 0x40 ≡ a / 64 % 2 * 64
mask_bit_six a = omega (
  arith,
  bit_and_halves a 64,
  bit_and_halves (a / 2) 32,
  bit_and_halves (a / 2 / 2) 16,
  mask_eight (a / 2 / 2 / 2),
)

pub mask_bit_seven : (a : ℕ) → bit_and a 0x80 ≡ a / 128 % 2 * 128
mask_bit_seven a = omega (arith, bit_and_halves a 128, mask_bit_six (a / 2))

-- A test that every number below a limit passes, by running it on all of them.
unfoldable pub passes_below : (test : ℕ → Bool) (limit : ℕ) → Bool
passes_below test zero = true
passes_below test (suc limit) = passes_below test limit && test limit

pub passes_below_at :
    (test : ℕ → Bool) (limit i : ℕ) → i < limit → passes_below test limit ≡ true → test i ≡ true
unfolding passes_below
passes_below_at test (suc limit) i below all =
    let earlier = passes_below_at test limit i in ground (arith, earlier)
passes_below_at test zero i below all = elim below [ ]
