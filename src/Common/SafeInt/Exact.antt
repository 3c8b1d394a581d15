-- ===== src/Common/SafeInt/Exact.antt =====
-- What the checked operations of safeint.h promise, over the integers.
use ledger_app_ergo.Prelude.{
  ℕ, ◌+◌, ◌-◌, ◌^◌, ◌<◌, ◌≡◌, Option, none, some, ltb, if◌then◌else◌, arith,
}
use ledger_app_ergo.Common.SafeInt.{
  checked_add_u64, checked_sub_u64, checked_add_i64, checked_sub_i64, is_negative,
}

-- An int64_t pattern stands for the integer `up l - down l`.
abbrev pub up : ℕ → ℕ
up l = if is_negative l then 0 else l

abbrev pub down : ℕ → ℕ
down l = if is_negative l then 2 ^ 64 - l else 0

-- The exact result of an operation on integers `x - y`, or `none` if it leaves the range of int64_t.
abbrev pub int64_of : ℕ → ℕ → Option ℕ
int64_of x y =
    if ltb x y
    then (if ltb (2 ^ 63) (y - x) then none else some (2 ^ 64 - (y - x)))
    else (if ltb (x - y) (2 ^ 63) then some (x - y) else none)

-- For operands below 2^64, the sum is returned exactly when it is below 2^64, and is then the true
-- sum.
pub checked_add_u64_exact :
    (l r : ℕ)
    → l < 2 ^ 64
    → r < 2 ^ 64
    → checked_add_u64 l r ≡ (if ltb (l + r) (2 ^ 64) then some (l + r) else none)
unfolding checked_add_u64
checked_add_u64_exact l r hl hr = ground arith

-- For operands below 2^64, the difference is returned exactly when it is not negative, and is then
-- the true one.
pub checked_sub_u64_exact :
    (l r : ℕ)
    → l < 2 ^ 64
    → r < 2 ^ 64
    → checked_sub_u64 l r ≡ (if ltb l r then none else some (l - r))
unfolding checked_sub_u64
checked_sub_u64_exact l r hl hr = ground arith

-- For a 64-bit pattern l and r below 2^64, the signed l plus the unsigned r is returned exactly
-- when that integer is an int64_t, and is then its pattern.
pub checked_add_i64_exact :
    (l r : ℕ) → l < 2 ^ 64 → r < 2 ^ 64 → checked_add_i64 l r ≡ int64_of (up l + r) (down l)
unfolding checked_add_i64
checked_add_i64_exact l r hl hr = ground arith

-- For a 64-bit pattern l and r below 2^64, the signed l less the unsigned r is returned exactly
-- when that integer is an int64_t, and is then its pattern.
pub checked_sub_i64_exact :
    (l r : ℕ) → l < 2 ^ 64 → r < 2 ^ 64 → checked_sub_i64 l r ≡ int64_of (up l) (down l + r)
unfolding checked_sub_i64
checked_sub_i64_exact l r hl hr = ground arith
