-- ===== src/Common/SafeInt.antt =====
-- src/common/safeint.h: sums and differences of 64-bit integers with an overflow check.
pub mod Exact
use ledger_app_ergo.Prelude.{
  ℕ, ◌+◌, ◌-◌, ◌%◌, ◌^◌, Bool, Option, none, some, ◌&&◌, ◌||◌, ltb, leb, if◌then◌else◌, u64_mod,
  wrap_sub,
}

-- `none` is the result false: `*out` is left as it was. `some` holds what is written to `*out`.
unfoldable pub checked_add_u64 : ℕ → ℕ → Option ℕ
checked_add_u64 l r =
    if ltb (wrap_sub u64_mod (2 ^ 64 - 1) l) r then none else some ((l + r) % u64_mod)

unfoldable pub checked_sub_u64 : ℕ → ℕ → Option ℕ
checked_sub_u64 l r = if ltb l r then none else some (wrap_sub u64_mod l r)

-- An int64_t is its two's complement pattern, below 2 ^ 64.
abbrev pub int64_max : ℕ
int64_max = 2 ^ 63 - 1

abbrev pub is_negative : ℕ → Bool
is_negative l = leb (2 ^ 63) l

-- `l + r` and `l - r` join an int64_t and a uint64_t, so C makes them uint64_t sums and differences,
-- and `(uint64_t) -l` is the pattern of the negated `l`.
unfoldable pub checked_add_i64 : ℕ → ℕ → Option ℕ
checked_add_i64 l r =
    let overflow =
      if is_negative l
      then leb (wrap_sub u64_mod 0 l) r && ltb int64_max ((r + l) % u64_mod)
      else ltb int64_max r || ltb (wrap_sub u64_mod int64_max r) l in
    if overflow then none else some ((l + r) % u64_mod)

unfoldable pub checked_sub_i64 : ℕ → ℕ → Option ℕ
checked_sub_i64 l r =
    let overflow =
      if is_negative l
      then ltb int64_max r || ltb (int64_max + 1) (wrap_sub u64_mod r l)
      else ltb l r && ltb (int64_max + 1) (wrap_sub u64_mod r l) in
    if overflow then none else some (wrap_sub u64_mod l r)
