-- ===== src/Common/Bip32.antt =====
-- src/common/bip32_ext.h and bip32_ext.c: checks on derivation paths.
pub mod Valid
pub mod Account
use ledger_app_ergo.Prelude.{
  ℕ, zero, suc, ◌+◌, ◌-◌, Bool, true, false, List, [], ◌∷◌, ◌++◌, get_or, take, leb, ltb, ◌==◌, not,
  ◌||◌, ◌&&◌, if◌then◌else◌, eq_bytes, u32_mod,
}

abbrev pub bip32_hardened_constant : ℕ
bip32_hardened_constant = 0x8000_0000

-- On uint32_t.
abbrev pub bip32_hardened : ℕ → ℕ
bip32_hardened x = bip32_hardened_constant + x

abbrev pub bip32_ergo_coin : ℕ
bip32_ergo_coin = 429

pub data Bip32PathValidationType : Type 0 where
  coin coin_ge2_hard account_e3 account_ge3 address_e5 address_ge5 : Bip32PathValidationType

abbrev pub at : List ℕ → ℕ → ℕ
at path i = get_or path i 0

abbrev pub is_hard : ℕ → Bool
is_hard x = leb bip32_hardened_constant x

-- The loops over `bip32_path[i]` for `i` up to the length, with the rounds that are left.
unfoldable pub all_hard_from : (rounds i : ℕ) → List ℕ → Bool
all_hard_from zero i path = true
all_hard_from (suc rounds) i path = is_hard (at path i) && all_hard_from rounds (i + 1) path

unfoldable pub all_soft_from : (rounds i : ℕ) → List ℕ → Bool
all_soft_from zero i path = true
all_soft_from (suc rounds) i path = not (is_hard (at path i)) && all_soft_from rounds (i + 1) path

abbrev pub is_chain : ℕ → Bool
is_chain x = x == 0 || x == 1

-- The `switch`, for a path of more than two parts.
unfoldable pub validate_tail : List ℕ → ℕ → Bip32PathValidationType → Bool
unfolding all_hard_from all_soft_from
validate_tail path len coin = true
validate_tail path len coin_ge2_hard = all_hard_from (len - 2) 2 path
validate_tail path len account_e3 = (len == 3) && is_hard (at path 2)
validate_tail path len account_ge3 = all_hard_from (len - 2) 2 path
validate_tail path len address_e5 =
    (len == 5) && is_hard (at path 2) && is_chain (at path 3) && not (is_hard (at path 4))
validate_tail path len address_ge5 =
    if ltb len 5
    then false
    else (if not (is_hard (at path 2))
        then false
        else (if not (is_chain (at path 3)) then false else all_soft_from (len - 4) 4 path))

unfoldable pub bip32_path_validate :
    (path : List ℕ) (len type coin_type : ℕ) → Bip32PathValidationType → Bool
unfolding validate_tail
bip32_path_validate path len type coin_type vtype =
    if leb len 2 || not (at path 0 == type) || not (at path 1 == coin_type)
    then false
    else validate_tail path len vtype

-- `memcmp` compares bytes: `word_bytes` gives the four bytes of a uint32_t in the memory.
module _ (word_bytes : ℕ → List ℕ) where
  unfoldable pub memory_of : List ℕ → List ℕ
  memory_of [] = []
  memory_of (x ∷ xs) = word_bytes x ++ memory_of xs

  abbrev pub memcmp_equal : List ℕ → List ℕ → ℕ → Bool
  memcmp_equal p1 p2 n = eq_bytes (take n (memory_of p1)) (take n (memory_of p2))

  unfoldable pub bip32_path_is_equal : (p1 : List ℕ) (len1 : ℕ) (p2 : List ℕ) (len2 : ℕ) → Bool
  unfolding memory_of
  bip32_path_is_equal p1 len1 p2 len2 = (len1 == len2) && memcmp_equal p1 p2 len1

  unfoldable pub bip32_path_same_account : (p1 : List ℕ) (len1 : ℕ) (p2 : List ℕ) (len2 : ℕ) → Bool
  unfolding memory_of
  bip32_path_same_account p1 len1 p2 len2 = leb 3 len1 && leb 3 len2 && memcmp_equal p1 p2 3
