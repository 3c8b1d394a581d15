-- ===== src/Common/Bip32/Valid.antt =====
-- Which derivation paths are accepted.
use ledger_app_ergo.Prelude.{ℕ, zero, suc, ◌+◌, ◌-◌, ◌≤◌, ◌<◌, ◌≡◌, ◌↔◌, true, List, arith, refl}
use native.Mathlib.Decide.{dec_lt}
use ledger_app_ergo.Common.Bip32.{
  bip32_hardened_constant, Bip32PathValidationType, coin, coin_ge2_hard, account_e3, account_ge3,
  address_e5, address_ge5, at, all_hard_from, all_soft_from, validate_tail, bip32_path_validate,
}

-- The places from `i` up to `to` are hardened, and are not.
abbrev pub HardFrom : ℕ → ℕ → List ℕ → Type 0
HardFrom i to path = (j : ℕ) → i ≤ j → j < to → bip32_hardened_constant ≤ at path j

abbrev pub SoftFrom : ℕ → ℕ → List ℕ → Type 0
SoftFrom i to path = (j : ℕ) → i ≤ j → j < to → at path j < bip32_hardened_constant

all_hard_from-HardFrom :
    (n i to : ℕ) (path : List ℕ) → i + n ≡ to → all_hard_from n i path ≡ true → HardFrom i to path
unfolding all_hard_from
all_hard_from-HardFrom zero i to path e h j lo hi = absurd (omega arith)
all_hard_from-HardFrom (suc n) i to path e h j lo hi = elim (dec_lt i j) [
  | yes later ↦
      all_hard_from-HardFrom n (i + 1) to path (omega arith) (ground arith) j (omega arith) hi
  | no here ↦ (let same : j ≡ i = omega arith in rw same (ground arith))
]

all_soft_from-SoftFrom :
    (n i to : ℕ) (path : List ℕ) → i + n ≡ to → all_soft_from n i path ≡ true → SoftFrom i to path
unfolding all_soft_from
all_soft_from-SoftFrom zero i to path e h j lo hi = absurd (omega arith)
all_soft_from-SoftFrom (suc n) i to path e h j lo hi = elim (dec_lt i j) [
  | yes later ↦
      all_soft_from-SoftFrom n (i + 1) to path (omega arith) (ground arith) j (omega arith) hi
  | no here ↦ (let same : j ≡ i = omega arith in rw same (ground arith))
]

HardFrom-all_hard_from :
    (n i to : ℕ) (path : List ℕ) → i + n ≡ to → HardFrom i to path → all_hard_from n i path ≡ true
unfolding all_hard_from
HardFrom-all_hard_from zero i to path e h = refl
HardFrom-all_hard_from (suc n) i to path e h = ground (
  arith,
  h i (omega arith) (omega arith),
  HardFrom-all_hard_from n (i + 1) to path (omega arith) (λ j lo hi. h j (omega arith) hi),
)

SoftFrom-all_soft_from :
    (n i to : ℕ) (path : List ℕ) → i + n ≡ to → SoftFrom i to path → all_soft_from n i path ≡ true
unfolding all_soft_from
SoftFrom-all_soft_from zero i to path e h = refl
SoftFrom-all_soft_from (suc n) i to path e h = ground (
  arith,
  h i (omega arith) (omega arith),
  SoftFrom-all_soft_from n (i + 1) to path (omega arith) (λ j lo hi. h j (omega arith) hi),
)

-- What each validation type asks for, behind the purpose and the coin.
abbrev pub IsTail : List ℕ → ℕ → Bip32PathValidationType → Type 0
IsTail path len coin = Unit {0}
IsTail path len coin_ge2_hard = HardFrom 2 len path
IsTail path len account_e3 = (len ≡ 3) × (bip32_hardened_constant ≤ at path 2)
IsTail path len account_ge3 = HardFrom 2 len path
IsTail path len address_e5 =
    (len ≡ 5)
    × (bip32_hardened_constant ≤ at path 2)
    × (at path 3 ≤ 1)
    × (at path 4 < bip32_hardened_constant)
IsTail path len address_ge5 =
    (5 ≤ len) × (bip32_hardened_constant ≤ at path 2) × (at path 3 ≤ 1) × SoftFrom 4 len path

validate_tail_iff :
    (path : List ℕ) (len : ℕ) (vtype : Bip32PathValidationType)
    → 3 ≤ len
    → (validate_tail path len vtype ≡ true) ↔ IsTail path len vtype
unfolding validate_tail
validate_tail_iff path len coin more = (λ h. tt, λ h. refl)
validate_tail_iff path len coin_ge2_hard more = (
  all_hard_from-HardFrom (len - 2) 2 len path (omega arith),
  HardFrom-all_hard_from (len - 2) 2 len path (omega arith),
)
validate_tail_iff path len account_e3 more = ground arith
validate_tail_iff path len account_ge3 more = (
  all_hard_from-HardFrom (len - 2) 2 len path (omega arith),
  HardFrom-all_hard_from (len - 2) 2 len path (omega arith),
)
validate_tail_iff path len address_e5 more = ground arith
validate_tail_iff path len address_ge5 more = (
  λ h. (
    ground arith,
    ground arith,
    ground arith,
    all_soft_from-SoftFrom (len - 4) 4 len path (ground arith) (ground arith),
  ),
  λ h. ground (arith, soft_tail h),
)
  where
    soft_tail :
        (5 ≤ len) × (bip32_hardened_constant ≤ at path 2) × (at path 3 ≤ 1) × SoftFrom 4 len path
        → all_soft_from (len - 4) 4 path ≡ true
    soft_tail h = SoftFrom-all_soft_from (len - 4) 4 len path (omega arith) h.3

-- A path is accepted exactly when it has three parts or more, begins with the purpose and the
-- coin, and has the form that the validation type asks for.
pub bip32_path_validate_iff :
    (path : List ℕ) (len type coin_type : ℕ) (vtype : Bip32PathValidationType)
    → (bip32_path_validate path len type coin_type vtype ≡ true)
      ↔ ((3 ≤ len) × (at path 0 ≡ type) × (at path 1 ≡ coin_type) × IsTail path len vtype)
unfolding bip32_path_validate
bip32_path_validate_iff path len type coin_type vtype = (
  λ h.
      let more : 3 ≤ len = ground arith in
      (more, ground arith, ground arith, (validate_tail_iff path len vtype more).0 (ground arith)),
  λ h. ground (arith, (validate_tail_iff path len vtype h.0).1 h.3),
)
