-- ===== src/SignTx/Output/Flags.antt =====
-- The packed state of an output: a type in six bits and two flags.
use ledger_app_ergo.Prelude.{
  ℕ, ◌/◌, ◌<◌, ◌≡◌, Bool, true, false, ◌&&◌, not, arith, refl, bit_and, ◌==◌, ==_iff,
}
use ledger_app_ergo.Prelude.Bits.{passes_below, passes_below_at}
use ledger_app_ergo.SignTx.Output.{
  OutputInfoType, unknown, bip32, address, script, script_hash, miners_fee, type_code, is_tree_set,
  is_box_finished, with_type, with_tree_set, with_box_finished,
}

-- `b` is kept as `b'`.
abbrev same : Bool → Bool → Bool
same true b = b
same false b = not b

same→eq : (a b : Bool) → same a b ≡ true → b ≡ a
same→eq true b h = h
same→eq false true h = cc
same→eq false false h = refl

four_true :
    (a b c d : Bool) → (a && b && c && d) ≡ true → (a ≡ true) × (b ≡ true) × (c ≡ true) × (d ≡ true)
four_true a b c d h = ground arith

-- What is asked of each of the writes to one state byte.
type_law : OutputInfoType → ℕ → Bool
unfolding with_type
type_law type s =
    (bit_and (with_type type s) 0x3f == type_code type)
    && same (is_tree_set s) (is_tree_set (with_type type s))
    && same (is_box_finished s) (is_box_finished (with_type type s))
    && (with_type type s / 256 == 0)

tree_law : ℕ → Bool
unfolding with_tree_set
tree_law s =
    (bit_and (with_tree_set s) 0x3f == bit_and s 0x3f)
    && is_tree_set (with_tree_set s)
    && same (is_box_finished s) (is_box_finished (with_tree_set s))
    && (with_tree_set s / 256 == 0)

closed_law : ℕ → Bool
unfolding with_box_finished
closed_law s =
    (bit_and (with_box_finished s) 0x3f == bit_and s 0x3f)
    && is_box_finished (with_box_finished s)
    && same (is_tree_set s) (is_tree_set (with_box_finished s))
    && (with_box_finished s / 256 == 0)

type_table : (type : OutputInfoType) → passes_below (type_law type) 256 ≡ true
unfolding passes_below type_law
type_table unknown = refl
type_table bip32 = refl
type_table address = refl
type_table script = refl
type_table script_hash = refl
type_table miners_fee = refl

tree_table : passes_below tree_law 256 ≡ true
unfolding passes_below tree_law
tree_table = refl

closed_table : passes_below closed_law 256 ≡ true
unfolding passes_below closed_law
closed_table = refl

is_byte : (n : ℕ) → (n / 256 == 0) ≡ true → n < 256
is_byte n h = let e : n / 256 ≡ 0 = (==_iff _ _).0 h in omega arith

-- Writing the type of an output into a state byte sets the type, keeps both flags, and leaves a
-- byte.
pub with_type_parts :
    (type : OutputInfoType) (s : ℕ)
    → s < 256
    → (bit_and (with_type type s) 0x3f ≡ type_code type)
      × (is_tree_set (with_type type s) ≡ is_tree_set s)
      × (is_box_finished (with_type type s) ≡ is_box_finished s)
      × (with_type type s < 256)
unfolding type_law
with_type_parts type s h =
    let (a, b, c, d) =
      four_true _ _ _ _ (passes_below_at (type_law type) 256 s h (type_table type)) in
    ((==_iff _ _).0 a, same→eq _ _ b, same→eq _ _ c, is_byte _ d)

-- Marking the tree as set in a state byte sets that flag, keeps the type and the other flag, and
-- leaves a byte.
pub with_tree_set_parts :
    (s : ℕ)
    → s < 256
    → (bit_and (with_tree_set s) 0x3f ≡ bit_and s 0x3f)
      × (is_tree_set (with_tree_set s) ≡ true)
      × (is_box_finished (with_tree_set s) ≡ is_box_finished s)
      × (with_tree_set s < 256)
unfolding tree_law
with_tree_set_parts s h =
    let (a, b, c, d) = four_true _ _ _ _ (passes_below_at tree_law 256 s h tree_table) in
    ((==_iff _ _).0 a, b, same→eq _ _ c, is_byte _ d)

-- Marking the box as finished in a state byte sets that flag, keeps the type and the other flag,
-- and leaves a byte.
with_box_finished_parts :
    (s : ℕ)
    → s < 256
    → (bit_and (with_box_finished s) 0x3f ≡ bit_and s 0x3f)
      × (is_box_finished (with_box_finished s) ≡ true)
      × (is_tree_set (with_box_finished s) ≡ is_tree_set s)
      × (with_box_finished s < 256)
unfolding closed_law
with_box_finished_parts s h =
    let (a, b, c, d) = four_true _ _ _ _ (passes_below_at closed_law 256 s h closed_table) in
    ((==_iff _ _).0 a, b, same→eq _ _ c, is_byte _ d)
