-- ===== src/Ergo/TokenTable/Find.antt =====
-- Looking up and adding ids.
use ledger_app_ergo.Prelude.{
  ℕ, zero, suc, ◌+◌, ◌≤◌, ◌<◌, ◌≡◌, ◌≢◌, ◌⊎◌, inl, inr, true, false, List, [], length, get_or,
  eq_bytes, ap, leb, arith, refl, sym, length-set, get_or-set_self, get_or-set_ne, eq_bytes_refl,
  eq_bytes→eq, Bool-cases,
}
use native.Mathlib.Decide.{dec_lt}
use ledger_app_ergo.Ergo.TokenTable.{
  TokenTable, token_max_count, index_not_exist, find_from, token_table_find_token_index,
  token_table_add_token,
}

-- The table has its array, and the count stays within it.
pub record IsTable (t : TokenTable) : Type 0 where
  pub counted : t.count ≤ token_max_count
  pub memory : length t.tokens ≡ token_max_count

abbrev pub id_at : TokenTable → ℕ → List ℕ
id_at t i = get_or t.tokens i []

-- The ids before `i` are others.
abbrev pub NotBefore : TokenTable → List ℕ → ℕ → ℕ → Type 0
NotBefore t id from i = (j : ℕ) → from ≤ j → j < i → id_at t j ≢ id

-- An id's index is the first place, below the count, that holds it, and INDEX_NOT_EXIST if none does.
abbrev pub Finds : TokenTable → List ℕ → ℕ → ℕ → ℕ → Type 0
Finds t id from to r =
    ((from ≤ r) × (r < to) × (id_at t r ≡ id) × NotBefore t id from r)
    ⊎ ((r ≡ index_not_exist) × NotBefore t id from to)

NotBefore-step :
    (t : TokenTable) (id : List ℕ) (i to : ℕ)
    → id_at t i ≢ id
    → NotBefore t id (i + 1) to
    → NotBefore t id i to
NotBefore-step t id i to differs later j lo hi same = elim (dec_lt i j) [
  | yes above ↦ later j (omega arith) hi same
  | no here ↦ let e : j ≡ i = omega arith in differs (rw e at same)
]

Finds-step :
    (t : TokenTable) (id : List ℕ) (i to r : ℕ)
    → id_at t i ≢ id
    → Finds t id (i + 1) to r
    → Finds t id i to r
Finds-step t id i to r differs (inl (lo, hi, same, first)) =
    inl (omega arith, hi, same, NotBefore-step t id i r differs first)
Finds-step t id i to r differs (inr (none_found, first)) =
    inr (none_found, NotBefore-step t id i to differs first)

find_from-Finds :
    (n i to : ℕ) (t : TokenTable) (id : List ℕ) → i + n ≡ to → Finds t id i to (find_from n i t id)
unfolding find_from
find_from-Finds zero i to t id e = inr (refl, λ j lo hi. absurd (omega arith))
find_from-Finds (suc n) i to t id e = elim (Bool-cases (eq_bytes (id_at t i) id)) [
  | inl same ↦
      rw same
        (inl (omega arith, omega arith, eq_bytes→eq _ _ same, λ j lo hi. absurd (omega arith)))
  | inr other ↦ rw other (
      Finds-step t id i to _
        (λ same. cc (ap (eq_bytes (id_at t i)) same, eq_bytes_refl (id_at t i)))
        (find_from-Finds n (i + 1) to t id (omega arith)))
]

-- The index that is returned is the first below the count that holds the id, or it is
-- INDEX_NOT_EXIST and no place below the count holds the id.
pub token_table_find_token_index-Finds :
    (t : TokenTable) (id : List ℕ) → Finds t id 0 t.count (token_table_find_token_index t id)
unfolding token_table_find_token_index
token_table_find_token_index-Finds t id = find_from-Finds t.count 0 t.count t id (omega arith)

-- Adding an id to a well-formed table leaves one. With room, the result is the old count, the
-- count has grown by one, the id stands at the index returned and the other places stay; a full
-- table stays as it is and the result is INDEX_NOT_EXIST.
pub token_table_add_token_lem :
    (t : TokenTable) (id : List ℕ)
    → IsTable t
    → let (r, t') = token_table_add_token t id in
      IsTable t'
      × (((t.count < token_max_count)
            × (r ≡ t.count)
            × (t'.count ≡ t.count + 1)
            × (id_at t' r ≡ id)
            × ((j : ℕ) → j ≢ r → id_at t' j ≡ id_at t j))
          ⊎ ((t.count ≡ token_max_count) × (r ≡ index_not_exist) × (t' ≡ t)))
unfolding token_table_add_token
token_table_add_token_lem t id h = elim (dec_lt t.count token_max_count) [
  | yes room ↦
      (let full : leb token_max_count t.count ≡ false = ground arith in
        rw full (
          record { counted = omega arith; memory = omega (arith, length-set t.tokens t.count id) },
          inl (
            room,
            refl,
            omega arith,
            get_or-set_self t.tokens t.count id [] (omega arith),
            λ j other. get_or-set_ne t.tokens t.count j id [] (λ e. other (sym e)),
          ),
        ))
  | no rest ↦
      (let full : leb token_max_count t.count ≡ true = ground arith in
        rw full (h, inr (omega arith, refl, refl)))
]
