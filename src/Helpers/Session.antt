-- ===== src/Helpers/Session.antt =====
-- src/helpers/session_id.h and src/ergo/network_id.h.
use ledger_app_ergo.Prelude.{
  ℕ, ◌≡◌, ◌≢◌, Bool, Option, none, some, List, [], ◌∷◌, leb, ◌==◌, not, ◌&&◌, ◌||◌, if◌then◌else◌,
  arith,
}

-- The loop draws from the bytes that the generator gives next, and leaves the rest. Where none of them
-- is accepted it would go on drawing: 0 stands for that.
unfoldable pub session_id_new_random : ℕ → List ℕ → ℕ × List ℕ
session_id_new_random old [] = (0, [])
session_id_new_random old (id ∷ random) =
    let rest = session_id_new_random old random in
    if (id == 0) || (id == old) then rest else (id, random)

unfoldable pub is_known_application : (saved app_id : ℕ) → Bool
is_known_application saved app_id = not (saved == 0) && not (app_id == 0) && (app_id == saved)

abbrev pub network_id_is_mainnet : ℕ → Bool
network_id_is_mainnet network_id = network_id == 0x00

abbrev pub network_id_is_testnet : ℕ → Bool
network_id_is_testnet network_id = network_id == 0x10

abbrev pub network_id_is_valid : ℕ → Bool
network_id_is_valid network_id = leb network_id 252

unfoldable pub network_id_is_supported : ℕ → Bool
network_id_is_supported network_id =
    network_id_is_mainnet network_id || network_id_is_testnet network_id

abbrev pub is_fresh : ℕ → ℕ → Bool
is_fresh old id = not (id == 0) && not (id == old)

unfoldable pub first_fresh : ℕ → List ℕ → Option ℕ
first_fresh old [] = none
first_fresh old (id ∷ random) = if is_fresh old id then some id else first_fresh old random

fresh_or_rest :
    (x old id : ℕ) (random : List ℕ) (rest : ℕ × List ℕ)
    → (if is_fresh old x then some x else first_fresh old random) ≡ some id
    → (first_fresh old random ≡ some id → (rest.0 ≡ id) × (id ≢ 0) × (id ≢ old))
    → ((if (x == 0) || (x == old) then rest else (x, random)).0 ≡ id) × (id ≢ 0) × (id ≢ old)
fresh_or_rest x old id random rest h next = ground arith

-- Where some byte that the generator gives is neither zero nor the old id, the loop ends with the
-- first one that is not.
pub session_id_new_random_lem :
    (old : ℕ) (random : List ℕ) (id : ℕ)
    → first_fresh old random ≡ some id
    → ((session_id_new_random old random).0 ≡ id) × (id ≢ 0) × (id ≢ old)
unfolding session_id_new_random first_fresh
session_id_new_random_lem old [] id h = absurd (ground arith)
session_id_new_random_lem old (x ∷ random) id h =
    fresh_or_rest x old id random _ h (session_id_new_random_lem old random id)
