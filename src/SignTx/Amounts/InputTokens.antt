-- ===== src/SignTx/Amounts/InputTokens.antt =====
-- The token sums of the inputs.
use ledger_app_ergo.Prelude.{
  ℕ, zero, suc, ◌+◌, ◌≤◌, ◌<◌, ◌≡◌, List, [], ◌∷◌, none, some, arith, refl, sym, ◌∙◌, ◌⊎◌, inl, inr,
  ◌^◌, get_or, set, length-set, get_or-set_ne, true, false, Option-cases, leb, wrap_suc, u8_mod,
}
use native.Mathlib.Decide.{dec_lt}
use ledger_app_ergo.Common.SafeInt.{checked_add_i64}
use ledger_app_ergo.Common.SafeInt.Exact.{up, down, checked_add_i64_exact}
use ledger_app_ergo.Ergo.TokenTable.{
  TokenTable, token_max_count, is_element_found, token_table_find_token_index,
  token_table_add_token,
}
use ledger_app_ergo.Ergo.TokenTable.Find.{
  IsTable, NotBefore, id_at, token_table_find_token_index-Finds,
}
use ledger_app_ergo.Ergo.Input.{InputResult}
use ledger_app_ergo.SignTx.Amounts.{
  AmountsFrame, set_tokens, set_table, store_token, stx_amounts_add_input_token, find_or_add_token,
}
use ledger_app_ergo.SignTx.Amounts.Tokens.{AreSums, SameBut, SameBut-store, stored}

-- Adding `v` to a sum of the integer range of int64_t, at an index of the table.
pub AddedAt : (i old v : ℕ) → InputResult → (s s' : AmountsFrame) → Type 0
AddedAt i old v res s s' =
    SameBut i s s'
    × (((res ≡ InputResult.ok)
          × (up (get_or s'.env.tokens i 0) + down old
              ≡ down (get_or s'.env.tokens i 0) + up old + v))
        ⊎ ((res ≡ InputResult.err_u64_overflow) × (s' ≡ s) × (down old + 2 ^ 63 ≤ up old + v)))

store_token-AddedAt :
    (i v : ℕ) (s : AmountsFrame)
    → v < 2 ^ 64
    → AreSums s.env
    → i < token_max_count
    → let old = get_or s.env.tokens i 0 in
      let (res, s') =
        store_token i (checked_add_i64 old v) InputResult.ok InputResult.err_u64_overflow s in
      (s'.tokens_table ≡ s.tokens_table) × AddedAt i old v res s s'
unfolding AddedAt
store_token-AddedAt i v s hv h room =
    let old = get_or s.env.tokens i 0 in
    let exact = checked_add_i64_exact old v (h.fits i) hv in
    elim (Option-cases (checked_add_i64 old v)) [
      | inl refused ↦ rw refused (
        refl,
        ((refl, refl, λ j other. refl), inr (refl, refl, ground (arith, exact, refused, h.fits i))),
      )
      | inr (sum, e) ↦ rw e (
        refl,
        (
          SameBut-store i sum s,
          inl (refl, rw (stored i sum s h room) (ground (arith, exact, e, h.fits i))),
        ),
      )
    ]

-- No place of the table below the count holds the id.
abbrev pub IsNew : AmountsFrame → List ℕ → Type 0
IsNew s id = NotBefore s.tokens_table id 0 s.tokens_table.count

-- A new token's place holds the amount, unless that is no int64_t: then it holds 0.
pub AddedNew : (i v : ℕ) → InputResult → (s s' : AmountsFrame) → Type 0
AddedNew i v res s s' =
    SameBut i s s'
    × (((res ≡ InputResult.ok) × (v < 2 ^ 63) × (get_or s'.env.tokens i 0 ≡ v))
        ⊎ ((res ≡ InputResult.err_u64_overflow) × (2 ^ 63 ≤ v) × (get_or s'.env.tokens i 0 ≡ 0)))

zeroed : (i : ℕ) → TokenTable → AmountsFrame → AmountsFrame
zeroed i table s = set_tokens (set s.env.tokens i 0) (set_table table s)

set-fits : (xs : List ℕ) (i j : ℕ) → get_or xs j 0 < 2 ^ 64 → get_or (set xs i 0) j 0 < 2 ^ 64
set-fits [] i j h = h
set-fits (x ∷ xs) zero zero h = omega arith
set-fits (x ∷ xs) zero (suc j) h = h
set-fits (x ∷ xs) (suc i) zero h = h
set-fits (x ∷ xs) (suc i) (suc j) h = set-fits xs i j h

zeroed-AreSums :
    (i : ℕ) (table : TokenTable) (s : AmountsFrame) → AreSums s.env → AreSums (zeroed i table s).env
unfolding zeroed
zeroed-AreSums i table s h = record {
  places = omega (arith, h.places, length-set s.env.tokens i 0);
  fits = λ j. set-fits s.env.tokens i j (h.fits j);
}

store_token-AddedNew :
    (i v : ℕ) (table : TokenTable) (s : AmountsFrame)
    → v < 2 ^ 64
    → AreSums s.env
    → i < token_max_count
    → let z = zeroed i table s in
      let old = get_or z.env.tokens i 0 in
      let (res, s') =
        store_token i (checked_add_i64 old v) InputResult.ok InputResult.err_u64_overflow z in
      (s'.tokens_table ≡ table) × AddedNew i v res s s'
unfolding AddedNew AddedAt zeroed
store_token-AddedNew i v table s hv h room =
    let z = zeroed i table s in
    let tokens = s.env.tokens in
    let zero_there : get_or (set tokens i 0) i 0 ≡ 0 = stored i 0 s h room in
    let exact = checked_add_i64_exact 0 v (omega arith) hv in
    let cleared : SameBut i s z = SameBut-store i 0 s in
    elim (dec_lt v (2 ^ 63)) [
      | yes small ↦
          (let e : checked_add_i64 0 v ≡ some v = ground (arith, exact) in
            rw (zero_there, e)
              (
                refl,
                (
                  (
                    refl,
                    refl,
                    λ j other.
                        get_or-set_ne (set tokens i 0) i j v 0 (λ q. other (sym q))
                        ∙ cleared.2 j other,
                  ),
                  inl (refl, small, stored i v z (zeroed-AreSums i table s h) room),
                ),
              ))
      | no large ↦
          (let e : checked_add_i64 0 v ≡ none = ground (arith, exact) in
            rw (zero_there, e) (refl, (cleared, inr (refl, omega arith, zero_there))))
    ]

-- The token's sum in the frame: what its place holds, and 0 while the table does not hold the id.
pub AddsInput : (id : List ℕ) → ℕ → InputResult → (s s' : AmountsFrame) → Type 0
AddsInput id v res s s' =
    ((i : ℕ) × (i < s.tokens_table.count)
      × (id_at s.tokens_table i ≡ id)
      × (s'.tokens_table ≡ s.tokens_table)
      × AddedAt i (get_or s.env.tokens i 0) v res s s')
    ⊎ ((IsNew s id)
        × (s.tokens_table.count < token_max_count)
        × (s'.tokens_table ≡ (token_table_add_token s.tokens_table id).1)
        × AddedNew s.tokens_table.count v res s s')
    ⊎ ((IsNew s id)
        × (s.tokens_table.count ≡ token_max_count)
        × (res ≡ InputResult.err_too_many_tokens)
        × (s' ≡ s))

-- Where the token sums are 64-bit patterns, the table is well formed and the amount is below 2^64,
-- one of three holds. The table holds the token at a place whose sum, read as a signed integer,
-- grows by exactly the amount, or stays with the overflow result because it would pass 2^63 - 1.
-- The token is new and there is room: it is added to the table and its sum is the amount, or 0
-- with the overflow result because the amount is 2^63 or more. The token is new and the table is
-- full: the result is the too-many-tokens one and nothing changes. The value, the fee and the sums
-- of all other tokens stay.
pub stx_amounts_add_input_token_exact :
    (box_id id : List ℕ) (v : ℕ) (s : AmountsFrame)
    → v < 2 ^ 64
    → AreSums s.env
    → IsTable s.tokens_table
    → let (res, s') = stx_amounts_add_input_token box_id id v s in AddsInput id v res s s'
unfolding AddsInput stx_amounts_add_input_token find_or_add_token token_table_add_token zeroed
stx_amounts_add_input_token_exact box_id id v s hv h ht =
    let t = s.tokens_table in
    let index = token_table_find_token_index t id in
    elim (token_table_find_token_index-Finds t id) [
      | inl (_, below, here, _) ↦
          (let known : is_element_found index ≡ true = ground (arith, ht.counted) in
            let (table, added) = store_token-AddedAt index v s hv h (omega (arith, ht.counted)) in
            rw known (inl (index, below, here, table, added)))
      | inr (none_found, new) ↦
          (let unknown : is_element_found index ≡ false = ground arith in
            elim (dec_lt t.count token_max_count) [
              | yes room ↦
                  (let found : is_element_found t.count ≡ true = ground arith in
                    let (table, added) =
                      store_token-AddedNew t.count v
                        (record {
                          count = wrap_suc u8_mod t.count;
                          tokens = set t.tokens t.count id;
                        })
                        s hv h room in
                    let open_place : leb token_max_count t.count ≡ false = ground arith in
                    rw unknown (rw (open_place, found) (inr (inl (new, room, table, added)))))
              | no full ↦
                  (let closed : leb token_max_count t.count ≡ true = ground arith in
                    rw unknown (rw closed (inr (inr (new, omega (arith, ht.counted), refl, refl)))))
            ])
    ]
