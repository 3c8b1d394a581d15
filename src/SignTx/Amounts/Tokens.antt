-- ===== src/SignTx/Amounts/Tokens.antt =====
-- The token sums of a transaction, and of its outputs.
use ledger_app_ergo.Prelude.{
  ℕ, ◌+◌, ◌<◌, ◌≡◌, ◌≢◌, List, arith, refl, sym, ◌⊎◌, inl, inr, ◌^◌, length, get_or, set,
  get_or-set_self, get_or-set_ne, true, Option-cases,
}
use ledger_app_ergo.Common.SafeInt.{checked_sub_i64}
use ledger_app_ergo.Common.SafeInt.Exact.{up, down, checked_sub_i64_exact}
use ledger_app_ergo.Ergo.TokenTable.{
  token_max_count, is_element_found, token_table_find_token_index,
}
use ledger_app_ergo.Ergo.Box.{BoxResult, BoxType}
use ledger_app_ergo.SignTx.Amounts.{Amounts, AmountsFrame, set_tokens, stx_amounts_add_output_token}

-- The sums are patterns of numbers of type int64_t, one for each place of the table.
pub record AreSums (a : Amounts) : Type 0 where
  pub places : length a.tokens ≡ token_max_count
  pub fits : (i : ℕ) → get_or a.tokens i 0 < 2 ^ 64

-- The sums of two frames differ at one index at most.
abbrev pub SameBut : ℕ → AmountsFrame → AmountsFrame → Type 0
SameBut index s s' =
    (s'.env.value ≡ s.env.value)
    × (s'.env.fee_value ≡ s.env.fee_value)
    × ((i : ℕ) → i ≢ index → get_or s'.env.tokens i 0 ≡ get_or s.env.tokens i 0)

pub SameBut-store :
    (index sum : ℕ) (s : AmountsFrame) → SameBut index s (set_tokens (set s.env.tokens index sum) s)
SameBut-store index sum s =
    (refl, refl, λ i other. get_or-set_ne s.env.tokens index i sum 0 (λ e. other (sym e)))

pub stored :
    (index sum : ℕ) (s : AmountsFrame)
    → AreSums s.env
    → index < token_max_count
    → get_or (set s.env.tokens index sum) index 0 ≡ sum
stored index sum s h lt = get_or-set_self s.env.tokens index sum 0 (omega (arith, h.places))

-- Where the token sums are 64-bit patterns, the amount is below 2^64 and the table holds the
-- token: the result is OK and the token's sum, read as a signed integer, has gone down by exactly
-- the amount, or it is the overflow result, nothing has changed, and the lower sum would be below
-- -2^63. The value, the fee, the table and the sums of all other tokens stay in both cases.
pub stx_amounts_add_output_token_exact :
    (type : BoxType) (id : List ℕ) (v : ℕ) (s : AmountsFrame)
    → v < 2 ^ 64
    → AreSums s.env
    → token_table_find_token_index s.tokens_table id < token_max_count
    → let index = token_table_find_token_index s.tokens_table id in
      let (res, s') = stx_amounts_add_output_token type id v s in
      let old = get_or s.env.tokens index 0 in
      let new = get_or s'.env.tokens index 0 in
      (s'.tokens_table ≡ s.tokens_table)
      × SameBut index s s'
      × (((res ≡ BoxResult.ok) × (up new + down old + v ≡ down new + up old))
          ⊎ ((res ≡ BoxResult.err_u64_overflow) × (s' ≡ s) × (up old + 2 ^ 63 < down old + v)))
unfolding stx_amounts_add_output_token
stx_amounts_add_output_token_exact type id v s hv h found =
    let index = token_table_find_token_index s.tokens_table id in
    let old = get_or s.env.tokens index 0 in
    let known : is_element_found index ≡ true = ground arith in
    let exact = checked_sub_i64_exact old v (h.fits index) hv in
    rw known (elim (Option-cases (checked_sub_i64 old v)) [
      | inl refused ↦ rw refused (
        refl,
        (refl, refl, λ i other. refl),
        inr (refl, refl, ground (arith, exact, refused, h.fits index)),
      )
      | inr (sum, e) ↦ rw e (
        refl,
        SameBut-store index sum s,
        inl (refl, rw (stored index sum s h found) (ground (arith, exact, e, h.fits index))),
      )
    ])
