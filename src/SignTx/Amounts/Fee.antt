-- ===== src/SignTx/Amounts/Fee.antt =====
-- The value and the fee of a transaction, over any run of outputs.
use ledger_app_ergo.Prelude.{ℕ, ◌+◌, ◌≤◌, ◌<◌, ◌≡◌, List, [], ◌∷◌, arith, ◌⊎◌, ◌^◌}
use ledger_app_ergo.Common.SafeInt.Exact.{checked_add_u64_exact, checked_sub_u64_exact}
use ledger_app_ergo.Ergo.Box.{BoxResult, BoxType, fee, change, tree}
use ledger_app_ergo.SignTx.Amounts.{
  Amounts, AmountsFrame, stx_amounts_add_output, stx_amounts_add_input,
}
use ledger_app_ergo.Sw.{sw_ok, sw_u64_overflow}

-- The sums are numbers of type uint64_t.
pub record IsSum (a : Amounts) : Type 0 where
  pub value_fits : a.value < 2 ^ 64
  pub fee_fits : a.fee_value < 2 ^ 64

-- What one output takes off the value, and adds to the fee.
abbrev pub taken : BoxType → ℕ → ℕ
taken fee v = v
taken change v = v
taken tree v = 0

abbrev pub fee_part : BoxType → ℕ → ℕ
fee_part fee v = v
fee_part change v = 0
fee_part tree v = 0

-- An output below 2^64, added to sums of 64 bits, leaves the table and the token sums and keeps
-- sums of 64 bits. Either the result is OK, and exactly the parts of its type move from the value
-- to the fee, or it is the overflow result, and the value is too small or the fee would pass 64
-- bits.
pub stx_amounts_add_output_moves :
    (type : BoxType) (v : ℕ) (s : AmountsFrame)
    → v < 2 ^ 64
    → IsSum s.env
    → let (res, s') = stx_amounts_add_output type v s in
      (s'.tokens_table ≡ s.tokens_table)
      × (s'.env.tokens ≡ s.env.tokens)
      × IsSum s'.env
      × (((res ≡ BoxResult.ok)
            × (s'.env.value + taken type v ≡ s.env.value)
            × (s'.env.fee_value ≡ s.env.fee_value + fee_part type v))
          ⊎ ((res ≡ BoxResult.err_u64_overflow)
              × ((s.env.value < taken type v) ⊎ (2 ^ 64 ≤ s.env.fee_value + fee_part type v))))
unfolding stx_amounts_add_output
stx_amounts_add_output_moves fee v s hv h = ground (
  arith,
  checked_sub_u64_exact s.env.value v h.value_fits hv,
  checked_add_u64_exact s.env.fee_value v h.fee_fits hv,
)
stx_amounts_add_output_moves change v s hv h =
    ground (arith, checked_sub_u64_exact s.env.value v h.value_fits hv)
stx_amounts_add_output_moves tree v s hv h = ground arith

-- The outputs of a transaction in order, each added with the result OK.
pub data Added : AmountsFrame → List (BoxType × ℕ) → AmountsFrame → Type 0 where
  none_added : {s : AmountsFrame} → Added s [] s
  one_added :
      {s t u : AmountsFrame} {type : BoxType} {v : ℕ} {rest : List (BoxType × ℕ)}
      → v < 2 ^ 64
      → stx_amounts_add_output type v s ≡ (BoxResult.ok, t)
      → Added t rest u
      → Added s ((type, v) ∷ rest) u

abbrev pub total_taken : List (BoxType × ℕ) → ℕ
total_taken [] = 0
total_taken ((type, v) ∷ rest) = taken type v + total_taken rest

abbrev pub total_fee : List (BoxType × ℕ) → ℕ
total_fee [] = 0
total_fee ((type, v) ∷ rest) = fee_part type v + total_fee rest

-- Over any run of outputs below 2^64 that are each added with the result OK, from sums of 64 bits:
-- the value that is left plus all that change and fee outputs took is the value at the start, the
-- fee has grown by exactly the fee outputs, and the sums still fit 64 bits.
pub outputs_balance :
    {s t : AmountsFrame} {outputs : List (BoxType × ℕ)}
    → IsSum s.env
    → Added s outputs t
    → (t.env.value + total_taken outputs ≡ s.env.value)
      × (t.env.fee_value ≡ s.env.fee_value + total_fee outputs)
      × IsSum t.env
outputs_balance h none_added = ground arith
outputs_balance h (one_added {s} {t} {type} {v} fits e rest) =
    let step = stx_amounts_add_output_moves type v s fits h in
    let fits' : IsSum t.env = ground (arith, step) in
    ground (arith, step, outputs_balance fits' rest)

-- An input value below 2^64 is added to sums of 64 bits with the OK word exactly when the sum fits
-- 64 bits, and is refused with the overflow word and an unchanged value otherwise; the table, the
-- token sums and the fee stay.
pub stx_amounts_add_input_exact :
    (v : ℕ) (s : AmountsFrame)
    → v < 2 ^ 64
    → IsSum s.env
    → let (res, s') = stx_amounts_add_input v s in
      (s'.tokens_table ≡ s.tokens_table)
      × (s'.env.tokens ≡ s.env.tokens)
      × (s'.env.fee_value ≡ s.env.fee_value)
      × (((res ≡ sw_ok) × (s.env.value + v < 2 ^ 64) × (s'.env.value ≡ s.env.value + v))
          ⊎ ((res ≡ sw_u64_overflow) × (2 ^ 64 ≤ s.env.value + v) × (s'.env.value ≡ s.env.value)))
unfolding stx_amounts_add_input
stx_amounts_add_input_exact v s hv h =
    ground (arith, checked_add_u64_exact s.env.value v h.value_fits hv)
