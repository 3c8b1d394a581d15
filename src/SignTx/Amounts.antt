-- ===== src/SignTx/Amounts.antt =====
-- src/commands/signtx/stx_amounts.h and stx_amounts.c: the sums that the user is asked to confirm.
pub mod Fee
pub mod Tokens
pub mod InputTokens
use ledger_app_ergo.Prelude.{
  ℕ, zero, suc, ◌+◌, Bool, true, false, Option, none, some, List, [], get_or, set, replicate, ◌==◌,
  not, ◌&&◌, if◌then◌else◌, u8_mod, wrap_suc,
}
use ledger_app_ergo.Prelude.Flow.{
  stop, go, Body, Function, ◌>>=◌, ◌>>◌, ret, pure, read, modify, when, call, function,
}
use ledger_app_ergo.Common.SafeInt.{
  checked_add_u64, checked_sub_u64, checked_add_i64, checked_sub_i64,
}
use ledger_app_ergo.Ergo.TokenTable.{
  TokenTable, token_max_count, ergo_id_len, index_not_exist, is_element_found,
  token_table_find_token_index, token_table_add_token,
}
use ledger_app_ergo.Ergo.Memory.{Shared}
use ledger_app_ergo.Ergo.Input.{InputResult}
use ledger_app_ergo.Ergo.Box.{BoxResult, BoxType, fee, change, tree}
use ledger_app_ergo.Sw.{sw_ok, sw_u64_overflow}

-- `tokens` holds the patterns of TOKEN_MAX_COUNT numbers of type int64_t. The member `tokens_table`
-- is the shared table that stands beside this record.
pub record Amounts : Type 0 where
  pub fee_value : ℕ
  pub value : ℕ
  pub tokens : List ℕ

abbrev pub AmountsFrame : Type 0
AmountsFrame = Shared Amounts

abbrev pub set_tokens : List ℕ → AmountsFrame → AmountsFrame
set_tokens tokens s = record s { env = record s.env { tokens = tokens } }

abbrev pub set_table : TokenTable → AmountsFrame → AmountsFrame
set_table table s = record s { tokens_table = table }

-- All bytes zero, the table too.
abbrev pub stx_amounts_init : AmountsFrame
stx_amounts_init = record {
  tokens_table = record { count = 0; tokens = replicate token_max_count (replicate ergo_id_len 0) };
  env = record { fee_value = 0; value = 0; tokens = replicate token_max_count 0 };
}

unfoldable pub stx_amounts_add_input : ℕ → Function ℕ AmountsFrame
stx_amounts_add_input value s = elim (checked_add_u64 s.env.value value) [
  | none ↦ (sw_u64_overflow, s)
  | some sum ↦ (sw_ok, record s { env = record s.env { value = sum } })
]

-- The index of a token, which is added with the sum 0 if it is new.
unfoldable pub find_or_add_token : List ℕ → Body InputResult AmountsFrame ℕ
find_or_add_token tn_id s =
    let index = token_table_find_token_index s.tokens_table tn_id in
    let (fresh, table) = token_table_add_token s.tokens_table tn_id in
    if is_element_found index
    then go index s
    else (if is_element_found fresh
        then go fresh (set_tokens (set s.env.tokens fresh 0) (set_table table s))
        else stop InputResult.err_too_many_tokens (set_table table s))

abbrev store_token : {R : Type 0} → ℕ → Option ℕ → (done overflow : R) → Function R AmountsFrame
store_token index none done overflow s = (overflow, s)
store_token index (some sum) done overflow s = (done, set_tokens (set s.env.tokens index sum) s)

unfoldable pub stx_amounts_add_input_token :
    (box_id tn_id : List ℕ) → ℕ → Function InputResult AmountsFrame
unfolding find_or_add_token
stx_amounts_add_input_token box_id tn_id value = function do
  index ← find_or_add_token tn_id
  s ← read
  res ← call (
      store_token index (checked_add_i64 (get_or s.env.tokens index 0) value) InputResult.ok
        InputResult.err_u64_overflow)
  ret res

abbrev decrease_value : ℕ → Body BoxResult AmountsFrame (Unit {0})
decrease_value value s = elim (checked_sub_u64 s.env.value value) [
  | none ↦ stop BoxResult.err_u64_overflow s
  | some left ↦ go tt (record s { env = record s.env { value = left } })
]

abbrev increase_fee : ℕ → Body BoxResult AmountsFrame (Unit {0})
increase_fee value s = elim (checked_add_u64 s.env.fee_value value) [
  | none ↦ stop BoxResult.err_u64_overflow s
  | some sum ↦ go tt (record s { env = record s.env { fee_value = sum } })
]

unfoldable pub stx_amounts_add_output : BoxType → ℕ → Function BoxResult AmountsFrame
stx_amounts_add_output change value = function do decrease_value value; ret BoxResult.ok
stx_amounts_add_output fee value =
    function do decrease_value value; increase_fee value; ret BoxResult.ok
stx_amounts_add_output tree value = function do ret BoxResult.ok

unfoldable pub stx_amounts_add_output_token :
    BoxType → (id : List ℕ) → ℕ → Function BoxResult AmountsFrame
stx_amounts_add_output_token type id value s =
    let index = token_table_find_token_index s.tokens_table id in
    if is_element_found index
    then store_token index (checked_sub_i64 (get_or s.env.tokens index 0) value) BoxResult.ok
        BoxResult.err_u64_overflow s
    else (BoxResult.err_bad_token_id, s)

-- The loops over the sums from index `i` on, with the rounds that are left.
unfoldable pub count_non_zero : (rounds i count : ℕ) → List ℕ → ℕ
count_non_zero zero i count tokens = count
count_non_zero (suc rounds) i count tokens =
    count_non_zero rounds (i + 1) (if get_or tokens i 0 == 0 then count else wrap_suc u8_mod count)
      tokens

unfoldable pub stx_amounts_non_zero_tokens_count : Amounts → ℕ
unfolding count_non_zero
stx_amounts_non_zero_tokens_count ctx = count_non_zero token_max_count 0 0 ctx.tokens

unfoldable pub index_non_zero : (rounds i count zero_index : ℕ) → List ℕ → ℕ
index_non_zero zero i count zero_index tokens = index_not_exist
index_non_zero (suc rounds) i count zero_index tokens =
    let here = not (get_or tokens i 0 == 0) in
    let later =
      index_non_zero rounds (i + 1) (if here then wrap_suc u8_mod count else count) zero_index
        tokens in
    if here && (count == zero_index) then i else later

unfoldable pub stx_amounts_non_zero_token_index : Amounts → ℕ → ℕ
unfolding index_non_zero
stx_amounts_non_zero_token_index ctx zero_index =
    index_non_zero token_max_count 0 0 zero_index ctx.tokens
