-- ===== src/Examples/SignTx.antt =====
-- Runs of the components of the signing command.
use ledger_app_ergo.Prelude.{
  ℕ, ◌+◌, ◌≡◌, ◌<◌, ◌≤◌, ◌^◌, zero, suc, ◌⊎◌, List, [], ◌∷◌, refl, arith, replicate, get_or,
  eq_bytes_refl,
}
use ledger_app_ergo.Examples.Device.{byte_log, one_token}
use ledger_app_ergo.Common.SafeInt.{checked_add_u64, checked_sub_u64}
use ledger_app_ergo.Common.SafeInt.Exact.{up, down}
use ledger_app_ergo.Ergo.TokenTable.{token_max_count, find_from, token_table_find_token_index}
use ledger_app_ergo.Ergo.TokenTable.Find.{IsTable}
use ledger_app_ergo.Ergo.Box.{BoxResult, BoxType, fee, change, tree}
use ledger_app_ergo.SignTx.Amounts.{
  Amounts, AmountsFrame, stx_amounts_add_output, stx_amounts_add_input_token,
  stx_amounts_add_output_token, stx_amounts_add_input,
}
use ledger_app_ergo.SignTx.Amounts.Fee.{
  IsSum, Added, none_added, one_added, outputs_balance, stx_amounts_add_output_moves,
  stx_amounts_add_input_exact, total_taken, total_fee,
}
use ledger_app_ergo.SignTx.Amounts.Tokens.{AreSums, SameBut, stx_amounts_add_output_token_exact}
use ledger_app_ergo.SignTx.Amounts.InputTokens.{AddsInput, stx_amounts_add_input_token_exact}
use ledger_app_ergo.SignTx.Output.{
  OutputInfo, TreeInfo, Bip32Path, stx_output_info_init, maybe_finished, is_finished, with_type,
  with_tree_set, stx_output_info_set_bip32,
}
use ledger_app_ergo.SignTx.Output.Once.{
  Decided, by_path, by_fee, set_tree_by, set_tree_by_refused, set_tree_by-Decided,
}
use ledger_app_ergo.Sw.{sw_ok, sw_u64_overflow, sw_bad_state}

abbrev sums : (fee_value value : ℕ) → AmountsFrame
sums fee_value value =
    let amounts : Amounts = record {
      fee_value = fee_value;
      value = value;
      tokens = 5 ∷ replicate 99 0;
    } in
    record { tokens_table = one_token; env = amounts }

abbrev outputs : List (BoxType × ℕ)
outputs = (change, 30) ∷ (tree, 60) ∷ (fee, 10) ∷ []

abbrev sums-IsSum : IsSum (sums 0 100).env
sums-IsSum = record { value_fits = omega arith; fee_fits = omega arith }

run : Added (sums 0 100) outputs (sums 10 60)
unfolding stx_amounts_add_output checked_sub_u64 checked_add_u64
run =
    one_added (omega arith) refl
      (one_added (omega arith) refl (one_added (omega arith) refl none_added))

outputs_balance_example :
    ((sums 10 60).env.value + total_taken outputs ≡ (sums 0 100).env.value)
    × ((sums 10 60).env.fee_value ≡ (sums 0 100).env.fee_value + total_fee outputs)
    × IsSum (sums 10 60).env
outputs_balance_example = outputs_balance sums-IsSum run

stx_amounts_add_output_moves_example :
    let (res, s') = stx_amounts_add_output fee 30 (sums 0 100) in
    (s'.tokens_table ≡ one_token)
    × (s'.env.tokens ≡ 5 ∷ replicate 99 0)
    × IsSum s'.env
    × (((res ≡ BoxResult.ok) × (s'.env.value + 30 ≡ 100) × (s'.env.fee_value ≡ 0 + 30))
        ⊎ ((res ≡ BoxResult.err_u64_overflow) × ((100 < 30) ⊎ (2 ^ 64 ≤ 0 + 30))))
stx_amounts_add_output_moves_example =
    stx_amounts_add_output_moves fee 30 (sums 0 100) (omega arith) sums-IsSum

stx_amounts_add_input_exact_example :
    let (res, s') = stx_amounts_add_input 7 (sums 0 100) in
    (s'.tokens_table ≡ one_token)
    × (s'.env.tokens ≡ 5 ∷ replicate 99 0)
    × (s'.env.fee_value ≡ 0)
    × (((res ≡ sw_ok) × (100 + 7 < 2 ^ 64) × (s'.env.value ≡ 100 + 7))
        ⊎ ((res ≡ sw_u64_overflow) × (2 ^ 64 ≤ 100 + 7) × (s'.env.value ≡ 100)))
stx_amounts_add_input_exact_example =
    stx_amounts_add_input_exact 7 (sums 0 100) (omega arith) sums-IsSum

zeros_fit : (n i : ℕ) → get_or (replicate n 0) i 0 < 2 ^ 64
zeros_fit zero i = omega arith
zeros_fit (suc n) zero = omega arith
zeros_fit (suc n) (suc i) = zeros_fit n i

five_fits : (i : ℕ) → get_or (5 ∷ replicate 99 0) i 0 < 2 ^ 64
five_fits zero = omega arith
five_fits (suc i) = zeros_fit 99 i

abbrev sums-AreSums : AreSums (sums 0 100).env
sums-AreSums = record { places = refl; fits = five_fits }

abbrev one_token-IsTable : IsTable one_token
one_token-IsTable = record { counted = omega arith; memory = refl }

stx_amounts_add_input_token_exact_example :
    let (res, s') = stx_amounts_add_input_token [] (8 ∷ []) 9 (sums 0 100) in
    AddsInput (8 ∷ []) 9 res (sums 0 100) s'
stx_amounts_add_input_token_exact_example =
    stx_amounts_add_input_token_exact [] (8 ∷ []) 9 (sums 0 100) (omega arith) sums-AreSums
      one_token-IsTable

found : token_table_find_token_index one_token (7 ∷ []) < token_max_count
unfolding token_table_find_token_index find_from
found = rw (eq_bytes_refl (7 ∷ [])) (omega arith)

stx_amounts_add_output_token_exact_example :
    let index = token_table_find_token_index one_token (7 ∷ []) in
    let (res, s') = stx_amounts_add_output_token change (7 ∷ []) 6 (sums 0 100) in
    let old = get_or (sums 0 100).env.tokens index 0 in
    let new = get_or s'.env.tokens index 0 in
    (s'.tokens_table ≡ one_token)
    × SameBut index (sums 0 100) s'
    × (((res ≡ BoxResult.ok) × (up new + down old + 6 ≡ down new + up old))
        ⊎ ((res ≡ BoxResult.err_u64_overflow)
            × (s' ≡ sums 0 100)
            × (up old + 2 ^ 63 < down old + 6)))
stx_amounts_add_output_token_exact_example =
    stx_amounts_add_output_token_exact change (7 ∷ []) 6 (sums 0 100) (omega arith) sums-AreSums
      found

abbrev any_hash : TreeInfo (List ℕ) → List ℕ
any_hash info = []

abbrev shown_address : OutputInfo (List ℕ)
shown_address = record {
  value = 5;
  tokens = replicate 100 0;
  state = 0x42;
  info = TreeInfo.public_key (2 ∷ []);
}

abbrev shown_address-Decided : Decided shown_address
shown_address-Decided = record { known = refl; complete = refl }

set_tree_by_refused_example :
    set_tree_by byte_log any_hash by_fee shown_address ≡ (sw_bad_state, shown_address)
set_tree_by_refused_example =
    set_tree_by_refused byte_log any_hash by_fee shown_address shown_address-Decided

abbrev own_path : Bip32Path
own_path = record { len = 3; path = 1 ∷ 2 ∷ 3 ∷ [] }

taken_path : (set_tree_by byte_log any_hash (by_path own_path) (stx_output_info_init 5)).0 ≡ sw_ok
unfolding stx_output_info_set_bip32 maybe_finished is_finished with_type with_tree_set
taken_path = refl

set_tree_by-Decided_example :
    Decided (set_tree_by byte_log any_hash (by_path own_path) (stx_output_info_init 5)).1
set_tree_by-Decided_example =
    set_tree_by-Decided byte_log any_hash (by_path own_path) (stx_output_info_init 5) (omega arith)
      refl taken_path
