-- ===== src/Ergo/TokenTable.antt =====
-- src/ergo/tx_ser_table.h: the table of token ids, `token_table_t`.
pub mod Find
use ledger_app_ergo.Prelude.{
  ℕ, zero, suc, ◌+◌, Bool, List, [], get_or, set, leb, ◌==◌, not, if◌then◌else◌, eq_bytes, u8_mod,
  wrap_suc,
}

abbrev pub token_max_count : ℕ
token_max_count = 100

abbrev pub ergo_id_len : ℕ
ergo_id_len = 32

abbrev pub index_not_exist : ℕ
index_not_exist = 0xff

abbrev pub is_element_found : ℕ → Bool
is_element_found index = not (index == index_not_exist)

-- `tokens` is the array of TOKEN_MAX_COUNT ids of ERGO_ID_LEN bytes.
pub record TokenTable : Type 0 where
  pub count : ℕ
  pub tokens : List (List ℕ)

-- The loop from index `i` on, with the rounds that are left.
unfoldable pub find_from : (rounds i : ℕ) → TokenTable → List ℕ → ℕ
find_from zero i table id = index_not_exist
find_from (suc rounds) i table id =
    let later = find_from rounds (i + 1) table id in
    if eq_bytes (get_or table.tokens i []) id then i else later

unfoldable pub token_table_find_token_index : TokenTable → List ℕ → ℕ
unfolding find_from
token_table_find_token_index table id = find_from table.count 0 table id

unfoldable pub token_table_add_token : TokenTable → List ℕ → ℕ × TokenTable
token_table_add_token table id =
    if leb token_max_count table.count then (index_not_exist, table) else (
      table.count,
      record { count = wrap_suc u8_mod table.count; tokens = set table.tokens table.count id },
    )
