-- ===== src/Ergo/Table.antt =====
-- src/ergo/tx_ser_table.c: the serializer of the table of distinct token ids.
use ledger_app_ergo.Prelude.{
  ℕ, zero, suc, ◌+◌, Bool, true, false, none, some, List, [], get_or, set, replicate, leb, ltb,
  ◌==◌, not, ◌||◌, if◌then◌else◌, u8_mod, wrap_suc,
}
use ledger_app_ergo.Prelude.Flow.{
  stop, go, Body, Function, ◌>>=◌, ◌>>◌, ret, pure, read, when, call, function,
}
use ledger_app_ergo.Sdk.{Buffer, BufferSdk, HashSdk}
use ledger_app_ergo.Common.Buffer.{buffer_data_len, buffer_read_bytes}
use ledger_app_ergo.Common.RwBuffer.{rw_buffer_new_local_empty}
use ledger_app_ergo.Common.RwBuffer.Contents.{contents}
use ledger_app_ergo.Common.Gve.{is_gve_ok, gve_put_u32, gve_put_u64}
use ledger_app_ergo.Ergo.TokenTable.{TokenTable, token_max_count, ergo_id_len}
use ledger_app_ergo.Ergo.Memory.{Memory, update_hash}

pub data TableResult : Type 0 where
  ok more_data err_bad_token_id err_too_many_tokens err_hasher err_buffer : TableResult

-- The pointer `tokens_table` is the memory's table.
pub record TableContext : Type 0 where
  pub distinct_tokens_count : ℕ

abbrev blank_ids : List (List ℕ)
blank_ids = replicate token_max_count (replicate ergo_id_len 0)

-- `parse_token`: the place is counted before the id is read. It goes on with the buffer behind the
-- id for the result OK, and stops with any other result, which its caller returns at once.
unfoldable pub parse_token : BufferSdk → Buffer → ℕ → Body TableResult TokenTable Buffer
parse_token sdk tokens tokens_max table =
    let counted = record table { count = wrap_suc u8_mod table.count } in
    if leb tokens_max table.count
    then stop err_too_many_tokens table
    else elim (buffer_read_bytes sdk tokens ergo_id_len) [
      | none ↦ stop err_bad_token_id counted
      | some (id, rest) ↦ go rest (record counted { tokens = set table.tokens table.count id })
    ]

unfoldable pub ergo_tx_serializer_table_init :
    TableContext → ℕ → TokenTable → TableResult × TableContext × TokenTable
ergo_tx_serializer_table_init context tokens_count table =
    if not (table.count == 0) || ltb token_max_count tokens_count
    then (err_too_many_tokens, context, table)
    else (ok, record { distinct_tokens_count = tokens_count }, record table { tokens = blank_ids })

unfoldable pub ergo_tx_serializer_table_is_finished : TableContext → TokenTable → Bool
ergo_tx_serializer_table_is_finished context table = leb context.distinct_tokens_count table.count

-- The loop of `ergo_tx_serializer_table_add`. Each round reads an id, so as many rounds as there are
-- bytes are enough.
unfoldable pub parse_tokens :
    BufferSdk → (rounds : ℕ) → Buffer → ℕ → Body TableResult TokenTable (Unit {0})
parse_tokens sdk zero tokens tokens_max = pure tt
parse_tokens sdk (suc rounds) tokens tokens_max = elim (buffer_data_len tokens == 0) [
  | true ↦ pure tt
  | false ↦ do rest ← parse_token sdk tokens tokens_max; parse_tokens sdk rounds rest tokens_max
]

unfoldable pub ergo_tx_serializer_table_add :
    BufferSdk → TableContext → Buffer → Function TableResult TokenTable
unfolding parse_tokens parse_token ergo_tx_serializer_table_is_finished
ergo_tx_serializer_table_add sdk context tokens = function do
  parse_tokens sdk (buffer_data_len tokens) tokens context.distinct_tokens_count
  table ← read
  ret (if ergo_tx_serializer_table_is_finished context table then ok else more_data)

module _ {H E : Type 0} (hs : HashSdk H) where
  -- The loop over the ids from index `i` on.
  unfoldable pub hash_ids : (rounds i : ℕ) → Body TableResult (Memory H E) (Unit {0})
  unfolding update_hash
  hash_ids zero i = pure tt
  hash_ids (suc rounds) i = do
    m ← read
    hashed ← call (update_hash hs (get_or m.shared.tokens_table.tokens i []))
    when (not hashed) (ret err_hasher)
    hash_ids rounds (i + 1)

  unfoldable pub ergo_tx_serializer_table_hash : TableContext → Function TableResult (Memory H E)
  unfolding hash_ids update_hash gve_put_u64
  ergo_tx_serializer_table_hash context =
      let (res, buffer) =
        gve_put_u32 (rw_buffer_new_local_empty 10) context.distinct_tokens_count in
      function do
        when (not (is_gve_ok res)) (ret err_buffer)
        hashed ← call (update_hash hs (contents buffer))
        when (not hashed) (ret err_hasher)
        hash_ids context.distinct_tokens_count 0
        ret ok
