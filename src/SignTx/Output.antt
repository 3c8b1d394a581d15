-- ===== src/SignTx/Output.antt =====
-- src/commands/signtx/stx_output.h and stx_output.c: what is shown of the output being added.
pub mod Flags
pub mod Once
use ledger_app_ergo.Prelude.{
  ℕ, zero, suc, ◌+◌, Bool, true, false, Option, none, some, List, [], get_or, set, take, replicate,
  ltb, ◌==◌, not, ◌&&◌, ◌||◌, if◌then◌else◌, bit_and, bit_or, u8_mod, wrap_suc, is_some,
}
use ledger_app_ergo.Prelude.Flow.{
  stop, go, Body, Function, ◌>>=◌, ◌>>◌, ret, pure, read, modify, when, call, function,
}
use ledger_app_ergo.Sdk.{HashSdk}
use ledger_app_ergo.Helpers.Blake2b.{blake2b_256_init, blake2b_update, blake2b_256_finalize}
use ledger_app_ergo.Ergo.TokenTable.{
  TokenTable, token_max_count, index_not_exist, is_element_found, find_from,
}
use ledger_app_ergo.Ergo.ErgoTree.{
  ergo_tree_p2pk_len, ergo_tree_p2sh_len, ergo_tree_parse_p2pk, ergo_tree_parse_p2sh,
}
use ledger_app_ergo.Ergo.Box.{BoxResult}
use ledger_app_ergo.Sw.{sw_bad_state, sw_hasher_error, sw_ok, sw_from_tx_box_result}

pub record Bip32Path : Type 0 where
  pub len : ℕ
  pub path : List ℕ

pub data OutputInfoType : Type 0 where
  unknown bip32 address script script_hash miners_fee : OutputInfoType

abbrev pub type_code : OutputInfoType → ℕ
type_code unknown = 0
type_code bip32 = 1
type_code address = 2
type_code script = 3
type_code script_hash = 4
type_code miners_fee = 5

-- The union: what was stored last.
pub data TreeInfo (H : Type 0) : Type 0 where
  tree_hash_ctx : H → TreeInfo H
  public_key : List ℕ → TreeInfo H
  tree_hash : List ℕ → TreeInfo H
  bip32_path : Bip32Path → TreeInfo H
  zero_bytes : TreeInfo H

-- The pointer `tokens_table` is the shared table, an argument where it is read.
pub record OutputInfo (H : Type 0) : Type 0 where
  pub value : ℕ
  pub tokens : List ℕ
  pub state : ℕ
  pub info : TreeInfo H

-- STX_OUTPUT_INFO_TYPE(ctx) == type, and the two flags.
abbrev pub has_type : OutputInfoType → ℕ → Bool
has_type type state = bit_and state 0x3f == type_code type

abbrev pub is_tree_set : ℕ → Bool
is_tree_set state = not (bit_and state 0x40 == 0)

abbrev pub is_box_finished : ℕ → Bool
is_box_finished state = not (bit_and state 0x80 == 0)

unfoldable pub with_box_finished : ℕ → ℕ
with_box_finished state = bit_or state 0x80

unfoldable pub with_tree_set : ℕ → ℕ
with_tree_set state = bit_or state 0x40

unfoldable pub with_type : OutputInfoType → ℕ → ℕ
with_type type state = bit_or (bit_and state 0xc0) (bit_and (type_code type) 0x3f)

unfoldable pub is_finished : ℕ → Bool
is_finished state = is_tree_set state && is_box_finished state

module _ {H : Type 0} where
  abbrev pub stx_output_info_init : ℕ → OutputInfo H
  stx_output_info_init value = record {
    value = value;
    tokens = replicate token_max_count 0;
    state = 0;
    info = zero_bytes;
  }

  -- The hash context in the union; `hash_of` reads one from the bytes of another member.
  abbrev hash_view : (TreeInfo H → H) → TreeInfo H → H
  hash_view hash_of (tree_hash_ctx h) = h
  hash_view hash_of other = hash_of other

  abbrev set_type : OutputInfoType → OutputInfo H → OutputInfo H
  set_type type s = record s { state = with_type type s.state }

  abbrev set_tree : OutputInfo H → OutputInfo H
  set_tree s = record s { state = with_tree_set s.state }

  abbrev set_info : TreeInfo H → OutputInfo H → OutputInfo H
  set_info info s = record s { info = info }

module _ {H : Type 0} (hs : HashSdk H) (hash_of : TreeInfo H → H) where
  unfoldable pub maybe_finished : Function BoxResult (OutputInfo H)
  unfolding is_finished blake2b_256_finalize
  maybe_finished s =
      let (finalized, digest, h) = blake2b_256_finalize hs (hash_view hash_of s.info) in
      if is_finished s.state && has_type script s.state
      then (if finalized
          then (BoxResult.ok, set_info (tree_hash digest) s)
          else (BoxResult.err_hasher, set_info (tree_hash_ctx h) s))
      else (BoxResult.ok, s)

  -- `return sw_from_tx_box_result(maybe_finished(ctx));`
  abbrev finish : Body ℕ (OutputInfo H) ℕ
  finish = do res ← call maybe_finished; ret (sw_from_tx_box_result res)

  unfoldable pub stx_output_info_set_bip32 : Bip32Path → Function ℕ (OutputInfo H)
  unfolding with_type with_tree_set maybe_finished
  stx_output_info_set_bip32 path = function do
    s ← read
    when (not (has_type unknown s.state)) (ret sw_bad_state)
    modify (set_type bip32)
    modify set_tree
    modify (set_info (bip32_path path))
    finish

  unfoldable pub stx_output_info_set_fee : Function ℕ (OutputInfo H)
  unfolding with_type with_tree_set maybe_finished
  stx_output_info_set_fee = function do
    s ← read
    when (not (has_type unknown s.state)) (ret sw_bad_state)
    modify (set_type miners_fee)
    modify set_tree
    finish

  -- The start of a script that is neither a key nor a script hash.
  abbrev start_script : Body ℕ (OutputInfo H) (Unit {0})
  start_script s =
      let (started, h) = blake2b_256_init hs (hash_view hash_of s.info) in
      let s' = set_info (tree_hash_ctx h) (set_type script s) in
      if started then go tt s' else stop sw_hasher_error s'

  abbrev as_script_hash : Option (List ℕ) → Body ℕ (OutputInfo H) (Unit {0})
  as_script_hash none s = start_script s
  as_script_hash (some hash) s =
      go tt (set_tree (set_type script_hash (set_info (tree_hash hash) s)))

  abbrev as_address : Option (List ℕ) → Option (List ℕ) → Body ℕ (OutputInfo H) (Unit {0})
  as_address none hash s = as_script_hash hash s
  as_address (some key) hash s = go tt (set_tree (set_type address (set_info (public_key key) s)))

  -- The parts of the conditions that parse a whole tree.
  abbrev parse_if : Bool → Option (List ℕ) → Option (List ℕ)
  parse_if true parsed = parsed
  parse_if false parsed = none

  -- `chunk` has `len` bytes at least.
  abbrev classify : (chunk : List ℕ) (len : ℕ) → Bool → Body ℕ (OutputInfo H) (Unit {0})
  classify chunk len is_last =
      as_address (parse_if ((len == ergo_tree_p2pk_len) && is_last) (ergo_tree_parse_p2pk chunk))
        (parse_if ((len == ergo_tree_p2sh_len) && is_last) (ergo_tree_parse_p2sh chunk))

  abbrev hash_script : (chunk : List ℕ) (len : ℕ) → Bool → Body ℕ (OutputInfo H) (Unit {0})
  hash_script chunk len is_last s =
      let (hashed, h) = blake2b_update hs (hash_view hash_of s.info) (take len chunk) in
      let s' = set_info (tree_hash_ctx h) s in
      if hashed then go tt (if is_last then set_tree s' else s') else stop sw_hasher_error s'

  unfoldable pub stx_output_info_add_tree_chunk :
      (chunk : List ℕ) (len : ℕ) (is_last : Bool) → Function ℕ (OutputInfo H)
  unfolding with_type with_tree_set maybe_finished blake2b_256_init blake2b_update
      ergo_tree_parse_p2pk ergo_tree_parse_p2sh
  stx_output_info_add_tree_chunk chunk len is_last = function do
    s ← read
    when (not (has_type unknown s.state) && not (has_type script s.state)) (ret sw_bad_state)
    when (is_tree_set s.state) (ret sw_bad_state)
    when (has_type unknown s.state) (classify chunk len is_last)
    t ← read
    when (has_type script t.state) (hash_script chunk len is_last)
    finish

  unfoldable pub stx_output_info_set_box_finished : Function BoxResult (OutputInfo H)
  unfolding with_box_finished maybe_finished
  stx_output_info_set_box_finished s =
      maybe_finished (record s { state = with_box_finished s.state })

unfoldable pub find_token_index : TokenTable → List ℕ → ℕ
unfolding find_from
find_token_index table id = find_from table.count 0 table id

module _ {H : Type 0} where
  unfoldable pub stx_output_info_add_token :
      TokenTable → (tn_id : List ℕ) → ℕ → Function BoxResult (OutputInfo H)
  unfolding find_token_index
  stx_output_info_add_token table tn_id value s =
      let index = find_token_index table tn_id in
      if not (is_element_found index)
      then (BoxResult.err_bad_token_id, s)
      else (if not (get_or s.tokens index 0 == 0)
          then (BoxResult.err_bad_token_value, s)
          else (BoxResult.ok, record s { tokens = set s.tokens index value }))

-- The loop over the token amounts from index `i` on, with the rounds that are left.
unfoldable pub count_used : (rounds i count : ℕ) → List ℕ → ℕ
count_used zero i count tokens = count
count_used (suc rounds) i count tokens =
    count_used rounds (i + 1) (if ltb 0 (get_or tokens i 0) then wrap_suc u8_mod count else count)
      tokens

unfoldable pub index_used : (rounds i count used_index : ℕ) → List ℕ → ℕ
index_used zero i count used_index tokens = index_not_exist
index_used (suc rounds) i count used_index tokens =
    let here = ltb 0 (get_or tokens i 0) in
    let later =
      index_used rounds (i + 1) (if here then wrap_suc u8_mod count else count) used_index tokens in
    if here && (count == used_index) then i else later

module _ {H : Type 0} where
  unfoldable pub stx_output_info_used_tokens_count : OutputInfo H → ℕ
  unfolding count_used
  stx_output_info_used_tokens_count ctx = count_used token_max_count 0 0 ctx.tokens

  unfoldable pub stx_output_info_used_token_index : OutputInfo H → ℕ → ℕ
  unfolding index_used
  stx_output_info_used_token_index ctx used_index =
      index_used token_max_count 0 0 used_index ctx.tokens
