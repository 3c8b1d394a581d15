-- ===== src/Ergo/ErgoTree.antt =====
-- src/ergo/ergo_tree.h and ergo_tree.c: the scripts that the application builds and recognises.
pub mod P2pk
use ledger_app_ergo.Prelude.{
  ℕ, ◌+◌, Bool, Option, none, some, List, [], ◌∷◌, ◌++◌, take, drop, get_or, eq_bytes, bit_and,
  ◌==◌, not, ◌&&◌, if◌then◌else◌, length, true,
}
use ledger_app_ergo.Common.RwBuffer.{
  RwBuffer, or_same, rw_buffer_new_local_empty, rw_buffer_write_u8, rw_buffer_write_bytes,
}

abbrev pub compressed_public_key_len : ℕ
compressed_public_key_len = 33

abbrev pub ergo_tree_p2pk_prefix_len : ℕ
ergo_tree_p2pk_prefix_len = 3

abbrev pub ergo_tree_p2pk_len : ℕ
ergo_tree_p2pk_len = 36

-- `P2SH_HASH_LEN` of address.h.
abbrev pub p2sh_hash_len : ℕ
p2sh_hash_len = 24

abbrev pub ergo_tree_p2sh_prefix_len : ℕ
ergo_tree_p2sh_prefix_len = 17

abbrev pub ergo_tree_p2sh_suffix_len : ℕ
ergo_tree_p2sh_suffix_len = 3

abbrev pub ergo_tree_p2sh_len : ℕ
ergo_tree_p2sh_len = 44

abbrev pub c_ergo_tree_p2pk_prefix : List ℕ
c_ergo_tree_p2pk_prefix = 0x00 ∷ 0x08 ∷ 0xcd ∷ []

abbrev pub c_ergo_tree_p2sh_prefix : List ℕ
c_ergo_tree_p2sh_prefix =
    0x00 ∷ 0xea ∷ 0x02 ∷ 0xd1 ∷ 0x93 ∷ 0xb4 ∷ 0xcb ∷ 0xe4 ∷ 0xe3 ∷ 0x01 ∷ 0x0e ∷ 0x04 ∷ 0x00 ∷ 0x04
    ∷ 0x30 ∷ 0x0e ∷ 0x18 ∷ []

abbrev pub c_ergo_tree_p2sh_suffix : List ℕ
c_ergo_tree_p2sh_suffix = 0xd4 ∷ 0x08 ∷ 0x01 ∷ []

unfoldable pub c_ergo_tree_miners_hash_fee_mainnet : List ℕ
c_ergo_tree_miners_hash_fee_mainnet =
    0x10 ∷ 0x05 ∷ 0x04 ∷ 0x00 ∷ 0x04 ∷ 0x00 ∷ 0x0e ∷ 0x36 ∷ 0x10 ∷ 0x02 ∷ 0x04 ∷ 0xa0 ∷ 0x0b ∷ 0x08
    ∷ 0xcd ∷ 0x02 ∷ 0x79 ∷ 0xbe ∷ 0x66 ∷ 0x7e ∷ 0xf9 ∷ 0xdc ∷ 0xbb ∷ 0xac ∷ 0x55 ∷ 0xa0 ∷ 0x62
    ∷ 0x95 ∷ 0xce ∷ 0x87 ∷ 0x0b ∷ 0x07 ∷ 0x02 ∷ 0x9b ∷ 0xfc ∷ 0xdb ∷ 0x2d ∷ 0xce ∷ 0x28 ∷ 0xd9
    ∷ 0x59 ∷ 0xf2 ∷ 0x81 ∷ 0x5b ∷ 0x16 ∷ 0xf8 ∷ 0x17 ∷ 0x98 ∷ 0xea ∷ 0x02 ∷ 0xd1 ∷ 0x92 ∷ 0xa3
    ∷ 0x9a ∷ 0x8c ∷ 0xc7 ∷ 0xa7 ∷ 0x01 ∷ 0x73 ∷ 0x00 ∷ 0x73 ∷ 0x01 ∷ 0x10 ∷ 0x01 ∷ 0x02 ∷ 0x04
    ∷ 0x02 ∷ 0xd1 ∷ 0x96 ∷ 0x83 ∷ 0x03 ∷ 0x01 ∷ 0x93 ∷ 0xa3 ∷ 0x8c ∷ 0xc7 ∷ 0xb2 ∷ 0xa5 ∷ 0x73
    ∷ 0x00 ∷ 0x00 ∷ 0x01 ∷ 0x93 ∷ 0xc2 ∷ 0xb2 ∷ 0xa5 ∷ 0x73 ∷ 0x01 ∷ 0x00 ∷ 0x74 ∷ 0x73 ∷ 0x02
    ∷ 0x73 ∷ 0x03 ∷ 0x83 ∷ 0x01 ∷ 0x08 ∷ 0xcd ∷ 0xee ∷ 0xac ∷ 0x93 ∷ 0xb1 ∷ 0xa5 ∷ 0x73 ∷ 0x04 ∷ []

abbrev pub parity_byte : List ℕ → ℕ
parity_byte key = if bit_and (get_or key 64 0) 1 == 0 then 0x02 else 0x03

-- The results of the writes into the array `tree` are not looked at.
unfoldable pub ergo_tree_generate_p2pk : List ℕ → List ℕ
unfolding rw_buffer_write_u8 rw_buffer_write_bytes
ergo_tree_generate_p2pk raw_public_key =
    let out = rw_buffer_new_local_empty ergo_tree_p2pk_len in
    let out1 = or_same out (rw_buffer_write_bytes out c_ergo_tree_p2pk_prefix 3) in
    let out2 = or_same out1 (rw_buffer_write_u8 out1 (parity_byte raw_public_key)) in
    let out3 = or_same out2 (rw_buffer_write_bytes out2 (drop 1 raw_public_key) 32) in out3.read.ptr

-- `none` is the result false; `some` holds what is moved out.
unfoldable pub ergo_tree_parse_p2pk : List ℕ → Option (List ℕ)
ergo_tree_parse_p2pk tree =
    let kind = get_or tree ergo_tree_p2pk_prefix_len 0 in
    if not (eq_bytes (take ergo_tree_p2pk_prefix_len tree) c_ergo_tree_p2pk_prefix)
    then none
    else (if not (kind == 0x02) && not (kind == 0x03)
        then none
        else some (take compressed_public_key_len (drop ergo_tree_p2pk_prefix_len tree)))

unfoldable pub ergo_tree_parse_p2sh : List ℕ → Option (List ℕ)
ergo_tree_parse_p2sh tree =
    let suffix =
      take ergo_tree_p2sh_suffix_len (drop (ergo_tree_p2sh_prefix_len + p2sh_hash_len) tree) in
    if not (eq_bytes (take ergo_tree_p2sh_prefix_len tree) c_ergo_tree_p2sh_prefix)
    then none
    else (if not (eq_bytes suffix c_ergo_tree_p2sh_suffix)
        then none
        else some (take p2sh_hash_len (drop ergo_tree_p2sh_prefix_len tree)))

-- The flag is not used: there is one tree for both networks.
unfoldable pub ergo_tree_miners_fee_tree : Bool → List ℕ
unfolding c_ergo_tree_miners_hash_fee_mainnet
ergo_tree_miners_fee_tree is_mainnet = c_ergo_tree_miners_hash_fee_mainnet
