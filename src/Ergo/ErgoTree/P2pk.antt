-- ===== src/Ergo/ErgoTree/P2pk.antt =====
-- The pay-to-public-key script is recognised and gives the key back.
use ledger_app_ergo.Prelude.{
  ℕ, some, List, [], ◌∷◌, ◌++◌, ◌≡◌, take, drop, length, arith, get_or, sym, ◌∙◌, take_all,
  length-take, length-drop, eq_bytes_refl, Bool-cases, bit_and, ◌==◌, inl, inr,
}
use ledger_app_ergo.Common.RwBuffer.{store, rw_buffer_new_local_empty}
use ledger_app_ergo.Common.RwBuffer.Contents.{
  contents, appended, appended-IsRwBuffer, contents-appended, rw_buffer_new_local_empty-IsRwBuffer,
}
use ledger_app_ergo.Ergo.ErgoTree.{
  ergo_tree_generate_p2pk, ergo_tree_parse_p2pk, parity_byte, ergo_tree_p2pk_len,
  c_ergo_tree_p2pk_prefix,
}

-- The compressed form of a raw key: the parity of its second half, and its first half.
abbrev pub compressed : List ℕ → List ℕ
compressed key = parity_byte key ∷ take 32 (drop 1 key)

pub ergo_tree_generate_p2pk_bytes :
    (key : List ℕ)
    → length key ≡ 65
    → ergo_tree_generate_p2pk key ≡ c_ergo_tree_p2pk_prefix ++ compressed key
unfolding ergo_tree_generate_p2pk store
ergo_tree_generate_p2pk_bytes key h =
    let body = take 32 (drop 1 key) in
    let size : length body ≡ 32 = omega (arith, length-take 32 (drop 1 key), length-drop 1 key) in
    let b0 = rw_buffer_new_local_empty ergo_tree_p2pk_len in
    let h0 = rw_buffer_new_local_empty-IsRwBuffer ergo_tree_p2pk_len (omega arith) in
    let b1 = appended b0 c_ergo_tree_p2pk_prefix in
    let h1 = appended-IsRwBuffer b0 c_ergo_tree_p2pk_prefix h0 (omega arith) in
    let b2 = appended b1 (parity_byte key ∷ []) in
    let h2 = appended-IsRwBuffer b1 (parity_byte key ∷ []) h1 (omega arith) in
    let b3 = appended b2 body in
    let h3 = appended-IsRwBuffer b2 body h2 (omega (arith, size)) in
    let all : take 36 b3.read.ptr ≡ b3.read.ptr =
      take_all 36 b3.read.ptr (omega (arith, h3.memory)) in
    let c1 : contents b1 ≡ c_ergo_tree_p2pk_prefix =
      contents-appended b0 c_ergo_tree_p2pk_prefix h0 (omega arith) in
    let c2 : contents b2 ≡ contents b1 ++ parity_byte key ∷ [] =
      contents-appended b1 (parity_byte key ∷ []) h1 (omega arith) in
    let c3 : contents b3 ≡ contents b2 ++ body =
      contents-appended b2 body h2 (omega (arith, size)) in
    let whole : contents b3 ≡ b3.read.ptr = rw size all in sym whole ∙ c3

-- The tree that is built for a raw key of 65 bytes is recognised as a pay-to-public-key tree, and
-- gives the key in its compressed form.
pub ergo_tree_parse_p2pk-generate :
    (key : List ℕ)
    → length key ≡ 65
    → ergo_tree_parse_p2pk (ergo_tree_generate_p2pk key) ≡ some (compressed key)
unfolding ergo_tree_parse_p2pk
ergo_tree_parse_p2pk-generate key h =
    let cut : take 32 (take 32 (drop 1 key)) ≡ take 32 (drop 1 key) =
      take_all 32 (take 32 (drop 1 key)) (omega (arith, length-take 32 (drop 1 key))) in
    rw (ergo_tree_generate_p2pk_bytes key h, cut, eq_bytes_refl c_ergo_tree_p2pk_prefix)
      (elim (Bool-cases (bit_and (get_or key 64 0) 1 == 0)) [
        | inl even ↦ rw even
        | inr odd ↦ rw odd
      ])
