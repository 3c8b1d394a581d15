-- ===== src/SignTx/Output/Once.antt =====
-- What an output is shown as is decided once.
use ledger_app_ergo.Prelude.{
  ℕ, ◌<◌, ◌≡◌, ◌≢◌, Bool, true, false, Bool-cases, Option-cases, take, inl, inr, List, ◌&&◌, arith,
  refl, bit_and, ◌==◌, ==_iff,
}
use ledger_app_ergo.Prelude.Flow.{Function, result_of, ◌>>◌, when}
use ledger_app_ergo.Sdk.{HashSdk}
use ledger_app_ergo.Helpers.Blake2b.{blake2b_256_init, blake2b_update}
use ledger_app_ergo.Ergo.ErgoTree.{
  ergo_tree_p2pk_len, ergo_tree_p2sh_len, ergo_tree_parse_p2pk, ergo_tree_parse_p2sh,
}
use ledger_app_ergo.SignTx.Output.{
  Bip32Path, OutputInfoType, unknown, bip32, address, script, script_hash, miners_fee, type_code,
  TreeInfo, OutputInfo, with_type, with_tree_set, maybe_finished, finish, hash_script, hash_view,
  tree_hash_ctx, parse_if, has_type, is_tree_set, stx_output_info_set_bip32,
  stx_output_info_set_fee, stx_output_info_add_tree_chunk,
}
use ledger_app_ergo.SignTx.Output.Flags.{with_type_parts, with_tree_set_parts}
use ledger_app_ergo.Sw.{sw_ok, sw_bad_state, sw_hasher_error}

-- The calls that say what the tree of an output is.
pub data TreeCall : Type 0 where
  by_path : Bip32Path → TreeCall
  by_fee : TreeCall
  by_chunk : (chunk : List ℕ) → (len : ℕ) → (is_last : Bool) → TreeCall

-- The tree is complete, and of a known type.
pub record Decided {H : Type 0} (s : OutputInfo H) : Type 0 where
  pub known : has_type unknown s.state ≡ false
  pub complete : is_tree_set s.state ≡ true

tree_of :
    (type : OutputInfoType) (s : ℕ)
    → s < 256
    → type_code type ≢ 0
    → let s' = with_tree_set (with_type type s) in
      (has_type unknown s' ≡ false) × (is_tree_set s' ≡ true)
tree_of type s fits other =
    let (typed, _, _, small) = with_type_parts type s fits in
    let (kept, complete, _, _) = with_tree_set_parts (with_type type s) small in
    (rw (kept, typed) (ground arith), complete)

not_script :
    (type : OutputInfoType) (s : ℕ)
    → s < 256
    → type_code type ≢ 3
    → has_type script (with_tree_set (with_type type s)) ≡ false
not_script type s fits other =
    let (typed, _, _, small) = with_type_parts type s fits in
    let (kept, _, _, _) = with_tree_set_parts (with_type type s) small in
    rw (kept, typed) (ground arith)

completed :
    (s : ℕ)
    → s < 256
    → has_type script s ≡ true
    → (has_type unknown (with_tree_set s) ≡ false) × (is_tree_set (with_tree_set s) ≡ true)
completed s fits a_script =
    let (kept, complete, _, _) = with_tree_set_parts s fits in
    let code : bit_and s 0x3f ≡ 3 = (==_iff _ _).0 a_script in (rw (kept, code) refl, complete)

module _ {H : Type 0} (hs : HashSdk H) (hash_of : TreeInfo H → H) where
  abbrev pub set_tree_by : TreeCall → Function ℕ (OutputInfo H)
  set_tree_by (by_path path) = stx_output_info_set_bip32 hs hash_of path
  set_tree_by by_fee = stx_output_info_set_fee hs hash_of
  set_tree_by (by_chunk chunk len is_last) =
      stx_output_info_add_tree_chunk hs hash_of chunk len is_last

  -- When the type of an output is known and its tree is complete, each call that sets the tree (a
  -- path, the fee, a chunk) returns the bad-state word and changes nothing.
  pub set_tree_by_refused :
      (c : TreeCall) (s : OutputInfo H) → Decided s → set_tree_by c s ≡ (sw_bad_state, s)
  unfolding stx_output_info_set_bip32 stx_output_info_set_fee stx_output_info_add_tree_chunk
  set_tree_by_refused (by_path path) s h = rw h.known
  set_tree_by_refused by_fee s h = rw h.known
  set_tree_by_refused (by_chunk chunk len is_last) s h =
      elim (Bool-cases (has_type script s.state)) [
        | inl e ↦ rw (h.known, h.complete, e)
        | inr e ↦ rw (h.known, h.complete, e)
      ]

  maybe_finished-state : (s : OutputInfo H) → (maybe_finished hs hash_of s).1.state ≡ s.state
  unfolding maybe_finished
  maybe_finished-state s = ground arith

  finish-Decided :
      (s : OutputInfo H)
      → (has_type unknown s.state ≡ false) × (is_tree_set s.state ≡ true)
      → Decided (result_of (finish hs hash_of s)).1
  finish-Decided s (known, complete) =
      let e = maybe_finished-state s in record { known = rw e known; complete = rw e complete }

  -- What follows the classification of the last chunk.
  abbrev rest : (chunk : List ℕ) (len : ℕ) → OutputInfo H → ℕ × OutputInfo H
  rest chunk len x = result_of (
      (when (has_type script x.state) (hash_script hs hash_of chunk len true) >> finish hs hash_of)
        x)

  Completes : ℕ × OutputInfo H → Type 0
  Completes r = r.0 ≡ sw_ok → Decided r.1

  rest_script :
      (chunk : List ℕ) (len : ℕ) (x : OutputInfo H)
      → x.state < 256
      → has_type script x.state ≡ true
      → Completes (rest chunk len x)
  unfolding Completes
  rest_script chunk len x fits a_script done =
      let (hashed, h) = blake2b_update hs (hash_view hash_of x.info) (take len chunk) in
      elim (Bool-cases hashed) [
        | inl e ↦
            rw (a_script, e)
              (finish-Decided (record x { state = with_tree_set x.state; info = tree_hash_ctx h })
                (completed x.state fits a_script))
        | inr e ↦
            absurd (let refused : sw_hasher_error ≡ sw_ok = rw (a_script, e) at done in omega arith)
      ]

  rest_other :
      (chunk : List ℕ) (len : ℕ) (x : OutputInfo H)
      → has_type script x.state ≡ false
      → (has_type unknown x.state ≡ false) × (is_tree_set x.state ≡ true)
      → Completes (rest chunk len x)
  unfolding Completes
  rest_other chunk len x other complete done = rw other (finish-Decided x complete)

  Completes-step : {r r' : ℕ × OutputInfo H} → r ≡ r' → Completes r' → Completes r
  Completes-step e h = rw e h

  refused : (s : OutputInfo H) → Completes (sw_bad_state, s)
  unfolding Completes
  refused s done = absurd (omega arith)

  hasher_failed : (s : OutputInfo H) → Completes (sw_hasher_error, s)
  unfolding Completes
  hasher_failed s done = absurd (omega arith)

  chunk_Completes :
      (chunk : List ℕ) (len : ℕ) (s : OutputInfo H)
      → s.state < 256
      → Completes (stx_output_info_add_tree_chunk hs hash_of chunk len true s)
  unfolding stx_output_info_add_tree_chunk
  chunk_Completes chunk len s fits =
      let key =
        parse_if hs hash_of ((len == ergo_tree_p2pk_len) && true) (ergo_tree_parse_p2pk chunk) in
      let hash =
        parse_if hs hash_of ((len == ergo_tree_p2sh_len) && true) (ergo_tree_parse_p2sh chunk) in
      let (begun, h) = blake2b_256_init hs (hash_view hash_of s.info) in
      elim (Bool-cases (has_type unknown s.state)) [
        | inl fresh ↦ elim (Bool-cases (is_tree_set s.state)) [
          | inl complete ↦ Completes-step (rw (fresh, complete)) (refused s)
          | inr open_tree ↦ elim (Option-cases key) [
            | inr (k, e) ↦ Completes-step (rw (fresh, open_tree, e)) (
                rest_other chunk len
                  (record s {
                    state = with_tree_set (with_type address s.state);
                    info = TreeInfo.public_key k;
                  })
                  (not_script address s.state fits (omega arith))
                  (tree_of address s.state fits (omega arith)))
            | inl no_key ↦ elim (Option-cases hash) [
              | inr (k, e) ↦ Completes-step (rw (fresh, open_tree, no_key, e)) (
                  rest_other chunk len
                    (record s {
                      state = with_tree_set (with_type script_hash s.state);
                      info = TreeInfo.tree_hash k;
                    })
                    (not_script script_hash s.state fits (omega arith))
                    (tree_of script_hash s.state fits (omega arith)))
              | inl no_hash ↦ elim (Bool-cases begun) [
                | inl e ↦ Completes-step (rw (fresh, open_tree, no_key, no_hash, e)) (
                    let (typed, _, _, small) = with_type_parts script s.state fits in
                    rest_script chunk len
                      (record s { state = with_type script s.state; info = tree_hash_ctx h }) small
                      ((==_iff _ _).1 typed))
                | inr e ↦ Completes-step (rw (fresh, open_tree, no_key, no_hash, e)) (
                    hasher_failed
                      (record s { state = with_type script s.state; info = tree_hash_ctx h }))
              ]
            ]
          ]
        ]
        | inr started ↦ elim (Bool-cases (has_type script s.state)) [
          | inr other ↦ Completes-step (rw (started, other)) (refused s)
          | inl a_script ↦ elim (Bool-cases (is_tree_set s.state)) [
            | inl complete ↦ Completes-step (rw (started, a_script, complete)) (refused s)
            | inr open_tree ↦
                Completes-step (rw (started, a_script, open_tree, a_script))
                  (rest_script chunk len s fits a_script)
          ]
        ]
      ]

  abbrev is_whole : TreeCall → Bool
  is_whole (by_path _) = true
  is_whole by_fee = true
  is_whole (by_chunk _ _ is_last) = is_last

  -- From any state byte, a path, the fee or the last chunk of a tree that is taken with the OK
  -- word leaves the output with a known type and a complete tree.
  pub set_tree_by-Decided :
      (c : TreeCall) (s : OutputInfo H)
      → s.state < 256
      → is_whole c ≡ true
      → (set_tree_by c s).0 ≡ sw_ok
      → Decided (set_tree_by c s).1
  unfolding stx_output_info_set_bip32 stx_output_info_set_fee stx_output_info_add_tree_chunk
      Completes
  set_tree_by-Decided (by_path path) s fits whole done =
      elim (Bool-cases (has_type unknown s.state)) [
        | inl e ↦ rw e (
            finish-Decided
              (record s {
                state = with_tree_set (with_type bip32 s.state);
                info = TreeInfo.bip32_path path;
              })
              (tree_of bip32 s.state fits (omega arith)))
        | inr e ↦ absurd (let refused : sw_bad_state ≡ sw_ok = rw e at done in omega arith)
      ]
  set_tree_by-Decided by_fee s fits whole done = elim (Bool-cases (has_type unknown s.state)) [
    | inl e ↦ rw e (
        finish-Decided (record s { state = with_tree_set (with_type miners_fee s.state) })
          (tree_of miners_fee s.state fits (omega arith)))
    | inr e ↦ absurd (let refused : sw_bad_state ≡ sw_ok = rw e at done in omega arith)
  ]
  set_tree_by-Decided (by_chunk chunk len false) s fits whole done =
      absurd (let no : false ≡ true = whole in cc)
  set_tree_by-Decided (by_chunk chunk len true) s fits whole done =
      chunk_Completes chunk len s fits done
