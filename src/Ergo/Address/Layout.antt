-- ===== src/Ergo/Address/Layout.antt =====
-- What the functions of src/ergo/address.c leave in the array of the caller.
use ledger_app_ergo.Prelude.{
  ℕ, ◌+◌, ◌≤◌, ◌<◌, ◌≡◌, ◌==◌, Bool, true, false, List, [], ◌∷◌, ◌++◌, length, take, drop, arith,
  refl, if◌then◌else◌, not, sym, ◌∙◌, take_all, length-take, length-drop, u32_mod, ap,
}
use ledger_app_ergo.Prelude.Flow.{Flow, when, ◌>>◌, ret, call, function}
use ledger_app_ergo.Sdk.{HashSdk}
use ledger_app_ergo.Common.RwBuffer.{RwBuffer, rw_buffer_init}
use ledger_app_ergo.Common.RwBuffer.Contents.{contents, appended}
use ledger_app_ergo.Ergo.Address.{
  p2pk, p2sh, prefix_byte, write_u8_or_false, write_bytes_or_false, write_key, write_checksum,
  array_of, ergo_address_from_pubkey, ergo_address_from_compressed_pubkey,
  ergo_address_from_script_hash, p2pk_address_len, p2sh_address_len,
}
use ledger_app_ergo.Common.RwBuffer.Holds.{Holds, empty-Holds, appended-Holds}
use ledger_app_ergo.Ergo.Address.Pieces.{
  write_u8_lem, write_bytes_lem, Writes, write_key-Writes, write_block-Writes,
}
use ledger_app_ergo.Helpers.Session.{network_id_is_valid}
use ledger_app_ergo.Ergo.ErgoTree.{compressed_public_key_len, p2sh_hash_len}
use ledger_app_ergo.Ergo.ErgoTree.P2pk.{compressed}

module _ {H : Type 0} (sdk : HashSdk H) where
  write_checksum_lem :
      (b : RwBuffer) (xs digest : List ℕ) (n : ℕ)
      → Holds b xs n
      → length xs + 4 ≡ n
      → sdk.cx_blake2b_256_hash xs ≡ (digest, sdk.cx_ok)
      → 4 ≤ length digest
      → array_of (write_checksum sdk b) ≡ (true, xs ++ take 4 digest)
  unfolding write_checksum
  write_checksum_lem b xs digest n h e hash le =
      let sum = take 4 digest in
      let size : length sum ≡ 4 = omega (arith, length-take 4 digest) in
      let end = appended-Holds b xs sum n h (omega (arith, size)) in
      let all : contents (appended b sum) ≡ (appended b sum).read.ptr =
        rw (h.start) (take_all _ _ (omega (arith, end.is.memory, h.size, h.end, e, size))) in
      let ok : (sdk.cx_ok == sdk.cx_ok) ≡ true = ground arith in
      rw (h.bytes, hash, ok, write_bytes_lem b xs digest n 4 h (omega arith) le)
        (ap (λ t. (true, t)) (sym all ∙ end.bytes))

  -- The prefix, a body and the checksum, in an array of exactly that length.
  laid_out :
      (m : RwBuffer → Flow Bool RwBuffer (Unit {0}))
      → (valid : Bool) (type : ℕ) (address body digest : List ℕ) (n : ℕ) → length address ≡ n
      → n < u32_mod
      → length body + 5 ≡ n
      → ((b : RwBuffer) → Holds b (type ∷ []) n → Writes m b (type ∷ body) n)
      → sdk.cx_blake2b_256_hash (type ∷ body) ≡ (digest, sdk.cx_ok)
      → 4 ≤ length digest
      → array_of (
          (function
              do when (not valid) (ret false); write_u8_or_false type; m; call (write_checksum sdk))
            (rw_buffer_init address n 0))
        ≡ (if valid then (true, type ∷ body ++ take 4 digest) else (false, address))
  laid_out m false type address body digest n size fits room writes hash le = refl
  laid_out m true type address body digest n size fits room writes hash le =
      let b0 = rw_buffer_init address n 0 in
      let h0 = empty-Holds address n size fits in
      let b1 = appended b0 (type ∷ []) in
      let h1 = appended-Holds b0 [] (type ∷ []) n h0 (omega arith) in
      let (b2, e2, h2) = writes b1 h1 in
      rw (write_u8_lem b0 [] n type h0 (omega arith), e2)
        (write_checksum_lem b2 (type ∷ body) digest n h2 (omega arith) hash le)

  ergo_address_from_pubkey_lem :
      (network : ℕ) (public_key address digest : List ℕ)
      → length public_key ≡ 65
      → length address ≡ p2pk_address_len
      → sdk.cx_blake2b_256_hash (prefix_byte p2pk network ∷ compressed public_key)
        ≡ (digest, sdk.cx_ok)
      → 4 ≤ length digest
      → ergo_address_from_pubkey sdk network public_key address ≡ (
          if network_id_is_valid network
          then (true, prefix_byte p2pk network ∷ compressed public_key ++ take 4 digest)
          else (false, address))
  unfolding ergo_address_from_pubkey
  ergo_address_from_pubkey_lem network key address digest e size hash le =
      let short : length (take 32 (drop 1 key)) ≡ 32 =
        omega (arith, length-take 32 (drop 1 key), length-drop 1 key) in
      laid_out (write_key key false) (network_id_is_valid network) (prefix_byte p2pk network)
        address (compressed key) digest p2pk_address_len size (omega arith) (omega (arith, short))
        (λ b h. write_key-Writes key b (prefix_byte p2pk network) e h) hash le

  ergo_address_from_compressed_pubkey_lem :
      (network : ℕ) (public_key address digest : List ℕ)
      → length public_key ≡ compressed_public_key_len
      → length address ≡ p2pk_address_len
      → sdk.cx_blake2b_256_hash (prefix_byte p2pk network ∷ public_key) ≡ (digest, sdk.cx_ok)
      → 4 ≤ length digest
      → ergo_address_from_compressed_pubkey sdk network public_key address ≡ (
          if network_id_is_valid network
          then (true, prefix_byte p2pk network ∷ public_key ++ take 4 digest)
          else (false, address))
  unfolding ergo_address_from_compressed_pubkey write_key
  ergo_address_from_compressed_pubkey_lem network key address digest e size hash le =
      laid_out (write_key key true) (network_id_is_valid network) (prefix_byte p2pk network) address
        key digest p2pk_address_len size (omega arith) (omega (arith, e))
        (λ b h.
          write_block-Writes key compressed_public_key_len b (prefix_byte p2pk network)
            p2pk_address_len e (omega arith) h)
        hash le

  ergo_address_from_script_hash_lem :
      (network : ℕ) (hash address digest : List ℕ)
      → length hash ≡ p2sh_hash_len
      → length address ≡ p2sh_address_len
      → sdk.cx_blake2b_256_hash (prefix_byte p2sh network ∷ hash) ≡ (digest, sdk.cx_ok)
      → 4 ≤ length digest
      → ergo_address_from_script_hash sdk network hash address ≡ (
          if network_id_is_valid network
          then (true, prefix_byte p2sh network ∷ hash ++ take 4 digest)
          else (false, address))
  unfolding ergo_address_from_script_hash
  ergo_address_from_script_hash_lem network key address digest e size hash le =
      laid_out (write_bytes_or_false key p2sh_hash_len) (network_id_is_valid network)
        (prefix_byte p2sh network) address key digest p2sh_address_len size (omega arith)
        (omega (arith, e))
        (λ b h.
          write_block-Writes key p2sh_hash_len b (prefix_byte p2sh network) p2sh_address_len e
            (omega arith) h)
        hash le

  -- For a raw key of 65 bytes and an array of 38, where hashing the prefix and the compressed key
  -- gives without error a digest of at least four bytes: the function for a raw key and, on its
  -- compressed form, the one for a compressed key give the same. For a network up to 252 that is
  -- true, and in the array the prefix, the compressed key and the first four bytes of the digest;
  -- for another it is false, with the array as it was.
  pub p2pk_address_layout :
      (network : ℕ) (public_key address digest : List ℕ)
      → length public_key ≡ 65
      → length address ≡ p2pk_address_len
      → sdk.cx_blake2b_256_hash (prefix_byte p2pk network ∷ compressed public_key)
        ≡ (digest, sdk.cx_ok)
      → 4 ≤ length digest
      → let result : Bool × List ℕ =
          if network_id_is_valid network
          then (true, prefix_byte p2pk network ∷ compressed public_key ++ take 4 digest)
          else (false, address) in
        (ergo_address_from_pubkey sdk network public_key address ≡ result)
        × (ergo_address_from_compressed_pubkey sdk network (compressed public_key) address ≡ result)
  p2pk_address_layout network key address digest e size hash le =
      let short : length (compressed key) ≡ compressed_public_key_len =
        omega (arith, length-take 32 (drop 1 key), length-drop 1 key) in
      (
        ergo_address_from_pubkey_lem network key address digest e size hash le,
        ergo_address_from_compressed_pubkey_lem network (compressed key) address digest short size
            hash le,
      )
