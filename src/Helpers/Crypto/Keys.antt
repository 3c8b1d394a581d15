-- ===== src/Helpers/Crypto/Keys.antt =====
-- The sizes of a public key and its chain code.
use ledger_app_ergo.Prelude.{
  ℕ, ◌≡◌, Bool, Bool-cases, inl, inr, true, false, List, length, take, replicate, ◌==◌,
  if◌then◌else◌, arith, length-take,
}
use ledger_app_ergo.Sdk.Crypto.{CryptoSdk}
use ledger_app_ergo.Helpers.Crypto.{
  private_key_len, public_key_len, crypto_derive_private_key, crypto_init_public_key,
  crypto_generate_public_key,
}

-- The SDK gives points of 65 bytes and chain codes of 32.
pub record KeyLaws (sdk : CryptoSdk) : Type 0 where
  pub point : (key : List ℕ) → length (sdk.cx_ecfp_generate_pair_no_throw key).0 ≡ 65
  pub chain_code : (path : List ℕ) (len : ℕ) → length (sdk.os_derive_bip32_no_throw path len).1 ≡ 32

either_key :
    (b : Bool) (xs ys : List ℕ)
    → length xs ≡ 65
    → length ys ≡ 65
    → length (if b then xs else ys) ≡ 65
either_key true xs ys h h' = h
either_key false xs ys h h' = h'

module _ (sdk : CryptoSdk) (laws : KeyLaws sdk) where
  init_public_key_size :
      (private raw : List ℕ)
      → length raw ≡ 65
      → length (crypto_init_public_key sdk private raw).0 ≡ 65
  unfolding crypto_init_public_key
  init_public_key_size private raw h =
      let w = (sdk.cx_ecfp_generate_pair_no_throw private).0 in
      either_key _ (take public_key_len w) raw
        (omega (arith, length-take public_key_len w, laws.point private)) h

  derive_chain_code_size :
      (private path : List ℕ) (len : ℕ)
      → length (crypto_derive_private_key sdk private path len).1 ≡ 32
  unfolding crypto_derive_private_key
  derive_chain_code_size private path len =
      let result = (sdk.os_derive_bip32_no_throw path len).2 in
      elim (Bool-cases (result == sdk.cx_ok)) [
        | inl e ↦ rw e (laws.chain_code path len)
        | inr e ↦ rw e (laws.chain_code path len)
      ]

  pub crypto_generate_public_key_sizes :
      (path : List ℕ) (len : ℕ) (raw : List ℕ)
      → length raw ≡ 65
      → (length (crypto_generate_public_key sdk path len raw).0 ≡ 65)
        × (length (crypto_generate_public_key sdk path len raw).1 ≡ 32)
  unfolding crypto_generate_public_key
  crypto_generate_public_key_sizes path len raw h =
      let got = crypto_derive_private_key sdk (replicate private_key_len 0) path len in
      let chain = derive_chain_code_size (replicate private_key_len 0) path len in
      elim (Bool-cases (got.2 == 0)) [
        | inl e ↦ rw e (init_public_key_size got.0 raw h, chain)
        | inr e ↦ rw e (h, chain)
      ]
