-- ===== src/Helpers/Crypto.antt =====
-- src/helpers/crypto.c over the SDK's key derivation.
pub mod Keys
use ledger_app_ergo.Prelude.{ℕ, ◌%◌, List, ◌==◌, not, if◌then◌else◌, take, replicate, u16_mod}
use ledger_app_ergo.Sdk.Crypto.{CryptoSdk}

abbrev pub private_key_len : ℕ
private_key_len = 32

abbrev pub public_key_len : ℕ
public_key_len = 65

abbrev pub compressed_public_key_len : ℕ
compressed_public_key_len = 33

module _ (sdk : CryptoSdk) where
  -- The private key, given as it is before the call, the chain code and the result.
  unfoldable pub crypto_derive_private_key :
      (private_key bip32_path : List ℕ) → ℕ → List ℕ × List ℕ × ℕ
  crypto_derive_private_key private_key path len =
      let (raw, chain_code, result) = sdk.os_derive_bip32_no_throw path len in
      let (key, code) = sdk.cx_ecfp_init_private_key_no_throw (take private_key_len raw) in
      if not (result == sdk.cx_ok)
      then (private_key, chain_code, result % u16_mod)
      else (key, chain_code, code % u16_mod)

  -- The array `private_key`, given as it is before the call, and the result.
  unfoldable pub crypto_generate_private_key :
      (bip32_path : List ℕ) (len : ℕ) (private_key : List ℕ) → List ℕ × ℕ
  unfolding crypto_derive_private_key
  crypto_generate_private_key path len private_key =
      let (key, _, result) = crypto_derive_private_key (replicate private_key_len 0) path len in
      ((if result == 0 then take private_key_len key else private_key), result)

  -- The raw public key, given as it is before the call, and the result.
  unfoldable pub crypto_init_public_key : (private_key raw_public_key : List ℕ) → List ℕ × ℕ
  crypto_init_public_key private_key raw =
      let (w, result) = sdk.cx_ecfp_generate_pair_no_throw private_key in
      ((if result == sdk.cx_ok then take public_key_len w else raw), result % u16_mod)

  -- The raw public key, the chain code (which a caller may drop by passing NULL) and the result.
  unfoldable pub crypto_generate_public_key :
      (bip32_path : List ℕ) (len : ℕ) (raw_public_key : List ℕ) → List ℕ × List ℕ × ℕ
  unfolding crypto_derive_private_key crypto_init_public_key
  crypto_generate_public_key path len raw =
      let (key, chain_code, result) =
        crypto_derive_private_key (replicate private_key_len 0) path len in
      let (public, code) = crypto_init_public_key key raw in
      if result == 0 then (public, chain_code, code) else (raw, chain_code, result)
