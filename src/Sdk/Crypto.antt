-- ===== src/Sdk/Crypto.antt =====
-- What the application takes from the cryptographic part of the Ledger SDK (os.h, cx.h): parameters.
use ledger_app_ergo.Prelude.{ℕ, Bool, List}

-- The sign of a comparison's difference.
pub data Diff : Type 0 where
  negative same positive : Diff

-- Each function gives what it stores and its error code. Numbers of the field and points are arrays
-- of bytes.
pub record CryptoSdk : Type 0 where
  pub cx_ok : ℕ
  -- The path and its length; the 64 bytes of the raw key and the chain code.
  pub os_derive_bip32_no_throw : List ℕ → ℕ → List ℕ × List ℕ × ℕ
  -- The raw key; the member `d` of the private key.
  pub cx_ecfp_init_private_key_no_throw : List ℕ → List ℕ × ℕ
  -- The private key; the member `W` of the public key.
  pub cx_ecfp_generate_pair_no_throw : List ℕ → List ℕ × ℕ
  -- The point and the scalar; the product.
  pub cx_ecfp_scalar_mult_no_throw : List ℕ → List ℕ → List ℕ × ℕ
  pub cx_math_is_zero : List ℕ → Bool
  pub cx_math_cmp_no_throw : List ℕ → List ℕ → Diff × ℕ
  -- The two operands and the modulus.
  pub cx_math_multm_no_throw : (a b m : List ℕ) → List ℕ × ℕ
  pub cx_math_addm_no_throw : (a b m : List ℕ) → List ℕ × ℕ
  -- The key and the data; the 32 bytes of the code.
  pub cx_hmac_sha256 : List ℕ → List ℕ → List ℕ
