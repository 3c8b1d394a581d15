-- ===== src/Ergo/Schnorr.antt =====
-- src/ergo/schnorr.c: the two halves of a signature over secp256k1, on the SDK's arithmetic.
use ledger_app_ergo.Prelude.{
  ℕ, zero, suc, Bool, true, false, Option, none, some, List, [], ◌∷◌, ◌++◌, get_or, take, drop,
  replicate, ◌==◌, not, if◌then◌else◌, ◌||◌, bit_and,
}
use ledger_app_ergo.Prelude.Flow.{
  stop, go, Body, Function, ◌>>=◌, ◌>>◌, ret, read, modify, when, function,
}
use ledger_app_ergo.Sdk.{HashSdk}
use ledger_app_ergo.Sdk.Crypto.{CryptoSdk, Diff, negative, same, positive}
use ledger_app_ergo.Helpers.Blake2b.{blake2b_256_init, blake2b_update, blake2b_256_finalize}
use ledger_app_ergo.Helpers.Crypto.{private_key_len, public_key_len, compressed_public_key_len}

abbrev pub ergo_soundness_bytes : ℕ
ergo_soundness_bytes = 24

abbrev max_iterations : ℕ
max_iterations = 100

abbrev pub secp256k1_g : List ℕ
secp256k1_g =
    0x79 ∷ 0xbe ∷ 0x66 ∷ 0x7e ∷ 0xf9 ∷ 0xdc ∷ 0xbb ∷ 0xac ∷ 0x55 ∷ 0xa0 ∷ 0x62 ∷ 0x95 ∷ 0xce ∷ 0x87
    ∷ 0x0b ∷ 0x07 ∷ 0x02 ∷ 0x9b ∷ 0xfc ∷ 0xdb ∷ 0x2d ∷ 0xce ∷ 0x28 ∷ 0xd9 ∷ 0x59 ∷ 0xf2 ∷ 0x81
    ∷ 0x5b ∷ 0x16 ∷ 0xf8 ∷ 0x17 ∷ 0x98 ∷ 0x48 ∷ 0x3a ∷ 0xda ∷ 0x77 ∷ 0x26 ∷ 0xa3 ∷ 0xc4 ∷ 0x65
    ∷ 0x5d ∷ 0xa4 ∷ 0xfb ∷ 0xfc ∷ 0x0e ∷ 0x11 ∷ 0x08 ∷ 0xa8 ∷ 0xfd ∷ 0x17 ∷ 0xb4 ∷ 0x48 ∷ 0xa6
    ∷ 0x85 ∷ 0x54 ∷ 0x19 ∷ 0x9c ∷ 0x47 ∷ 0xd0 ∷ 0x8f ∷ 0xfb ∷ 0x10 ∷ 0xd4 ∷ 0xb8 ∷ []

abbrev pub secp256k1_n : List ℕ
secp256k1_n =
    0xff ∷ 0xff ∷ 0xff ∷ 0xff ∷ 0xff ∷ 0xff ∷ 0xff ∷ 0xff ∷ 0xff ∷ 0xff ∷ 0xff ∷ 0xff ∷ 0xff ∷ 0xff
    ∷ 0xff ∷ 0xfe ∷ 0xba ∷ 0xae ∷ 0xdc ∷ 0xe6 ∷ 0xaf ∷ 0x48 ∷ 0xa0 ∷ 0x3b ∷ 0xbf ∷ 0xd2 ∷ 0x5e
    ∷ 0x8c ∷ 0xd0 ∷ 0x36 ∷ 0x41 ∷ 0x41 ∷ []

abbrev pub p2pk_prefix : List ℕ
p2pk_prefix = 0x01 ∷ 0x00 ∷ 0x27 ∷ 0x10 ∷ 0x01 ∷ 0x08 ∷ 0xcd ∷ []

abbrev pub p2pk_suffix : List ℕ
p2pk_suffix = 0x73 ∷ 0x00 ∷ 0x00 ∷ 0x21 ∷ []

-- The random bytes that the generator gives next; behind their end a zero stands for each byte.
abbrev pub next_bytes : ℕ → List ℕ → List ℕ × List ℕ
next_bytes n random = (take n (random ++ replicate n 0), drop n random)

-- What one round of the loop works on: the arguments, the random bytes and the local `buf`.
pub record SignState (H : Type 0) : Type 0 where
  pub hash : H
  pub key : List ℕ
  pub random : List ℕ
  pub buf : List ℕ

-- `buf[0] = (buf[PUBLIC_KEY_LEN - 1] & 1) == 1 ? 0x03 : 0x02;`
abbrev pub compress_point : List ℕ → List ℕ
compress_point p = (if bit_and (get_or p 64 0) 1 == 1 then 0x03 else 0x02) ∷ drop 1 p

abbrev is_not_negative : Diff → Bool
is_not_negative negative = false
is_not_negative same = true
is_not_negative positive = true

abbrev is_positive : Diff → Bool
is_positive positive = true
is_positive _ = false

module _ {H : Type 0} (hs : HashSdk H) (sdk : CryptoSdk) where
  -- `if (!blake2b_update(hash, ...)) break;`
  abbrev absorb_or_break : List ℕ → Body Bool (SignState H) (Unit {0})
  absorb_or_break bytes s =
      let (ok, h) = blake2b_update hs s.hash bytes in
      let s' = record s { hash = h } in if ok then go tt s' else stop false s'

  abbrev init_or_break : Body Bool (SignState H) (Unit {0})
  init_or_break s =
      let (ok, h) = blake2b_256_init hs s.hash in
      let s' = record s { hash = h } in if ok then go tt s' else stop false s'

  -- The generator times the scalar, compressed, in `buf`.
  abbrev multiply_or_break : List ℕ → Body Bool (SignState H) (Unit {0})
  multiply_or_break scalar s =
      let (p, code) = sdk.cx_ecfp_scalar_mult_no_throw (0x04 ∷ secp256k1_g) scalar in
      if not (code == 0)
      then stop false (record s { buf = p })
      else go tt (record s { buf = compress_point p })

  abbrev absorb_point : Body Bool (SignState H) (Unit {0})
  absorb_point = do s ← read; absorb_or_break (take compressed_public_key_len s.buf)

  abbrev compare_or_break : (Diff → Bool) → List ℕ → Body Bool (SignState H) (Unit {0})
  compare_or_break is_bad number s =
      let (diff, code) = sdk.cx_math_cmp_no_throw number secp256k1_n in
      if not (code == 0) || is_bad diff then stop false s else go tt s

  abbrev draw_key : SignState H → SignState H
  draw_key s =
      let (key, random) = next_bytes private_key_len s.random in
      record s { key = key; random = random }

  -- The body of `do ... while (0)`: the value of `result` behind it.
  unfoldable pub sign_round : List ℕ → Function Bool (SignState H)
  unfolding blake2b_256_init blake2b_update
  sign_round secret = function do
    init_or_break
    absorb_or_break p2pk_prefix
    when (sdk.cx_math_is_zero secret) (ret false)
    compare_or_break is_not_negative secret
    multiply_or_break secret
    absorb_point
    absorb_or_break p2pk_suffix
    modify draw_key
    s ← read
    when (sdk.cx_math_is_zero s.key) (ret false)
    compare_or_break is_positive s.key
    multiply_or_break s.key
    absorb_point
    ret true

  abbrev clear_buf : SignState H → SignState H
  clear_buf s = record s { buf = replicate public_key_len 0 }

  unfoldable pub sign_rounds : ℕ → List ℕ → Function Bool (SignState H)
  unfolding sign_round
  sign_rounds zero secret s = (false, s)
  sign_rounds (suc rounds) secret s =
      let (result, s') = sign_round secret s in
      elim result [ true ↦ (true, clear_buf s') | false ↦ sign_rounds rounds secret (clear_buf s') ]

  -- The result, the hash, the key and the random bytes that are left. What the fresh `buf` holds is
  -- never read.
  unfoldable pub ergo_secp256k1_schnorr_p2pk_sign_init :
      H → (key secret random : List ℕ) → Bool × H × List ℕ × List ℕ
  unfolding sign_rounds
  ergo_secp256k1_schnorr_p2pk_sign_init hash key secret random =
      let start : SignState H = record {
        hash = hash;
        key = key;
        random = random;
        buf = replicate public_key_len 0;
      } in
      let (result, s) = sign_rounds max_iterations secret start in (result, s.hash, s.key, s.random)

  -- The challenge and the answer, which are stored one behind the other.
  abbrev answer : (digest secret key : List ℕ) → Option (List ℕ)
  answer digest secret key =
      let challenge = replicate 8 0 ++ take ergo_soundness_bytes digest in
      let (product, code) = sdk.cx_math_multm_no_throw challenge secret secp256k1_n in
      let (sum, code') = sdk.cx_math_addm_no_throw key product secp256k1_n in
      if sdk.cx_math_is_zero challenge || not (code == 0) || not (code' == 0)
      then none
      else some (take ergo_soundness_bytes digest ++ sum)

  -- The signature, or `none` for false, where the array is not read; and the hash.
  unfoldable pub ergo_secp256k1_schnorr_p2pk_sign_finish :
      H → (secret key : List ℕ) → Option (List ℕ) × H
  unfolding blake2b_256_finalize
  ergo_secp256k1_schnorr_p2pk_sign_finish hash secret key =
      let (ok, digest, hash') = blake2b_256_finalize hs hash in
      ((if ok then answer digest secret key else none), hash')
