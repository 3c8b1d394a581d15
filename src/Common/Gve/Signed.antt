-- ===== src/Common/Gve/Signed.antt =====
-- src/common/zigzag.h and the signed numbers and single bytes of gve.h and gve.c. A signed integer is its two's
-- complement pattern of its width.
use ledger_app_ergo.Prelude.{
  ℕ, ◌+◌, ◌-◌, ◌*◌, ◌/◌, ◌%◌, ◌^◌, ◌==◌, ltb, leb, ◌&&◌, if◌then◌else◌, u64_mod, u32_mod, Option,
  none, some,
}
use Prim.Native.Nat.{bit_xor}
use ledger_app_ergo.Sdk.{Buffer, BufferSdk}
use ledger_app_ergo.Common.RwBuffer.{RwBuffer}
use ledger_app_ergo.Common.Gve.{
  GveResult, gve_ok, gve_err_int_to_big, gve_err_data_size, gve_get_u64, gve_put_u64, gve_put_u32,
  gve_put_u8,
}

-- The pattern of width `w` that every bit of is the sign: `v >> (w - 1)`.
abbrev sign_bits : (w : ℕ) → ℕ → ℕ
sign_bits w v = if leb (2 ^ (w - 1)) v then 2 ^ w - 1 else 0

-- An integer of the width `w` as one of the width `w'`.
abbrev sign_extended : (w w' : ℕ) → ℕ → ℕ
sign_extended w w' v = if leb (2 ^ (w - 1)) v then v + (2 ^ w' - 2 ^ w) else v

-- The `int32_t` that is computed becomes a `uint64_t` with its sign kept.
unfoldable pub zigzag_encode_i32 : ℕ → ℕ
zigzag_encode_i32 v = sign_extended 32 64 (bit_xor (v * 2 % u32_mod) (sign_bits 32 v))

unfoldable pub zigzag_decode_i32 : ℕ → ℕ
zigzag_decode_i32 v = bit_xor (v % u32_mod / 2) (if v % 2 == 1 then u32_mod - 1 else 0)

unfoldable pub zigzag_encode_i64 : ℕ → ℕ
zigzag_encode_i64 v = bit_xor (v * 2 % u64_mod) (sign_bits 64 v)

unfoldable pub zigzag_decode_i64 : ℕ → ℕ
zigzag_decode_i64 v = bit_xor (v / 2) (if v % 2 == 1 then u64_mod - 1 else 0)

unfoldable gve_put_i64 : RwBuffer → ℕ → GveResult × RwBuffer
unfolding gve_put_u64 zigzag_encode_i64
gve_put_i64 buffer val = gve_put_u64 buffer (zigzag_encode_i64 val)

unfoldable gve_put_i32 : RwBuffer → ℕ → GveResult × RwBuffer
unfolding gve_put_u64 zigzag_encode_i32
gve_put_i32 buffer val = gve_put_u64 buffer (zigzag_encode_i32 val)

unfoldable gve_put_i16 : RwBuffer → ℕ → GveResult × RwBuffer
unfolding gve_put_u64 zigzag_encode_i32
gve_put_i16 buffer val = gve_put_u32 buffer (zigzag_encode_i32 (sign_extended 16 32 val) % u32_mod)

unfoldable gve_put_i8 : RwBuffer → ℕ → GveResult × RwBuffer
unfolding gve_put_u8
gve_put_i8 buffer val = gve_put_u8 buffer val

-- The values of the getters: 0 unless the result is GVE_OK.
abbrev decoded_i64 : GveResult × ℕ × Buffer → GveResult × ℕ × Buffer
decoded_i64 (gve_ok, u64, b) = (gve_ok, zigzag_decode_i64 u64, b)
decoded_i64 (e, u64, b) = (e, 0, b)

abbrev decoded_i32 : GveResult × ℕ × Buffer → GveResult × ℕ × Buffer
decoded_i32 (gve_ok, u64, b) =
    if ltb 0xffffffff u64 then (gve_err_int_to_big, 0, b) else (gve_ok, zigzag_decode_i32 u64, b)
decoded_i32 (e, u64, b) = (e, 0, b)

abbrev cut_i16 : GveResult × ℕ × Buffer → GveResult × ℕ × Buffer
cut_i16 (gve_ok, i32, b) =
    if ltb 0x7fff i32 && ltb i32 (u32_mod - 2 ^ 15)
    then (gve_err_int_to_big, 0, b)
    else (gve_ok, i32 % 2 ^ 16, b)
cut_i16 (e, i32, b) = (e, 0, b)

abbrev read_result : Option (ℕ × Buffer) → GveResult × Option (ℕ × Buffer)
read_result none = (gve_err_data_size, none)
read_result (some r) = (gve_ok, some r)

module _ (sdk : BufferSdk) where
  unfoldable gve_get_i64 : Buffer → GveResult × ℕ × Buffer
  unfolding gve_get_u64 zigzag_decode_i64
  gve_get_i64 b = decoded_i64 (gve_get_u64 sdk b)

  unfoldable gve_get_i32 : Buffer → GveResult × ℕ × Buffer
  unfolding gve_get_u64 zigzag_decode_i32
  gve_get_i32 b = decoded_i32 (gve_get_u64 sdk b)

  unfoldable gve_get_i16 : Buffer → GveResult × ℕ × Buffer
  unfolding gve_get_i32
  gve_get_i16 b = cut_i16 (gve_get_i32 b)

  -- `none` where the value of the caller is left to the SDK.
  unfoldable gve_get_u8 : Buffer → GveResult × Option (ℕ × Buffer)
  gve_get_u8 b = read_result (sdk.read_u8 b)

  unfoldable gve_get_i8 : Buffer → GveResult × Option (ℕ × Buffer)
  unfolding gve_get_u8
  gve_get_i8 b = gve_get_u8 b
