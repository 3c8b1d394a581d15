-- ===== src/Common/Gve.antt =====
-- src/common/gve.h and gve.c: unsigned numbers in 1 to 10 bytes, seven bits a byte, lowest first,
-- with the top bit set on every byte but the last.
pub mod Encoding
pub mod RoundTrip
pub mod Signed
use ledger_app_ergo.Prelude.{
  ℕ, zero, suc, ◌+◌, ◌-◌, ◌*◌, ◌/◌, ◌%◌, ◌^◌, Bool, true, false, Option, none, some, List, [], ◌∷◌,
  bit_and, bit_or, ltb, ◌==◌, if◌then◌else◌, length, u64_mod, u32_mod,
}
use ledger_app_ergo.Sdk.{Buffer, BufferSdk}
use ledger_app_ergo.Common.RwBuffer.{RwBuffer, rw_buffer_write_u8, rw_buffer_write_bytes}

pub data GveResult : Type 0 where
  gve_ok gve_err_int_to_big gve_err_data_size : GveResult

-- `res == GVE_OK`
abbrev pub is_gve_ok : GveResult → Bool
is_gve_ok gve_ok = true
is_gve_ok gve_err_int_to_big = false
is_gve_ok gve_err_data_size = false

-- The loop of `gve_put_u64`: `room` counts the places of `out` that are left. A uint64_t never needs
-- an eleventh (`Encoding.groups_total`).
unfoldable pub put_groups : (room : ℕ) → ℕ → List ℕ
put_groups zero val = []
put_groups (suc room) val =
    let byte = bit_and val 0x7f in
    let more = bit_or byte 0x80 ∷ put_groups room (val / 2 ^ 7) in
    if val / 2 ^ 7 == 0 then byte ∷ [] else more

abbrev pub gve_out_len : ℕ
gve_out_len = 10

-- A failed put leaves the buffer as it was.
abbrev pub put_result : RwBuffer → Option RwBuffer → GveResult × RwBuffer
put_result b none = (gve_err_data_size, b)
put_result b (some b') = (gve_ok, b')

unfoldable pub gve_put_u64 : RwBuffer → ℕ → GveResult × RwBuffer
gve_put_u64 buffer val =
    let out = put_groups gve_out_len val in
    put_result buffer (rw_buffer_write_bytes buffer out (length out))

abbrev pub gve_put_u32 : RwBuffer → ℕ → GveResult × RwBuffer
gve_put_u32 buffer val = gve_put_u64 buffer val

abbrev pub gve_put_u16 : RwBuffer → ℕ → GveResult × RwBuffer
gve_put_u16 buffer val = gve_put_u64 buffer val

unfoldable pub gve_put_u8 : RwBuffer → ℕ → GveResult × RwBuffer
gve_put_u8 buffer val = put_result buffer (rw_buffer_write_u8 buffer val)

-- A getter returns the result, the value in `*val` and the buffer. The loop of `gve_get_u64` runs
-- while `shift < 64`; ten rounds are left at first, since the shift grows by 7.
module _ (sdk : BufferSdk) where
  unfoldable pub get_groups : (rounds shift val : ℕ) → Buffer → GveResult × ℕ × Buffer
  get_groups zero shift val b = (gve_ok, val, b)
  get_groups (suc rounds) shift val b = elim (sdk.read_u8 b) [
    | none ↦ (gve_err_data_size, val, b)
    | some (byte, b') ↦
        (let val' = bit_or val (bit_and byte 0x7f * 2 ^ shift % u64_mod) in
          let more = get_groups rounds (shift + 7) val' b' in
          if bit_and byte 0x80 == 0 then (gve_ok, val', b') else more)
  ]

  unfoldable pub gve_get_u64 : Buffer → GveResult × ℕ × Buffer
  unfolding get_groups
  gve_get_u64 b = get_groups 10 0 0 b

  -- `res` and the value of a narrower getter: the value stays 0 unless the result is GVE_OK.
  narrow : ℕ → GveResult → ℕ → Buffer → GveResult × ℕ × Buffer
  narrow limit gve_ok u64 b = if ltb limit u64 then (gve_err_int_to_big, 0, b) else (gve_ok, u64, b)
  narrow limit e u64 b = (e, 0, b)

  unfoldable pub gve_get_u16 : Buffer → GveResult × ℕ × Buffer
  unfolding gve_get_u64 narrow
  gve_get_u16 b = let (res, u64, b') = gve_get_u64 b in narrow (2 ^ 16 - 1) res u64 b'

  unfoldable pub gve_get_u32 : Buffer → GveResult × ℕ × Buffer
  unfolding gve_get_u64 narrow
  gve_get_u32 b = let (res, u64, b') = gve_get_u64 b in narrow (2 ^ 32 - 1) res u64 b'
