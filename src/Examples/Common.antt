-- ===== src/Examples/Common.antt =====
-- Runs of the common parts.
use ledger_app_ergo.Prelude.{
  ℕ, ◌^◌, ◌-◌, ◌≡◌, ◌≤◌, ◌↔◌, List, [], ◌∷◌, ◌++◌, length, true, some, refl, arith,
}
use ledger_app_ergo.Examples.Device.{list_buffers, list_buffers_laws}
use ledger_app_ergo.Sdk.{Buffer}
use ledger_app_ergo.Sdk.Laws.{IsBuffer, unread}
use ledger_app_ergo.Common.SafeInt.{checked_add_i64, checked_sub_i64}
use ledger_app_ergo.Common.SafeInt.Exact.{checked_add_i64_exact, checked_sub_i64_exact}
use ledger_app_ergo.Common.RwBuffer.{rw_buffer_new_local_empty}
use ledger_app_ergo.Common.RwBuffer.Contents.{IsRwBuffer}
use ledger_app_ergo.Common.Gve.{put_groups, gve_ok, gve_get_u64, gve_out_len}
use ledger_app_ergo.Common.Gve.Encoding.{IsRun, decoded, groups_total}
use ledger_app_ergo.Common.Gve.Signed.{
  zigzag_encode_i32, zigzag_decode_i32, zigzag_encode_i64, zigzag_decode_i64,
}
use ledger_app_ergo.Common.Gve.RoundTrip.{gve_get_u64-put}
use ledger_app_ergo.Common.Bip32.{bip32_path_validate, at, bip32_path_same_account, address_e5}
use ledger_app_ergo.Common.Bip32.Valid.{IsTail, bip32_path_validate_iff}
use ledger_app_ergo.Common.Bip32.Account.{same_account_ignores_account}

checked_add_i64_exact_example : checked_add_i64 0xffff_ffff_ffff_fffe 7 ≡ some 5
checked_add_i64_exact_example =
    checked_add_i64_exact 0xffff_ffff_ffff_fffe 7 (omega arith) (omega arith)

checked_sub_i64_exact_example : checked_sub_i64 5 7 ≡ some 0xffff_ffff_ffff_fffe
checked_sub_i64_exact_example = checked_sub_i64_exact 5 7 (omega arith) (omega arith)

abbrev two_bytes : Buffer
two_bytes = record { ptr = 0xac ∷ 2 ∷ 9 ∷ []; offset = 0; size = 3 }

abbrev two_bytes-IsBuffer : IsBuffer two_bytes
two_bytes-IsBuffer = record { position = omega arith; within = omega arith; fits = omega arith }

abbrev empty_ten-IsRwBuffer : IsRwBuffer (rw_buffer_new_local_empty 10)
empty_ten-IsRwBuffer = record {
  position = omega arith;
  within = omega arith;
  memory = refl;
  fits = omega arith;
}

groups_total_example :
    IsRun (put_groups gve_out_len 300)
    × (decoded (put_groups gve_out_len 300) ≡ 300)
    × (length (put_groups gve_out_len 300) ≤ gve_out_len)
groups_total_example = groups_total 300 (omega arith)

written : unread two_bytes ≡ put_groups gve_out_len 300 ++ 9 ∷ []
unfolding put_groups
written = refl

gve_get_u64-put_example :
    (b' : Buffer) × (gve_get_u64 list_buffers two_bytes ≡ (gve_ok, 300, b')) × (unread b' ≡ 9 ∷ [])
gve_get_u64-put_example =
    gve_get_u64-put list_buffers list_buffers_laws 300 two_bytes (9 ∷ []) (omega arith)
      two_bytes-IsBuffer written

abbrev address_path : List ℕ
address_path = 0x8000_002c ∷ 0x8000_01ad ∷ 0x8000_0000 ∷ 0 ∷ 3 ∷ []

bip32_path_validate_iff_example :
    (bip32_path_validate address_path 5 0x8000_002c 0x8000_01ad address_e5 ≡ true) ↔ (
      (3 ≤ 5)
      × (at address_path 0 ≡ 0x8000_002c)
      × (at address_path 1 ≡ 0x8000_01ad)
      × IsTail address_path 5 address_e5)
bip32_path_validate_iff_example =
    bip32_path_validate_iff address_path 5 0x8000_002c 0x8000_01ad address_e5

abbrev four_zeros : ℕ → List ℕ
four_zeros x = x ∷ 0 ∷ 0 ∷ 0 ∷ []

same_account_ignores_account_example :
    bip32_path_same_account four_zeros (44 ∷ 429 ∷ 0 ∷ []) 3 (44 ∷ 429 ∷ 1 ∷ []) 3 ≡ true
same_account_ignores_account_example =
    same_account_ignores_account four_zeros (λ x. refl) 44 (429 ∷ 0 ∷ []) (429 ∷ 1 ∷ []) 3 3
      (omega arith) (omega arith)

-- The double of this number is no int32_t: its code is no uint32_t, and the getter refuses it.
encoded_too_big : zigzag_encode_i32 (2 ^ 30) ≡ 0xffffffff80000000
unfolding zigzag_encode_i32
encoded_too_big = refl

minus_one_decoded : zigzag_decode_i64 (zigzag_encode_i64 (2 ^ 64 - 1)) ≡ 2 ^ 64 - 1
unfolding zigzag_encode_i64 zigzag_decode_i64
minus_one_decoded = refl

small_decoded : zigzag_decode_i32 (zigzag_encode_i32 (2 ^ 32 - 123456)) ≡ 2 ^ 32 - 123456
unfolding zigzag_encode_i32 zigzag_decode_i32
small_decoded = refl
