-- ===== src/Common/RwBuffer/Numbers.antt =====
-- src/common/rwbuffer.c: numbers of two, four and eight bytes are written; rwbuffer.h: the reads, which
-- are those of the buffer inside.
use ledger_app_ergo.Prelude.{
  ◌/◌, ◌%◌, ◌^◌, ◌≡◌, [], ◌∷◌, ℕ, Bool, Option, none, some, if◌then◌else◌, List, drop,
}
use ledger_app_ergo.Sdk.{Buffer, BufferSdk, Endianness, be, le, WriteSdk}
use ledger_app_ergo.Common.Buffer.{buffer_read_bytes, buffer_copy_bytes}
use ledger_app_ergo.Common.RwBuffer.{
  RwBuffer, store, with_ptr, or_same, rw_buffer_can_write, rw_buffer_seek_write_cur,
}

-- The bytes of a number, the highest first.
abbrev pub be_u64 : ℕ → List ℕ
be_u64 v =
    let byte = λ (place : ℕ). v / 256 ^ place % 256 in
    byte 7 ∷ byte 6 ∷ byte 5 ∷ byte 4 ∷ byte 3 ∷ byte 2 ∷ byte 1 ∷ byte 0 ∷ []

-- What the SDK documents of a writer: it stores these bytes one behind the other.
pub record WriteLaws (sdk : WriteSdk) : Type 0 where
  pub write_u64_be_lem :
      (ptr : List ℕ) (offset v : ℕ) → sdk.write_u64_be ptr offset v ≡ store ptr offset (be_u64 v)

module _ (sdk : WriteSdk) where
  abbrev store_u16 : Endianness → List ℕ → ℕ → ℕ → List ℕ
  store_u16 be = sdk.write_u16_be
  store_u16 le = sdk.write_u16_le

  abbrev store_u32 : Endianness → List ℕ → ℕ → ℕ → List ℕ
  store_u32 be = sdk.write_u32_be
  store_u32 le = sdk.write_u32_le

  abbrev pub store_u64 : Endianness → List ℕ → ℕ → ℕ → List ℕ
  store_u64 be = sdk.write_u64_be
  store_u64 le = sdk.write_u64_le

  unfoldable rw_buffer_write_u16 : RwBuffer → ℕ → Endianness → Option RwBuffer
  unfolding rw_buffer_seek_write_cur
  rw_buffer_write_u16 b value endianness =
      let b' = with_ptr b (store_u16 endianness b.read.ptr b.read.size value) in
      if rw_buffer_can_write b 2 then some (or_same b' (rw_buffer_seek_write_cur b' 2)) else none

  unfoldable rw_buffer_write_u32 : RwBuffer → ℕ → Endianness → Option RwBuffer
  unfolding rw_buffer_seek_write_cur
  rw_buffer_write_u32 b value endianness =
      let b' = with_ptr b (store_u32 endianness b.read.ptr b.read.size value) in
      if rw_buffer_can_write b 4 then some (or_same b' (rw_buffer_seek_write_cur b' 4)) else none

  unfoldable pub rw_buffer_write_u64 : RwBuffer → ℕ → Endianness → Option RwBuffer
  unfolding rw_buffer_seek_write_cur
  rw_buffer_write_u64 b value endianness =
      let b' = with_ptr b (store_u64 endianness b.read.ptr b.read.size value) in
      if rw_buffer_can_write b 8 then some (or_same b' (rw_buffer_seek_write_cur b' 8)) else none

abbrev pub rw_buffer_write_ptr : RwBuffer → List ℕ
rw_buffer_write_ptr b = drop b.read.size b.read.ptr

abbrev rw_buffer_read_position : RwBuffer → ℕ
rw_buffer_read_position b = b.read.offset

abbrev rw_buffer_write_position : RwBuffer → ℕ
rw_buffer_write_position b = b.read.size

abbrev moved : RwBuffer → Option Buffer → Option RwBuffer
moved b none = none
moved b (some r) = some (record b { read = r })

-- What is read, and the buffer behind it.
abbrev read_from : {A : Type 0} → RwBuffer → Option (A × Buffer) → Option (A × RwBuffer)
read_from b none = none
read_from b (some (a, r)) = some (a, record b { read = r })

module _ (sdk : BufferSdk) where
  abbrev rw_buffer_can_read : RwBuffer → ℕ → Bool
  rw_buffer_can_read b n = sdk.can_read b.read n

  abbrev rw_buffer_seek_read_set : RwBuffer → ℕ → Option RwBuffer
  rw_buffer_seek_read_set b offset = moved b (sdk.seek_set b.read offset)

  abbrev rw_buffer_seek_read_cur : RwBuffer → ℕ → Option RwBuffer
  rw_buffer_seek_read_cur b offset = moved b (sdk.seek_cur b.read offset)

  abbrev rw_buffer_seek_read_end : RwBuffer → ℕ → Option RwBuffer
  rw_buffer_seek_read_end b offset = moved b (sdk.seek_end b.read offset)

  abbrev rw_buffer_read_u16 : RwBuffer → Endianness → Option (ℕ × RwBuffer)
  rw_buffer_read_u16 b be = read_from b (sdk.read_u16 b.read)
  rw_buffer_read_u16 b le = read_from b (sdk.read_u16_le b.read)

  abbrev rw_buffer_read_u32 : RwBuffer → Endianness → Option (ℕ × RwBuffer)
  rw_buffer_read_u32 b be = read_from b (sdk.read_u32 b.read)
  rw_buffer_read_u32 b le = read_from b (sdk.read_u32_le b.read)

  abbrev rw_buffer_read_u64 : RwBuffer → Endianness → Option (ℕ × RwBuffer)
  rw_buffer_read_u64 b be = read_from b (sdk.read_u64 b.read)
  rw_buffer_read_u64 b le = read_from b (sdk.read_u64_le b.read)

  abbrev rw_buffer_read_u8 : RwBuffer → Option (ℕ × RwBuffer)
  rw_buffer_read_u8 b = read_from b (sdk.read_u8 b.read)

  abbrev rw_buffer_read_bip32_path : RwBuffer → ℕ → Option (List ℕ × RwBuffer)
  rw_buffer_read_bip32_path b out_len = read_from b (sdk.read_bip32_path b.read out_len)

  unfoldable rw_buffer_read_bytes : RwBuffer → ℕ → Option (List ℕ × RwBuffer)
  unfolding buffer_read_bytes
  rw_buffer_read_bytes b count = read_from b (buffer_read_bytes sdk b.read count)

  unfoldable rw_buffer_copy_bytes : RwBuffer → ℕ → Option (List ℕ)
  unfolding buffer_copy_bytes
  rw_buffer_copy_bytes b count = buffer_copy_bytes sdk b.read count
