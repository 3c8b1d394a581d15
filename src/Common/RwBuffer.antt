-- ===== src/Common/RwBuffer.antt =====
-- src/common/rwbuffer.h and rwbuffer.c: a buffer that is written at its end and read at its front.
-- `read.size` is the write position. `memmove` and the stores of write.c are writes into the memory.
pub mod Contents
pub mod Numbers
pub mod Holds
use ledger_app_ergo.Prelude.{
  ℕ, ◌+◌, ◌-◌, ◌%◌, Bool, Option, none, some, true, false, List, [], ◌∷◌, set, take, replicate, ltb,
  leb, ◌||◌, if◌then◌else◌, u32_mod, wrap_sub, ◌==◌,
}
use ledger_app_ergo.Sdk.{Buffer, BufferSdk}
use ledger_app_ergo.Common.Buffer.{buffer_init, buffer_read_ptr, buffer_data_len}

pub record RwBuffer : Type 0 where
  pub read : Buffer
  pub size : ℕ

-- Bytes stored one after the other from position `i` on.
unfoldable pub store : List ℕ → ℕ → List ℕ → List ℕ
store ptr i [] = ptr
store ptr i (x ∷ xs) = store (set ptr i x) (i + 1) xs

abbrev pub rw_buffer_init : List ℕ → ℕ → ℕ → RwBuffer
rw_buffer_init ptr buf_size data_size = record { read = buffer_init ptr data_size; size = buf_size }

-- `RW_BUFFER_NEW_LOCAL_EMPTY`. What the fresh array holds is never read.
abbrev pub rw_buffer_new_local_empty : ℕ → RwBuffer
rw_buffer_new_local_empty size = rw_buffer_init (replicate size 0) size 0

abbrev pub rw_buffer_empty : RwBuffer → RwBuffer
rw_buffer_empty b = record b { read = record { ptr = b.read.ptr; offset = 0; size = 0 } }

abbrev pub rw_buffer_data_len : RwBuffer → ℕ
rw_buffer_data_len b = buffer_data_len b.read

abbrev pub rw_buffer_empty_space_len : RwBuffer → ℕ
rw_buffer_empty_space_len b = wrap_sub u32_mod b.size b.read.size

abbrev pub rw_buffer_read_ptr : RwBuffer → List ℕ
rw_buffer_read_ptr b = buffer_read_ptr b.read

abbrev pub rw_buffer_can_write : RwBuffer → ℕ → Bool
rw_buffer_can_write b n = leb n (rw_buffer_empty_space_len b)

abbrev pub set_write_position : RwBuffer → ℕ → RwBuffer
set_write_position b n = record b {
  read = record { ptr = b.read.ptr; offset = b.read.offset; size = n };
}

-- The seeks and writes return the new buffer, or `none` for false with the buffer as it was.
unfoldable pub rw_buffer_seek_write_set : RwBuffer → ℕ → Option RwBuffer
rw_buffer_seek_write_set b offset =
    if ltb b.size offset then none else some (set_write_position b offset)

unfoldable pub rw_buffer_seek_write_cur : RwBuffer → ℕ → Option RwBuffer
rw_buffer_seek_write_cur b offset =
    let end = (b.read.size + offset) % u32_mod in
    if ltb end b.read.size || ltb b.size end then none else some (set_write_position b end)

unfoldable pub rw_buffer_seek_write_end : RwBuffer → ℕ → Option RwBuffer
rw_buffer_seek_write_end b offset =
    if ltb b.size offset then none else some (set_write_position b (wrap_sub u32_mod b.size offset))

-- The result of a seek is not looked at: where it fails the buffer stays as it was.
abbrev pub or_same : RwBuffer → Option RwBuffer → RwBuffer
or_same b none = b
or_same b (some b') = b'

abbrev pub with_ptr : RwBuffer → List ℕ → RwBuffer
with_ptr b ptr = record b {
  read = record { ptr = ptr; offset = b.read.offset; size = b.read.size };
}

unfoldable pub rw_buffer_write_u8 : RwBuffer → ℕ → Option RwBuffer
unfolding rw_buffer_seek_write_cur
rw_buffer_write_u8 b value =
    let b' = with_ptr b (set b.read.ptr b.read.size value) in
    if rw_buffer_can_write b 1 then some (or_same b' (rw_buffer_seek_write_cur b' 1)) else none

-- `from_len` is the length of the list.
unfoldable pub rw_buffer_write_bytes : RwBuffer → List ℕ → ℕ → Option RwBuffer
unfolding rw_buffer_seek_write_cur
rw_buffer_write_bytes b from from_len =
    let b' = with_ptr b (store b.read.ptr b.read.size (take from_len from)) in
    if rw_buffer_can_write b from_len
    then some (or_same b' (rw_buffer_seek_write_cur b' from_len))
    else none

abbrev or_old : RwBuffer → Option Buffer → RwBuffer
or_old b none = b
or_old b (some r) = record b { read = r }

unfoldable pub rw_buffer_shift_data : BufferSdk → RwBuffer → RwBuffer
unfolding rw_buffer_seek_write_set
rw_buffer_shift_data sdk b =
    let data_len = rw_buffer_data_len b in
    let b' = with_ptr b (store b.read.ptr 0 (take data_len (rw_buffer_read_ptr b))) in
    let b'' = or_old b' (sdk.seek_set b'.read 0) in
    if b.read.offset == 0 then b else or_same b'' (rw_buffer_seek_write_set b'' data_len)
