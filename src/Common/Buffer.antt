-- ===== src/Common/Buffer.antt =====
-- src/common/buffer_ext.h and buffer_ext.c: reading blocks of bytes from a buffer.
pub mod Read
use ledger_app_ergo.Prelude.{
  ℕ, Bool, Option, none, some, List, take, drop, u32_mod, wrap_sub, if◌then◌else◌,
}
use ledger_app_ergo.Sdk.{Buffer, BufferSdk}

abbrev pub buffer_init : List ℕ → ℕ → Buffer
buffer_init ptr data_size = record { ptr = ptr; offset = 0; size = data_size }

-- The memory from the read position on.
abbrev pub buffer_read_ptr : Buffer → List ℕ
buffer_read_ptr b = drop b.offset b.ptr

abbrev pub buffer_data_len : Buffer → ℕ
buffer_data_len b = wrap_sub u32_mod b.size b.offset

module _ (sdk : BufferSdk) where
  unfoldable pub buffer_copy_bytes : Buffer → ℕ → Option (List ℕ)
  buffer_copy_bytes b count =
      if sdk.can_read b count then some (take count (buffer_read_ptr b)) else none

  seek_after : Option (List ℕ) → Buffer → ℕ → Option (List ℕ × Buffer)
  seek_after none b count = none
  seek_after (some out) b count = elim (sdk.seek_cur b count) [
    | none ↦ none
    | some b' ↦ some (out, b')
  ]

  unfoldable pub buffer_read_bytes : Buffer → ℕ → Option (List ℕ × Buffer)
  unfolding buffer_copy_bytes seek_after
  buffer_read_bytes b count = seek_after (buffer_copy_bytes b count) b count
