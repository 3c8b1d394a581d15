-- ===== src/Sdk.antt =====
-- What the application takes from the Ledger SDK (buffer.h, write.h, cx.h): parameters of the model.
-- The structure `buffer_t` is the SDK's, and src/common/buffer_ext.h reads its three fields.
pub mod Laws
pub mod Crypto
use ledger_app_ergo.Prelude.{ℕ, ◌+◌, Bool, Option, List}

-- `buffer_t`: `ptr` is the memory behind the pointer.
pub record Buffer : Type 0 where
  pub ptr : List ℕ
  pub offset : ℕ
  pub size : ℕ

abbrev pub advance : Buffer → ℕ → Buffer
advance b n = record b { offset = b.offset + n }

-- The functions on buffers. `none` is the result false. Numbers are read big endian, which
-- is the one order that the commands ask for, unless a name says otherwise.
pub record BufferSdk : Type 0 where
  pub can_read : Buffer → ℕ → Bool
  pub seek_set : Buffer → ℕ → Option Buffer
  pub seek_cur : Buffer → ℕ → Option Buffer
  pub seek_end : Buffer → ℕ → Option Buffer
  pub read_u8 : Buffer → Option (ℕ × Buffer)
  pub read_u16 : Buffer → Option (ℕ × Buffer)
  pub read_u32 : Buffer → Option (ℕ × Buffer)
  pub read_u64 : Buffer → Option (ℕ × Buffer)
  pub read_u16_le : Buffer → Option (ℕ × Buffer)
  pub read_u32_le : Buffer → Option (ℕ × Buffer)
  pub read_u64_le : Buffer → Option (ℕ × Buffer)
  -- The length of the path is given.
  pub read_bip32_path : Buffer → ℕ → Option (List ℕ × Buffer)

-- The hash functions, over the type of hash contexts `cx_blake2b_t`. A result is an error code.
pub record HashSdk (H : Type 0) : Type 0 where
  pub cx_ok : ℕ
  pub cx_last_no_reinit : ℕ
  pub cx_blake2b_init_no_throw : H → ℕ → H × ℕ
  -- The context, the mode, the data and the room for the digest; the digest and the code.
  pub cx_hash_no_throw : H → ℕ → List ℕ → ℕ → H × List ℕ × ℕ
  pub cx_blake2b_256_hash : List ℕ → List ℕ × ℕ

-- `endianness_t`, and the writers of numbers of write.h: the memory, the offset and the value.
pub data Endianness : Type 0 where
  be : Endianness
  le : Endianness

pub record WriteSdk : Type 0 where
  pub write_u16_be : List ℕ → ℕ → ℕ → List ℕ
  pub write_u16_le : List ℕ → ℕ → ℕ → List ℕ
  pub write_u32_be : List ℕ → ℕ → ℕ → List ℕ
  pub write_u32_le : List ℕ → ℕ → ℕ → List ℕ
  pub write_u64_be : List ℕ → ℕ → ℕ → List ℕ
  pub write_u64_le : List ℕ → ℕ → ℕ → List ℕ
