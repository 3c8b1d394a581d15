-- ===== src/Sdk/Laws.antt =====
-- What the SDK documents of these functions, as hypotheses that theorems name.
use ledger_app_ergo.Prelude.{
  ℕ, ◌+◌, ◌-◌, ◌*◌, ◌≤◌, ◌<◌, ◌≡◌, List, [], ◌∷◌, ◌++◌, none, some, leb, if◌then◌else◌, take, drop,
  length, u32_mod,
}
use ledger_app_ergo.Sdk.{Buffer, BufferSdk, HashSdk, advance}

-- A buffer over its memory: the read position is inside the data, and a size is a 32-bit size_t.
pub record IsBuffer (b : Buffer) : Type 0 where
  pub position : b.offset ≤ b.size
  pub within : b.size ≤ length b.ptr
  pub fits : b.size < u32_mod

-- The bytes that are still to be read.
abbrev pub unread : Buffer → List ℕ
unread b = take (b.size - b.offset) (drop b.offset b.ptr)

-- Big endian: the first byte is the highest.
abbrev pub big_endian : ℕ → List ℕ → ℕ
big_endian acc [] = acc
big_endian acc (x ∷ xs) = big_endian (acc * 256 + x) xs

abbrev pub word : ℕ → Buffer → ℕ
word n b = big_endian 0 (take n (drop b.offset b.ptr))

pub record BufferLaws (sdk : BufferSdk) : Type 0 where
  pub can_read_lem :
      (b : Buffer) (n : ℕ) → IsBuffer b → sdk.can_read b n ≡ leb n (b.size - b.offset)
  pub seek_cur_lem :
      (b : Buffer) (n : ℕ)
      → IsBuffer b
      → sdk.seek_cur b n ≡ (if leb n (b.size - b.offset) then some (advance b n) else none)
  pub read_u8_lem :
      (b : Buffer)
      → IsBuffer b
      → sdk.read_u8 b ≡ (if leb 1 (b.size - b.offset) then some (word 1 b, advance b 1) else none)
  pub read_u32_lem :
      (b : Buffer)
      → IsBuffer b
      → sdk.read_u32 b ≡ (if leb 4 (b.size - b.offset) then some (word 4 b, advance b 4) else none)
  pub read_u64_lem :
      (b : Buffer)
      → IsBuffer b
      → sdk.read_u64 b ≡ (if leb 8 (b.size - b.offset) then some (word 8 b, advance b 8) else none)

-- A hasher that does not fail. Its update with mode 0 takes in the data behind what it has taken in,
-- so the cut of a message into updates does not matter.
pub record HashLaws {H : Type 0} (sdk : HashSdk H) : Type 0 where
  pub absorb : H → List ℕ → H
  pub update_lem :
      (h : H) (xs : List ℕ) → sdk.cx_hash_no_throw h 0 xs 0 ≡ (absorb h xs, [], sdk.cx_ok)
  pub absorb-append : (h : H) (xs ys : List ℕ) → absorb (absorb h xs) ys ≡ absorb h (xs ++ ys)
  pub absorb-nil : (h : H) → absorb h [] ≡ h
