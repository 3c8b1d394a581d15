-- ===== src/Examples/Device.antt =====
-- A concrete device: buffers read by plain list functions, and a hash context that keeps the bytes.
use ledger_app_ergo.Prelude.{
  Option, ◌+◌, ◌/◌, ◌%◌, drop, take, ℕ, zero, suc, ◌-◌, ◌*◌, List, [], ◌∷◌, ◌++◌, none, some, leb,
  if◌then◌else◌, refl, replicate,
}
use mathlib.Core.List.{append_assoc, append-nil}
use ledger_app_ergo.Sdk.{Buffer, BufferSdk, HashSdk, WriteSdk, advance}
use ledger_app_ergo.Common.RwBuffer.{store}
use ledger_app_ergo.Common.RwBuffer.Numbers.{be_u64, WriteLaws}
use ledger_app_ergo.Sdk.Laws.{BufferLaws, HashLaws, word}
use ledger_app_ergo.Ergo.TokenTable.{TokenTable}
use ledger_app_ergo.Ergo.Memory.{Memory, Shared}
use ledger_app_ergo.Ergo.Input.{zero_input_context}
use ledger_app_ergo.Ergo.Box.{zero_box_context}
use ledger_app_ergo.Ergo.Full.{Layout}

abbrev words_of : ℕ → Buffer → List ℕ
words_of zero b = []
words_of (suc n) b = word 4 b ∷ words_of n (advance b 4)

-- The first `n` bytes as a number, the lowest one first.
abbrev low_first : ℕ → List ℕ → ℕ
low_first zero xs = 0
low_first (suc n) [] = 0
low_first (suc n) (x ∷ xs) = x + 256 * low_first n xs

abbrev read_low_first : ℕ → Buffer → Option (ℕ × Buffer)
read_low_first n b =
    if leb n (b.size - b.offset)
    then some (low_first n (drop b.offset b.ptr), advance b n)
    else none

abbrev pub list_buffers : BufferSdk
list_buffers = record {
  can_read = λ b n. leb n (b.size - b.offset);
  seek_set = λ b n. if leb n b.size then some (record b { offset = n }) else none;
  seek_cur = λ b n. if leb n (b.size - b.offset) then some (advance b n) else none;
  seek_end = λ b n. if leb n b.size then some (record b { offset = b.size - n }) else none;
  read_u8 = λ b. if leb 1 (b.size - b.offset) then some (word 1 b, advance b 1) else none;
  read_u16 = λ b. if leb 2 (b.size - b.offset) then some (word 2 b, advance b 2) else none;
  read_u32 = λ b. if leb 4 (b.size - b.offset) then some (word 4 b, advance b 4) else none;
  read_u64 = λ b. if leb 8 (b.size - b.offset) then some (word 8 b, advance b 8) else none;
  read_u16_le = read_low_first 2;
  read_u32_le = read_low_first 4;
  read_u64_le = read_low_first 8;
  read_bip32_path = λ b n.
      if leb (4 * n) (b.size - b.offset) then some (words_of n b, advance b (4 * n)) else none;
}

abbrev pub list_buffers_laws : BufferLaws list_buffers
list_buffers_laws = record {
  can_read_lem = λ b n h. refl;
  seek_cur_lem = λ b n h. refl;
  read_u8_lem = λ b h. refl;
  read_u32_lem = λ b h. refl;
  read_u64_lem = λ b h. refl;
}

-- Big endian by lists; the little-endian writers are used by no command.
abbrev pub list_writes : WriteSdk
list_writes = record {
  write_u16_be = λ ptr offset v. store ptr offset (v / 256 % 256 ∷ v % 256 ∷ []);
  write_u16_le = λ ptr offset v. store ptr offset (v % 256 ∷ v / 256 % 256 ∷ []);
  write_u32_be = λ ptr offset v. store ptr offset (drop 4 (be_u64 v));
  write_u32_le = λ ptr offset v. ptr;
  write_u64_be = λ ptr offset v. store ptr offset (be_u64 v);
  write_u64_le = λ ptr offset v. ptr;
}

abbrev pub list_writes_laws : WriteLaws list_writes
list_writes_laws = record { write_u64_be_lem = λ ptr offset v. refl }

abbrev pub byte_log : HashSdk (List ℕ)
byte_log = record {
  cx_ok = 0;
  cx_last_no_reinit = 5;
  cx_blake2b_init_no_throw = λ h n. ([], 0);
  cx_hash_no_throw = λ h mode xs out. (h ++ xs, [], 0);
  cx_blake2b_256_hash = λ xs. (take 32 (xs ++ replicate 32 0), 0);
}

abbrev pub byte_log_laws : HashLaws byte_log
byte_log_laws = record {
  absorb = λ h xs. h ++ xs;
  update_lem = λ h xs. refl;
  absorb-append = λ h xs ys. append_assoc h xs ys;
  absorb-nil = λ h. append-nil h;
}

abbrev pub separate : {E : Type 0} → Layout E
separate = record { box_of = λ c. zero_box_context; input_of = λ c. zero_input_context }

abbrev pub one_token : TokenTable
one_token = record { count = 1; tokens = (7 ∷ []) ∷ replicate 99 [] }

abbrev pub memory : Memory (List ℕ) (Unit {0})
memory =
    let shared : Shared (Unit {0}) = record { tokens_table = one_token; env = tt } in
    record { hash = 1 ∷ []; shared = shared }
