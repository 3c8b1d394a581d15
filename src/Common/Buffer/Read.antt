-- ===== src/Common/Buffer/Read.antt =====
-- What the readers of buffer_ext.c do, on buffers over their memory.
use ledger_app_ergo.Prelude.{
  ℕ, ◌+◌, ◌-◌, ◌≤◌, ◌≡◌, none, some, List, [], leb, if◌then◌else◌, take, drop, length, zero, suc,
  ◌∷◌, ◌++◌, length-take, length-drop, arith, refl,
}
use ledger_app_ergo.Sdk.{Buffer, BufferSdk, advance}
use ledger_app_ergo.Sdk.Laws.{IsBuffer, BufferLaws, unread}
use ledger_app_ergo.Common.Buffer.{buffer_data_len, buffer_read_bytes}

-- The length of the data is the count of the bytes that are still to be read.
pub buffer_data_len-unread : (b : Buffer) → IsBuffer b → buffer_data_len b ≡ b.size - b.offset
buffer_data_len-unread b h = omega arith

pub length-unread : (b : Buffer) → IsBuffer b → length (unread b) ≡ b.size - b.offset
length-unread b h =
    omega (arith, length-take (b.size - b.offset) (drop b.offset b.ptr), length-drop b.offset b.ptr)

pub advance-IsBuffer :
    (b : Buffer) (n : ℕ) → IsBuffer b → n ≤ b.size - b.offset → IsBuffer (advance b n)
advance-IsBuffer b n h le = omega arith

pub drop-add {ℓ} : {A : Type ℓ} (m n : ℕ) (xs : List A) → drop (m + n) xs ≡ drop n (drop m xs)
drop-add zero n xs = let e : 0 + n ≡ n = omega arith in rw e
drop-add (suc m) zero [] = let e : suc m + 0 ≡ suc m = omega arith in rw e
drop-add (suc m) (suc n) [] = let e : suc m + suc n ≡ suc (m + suc n) = omega arith in rw e
drop-add (suc m) n (x ∷ xs) =
    let e : suc m + n ≡ suc (m + n) = omega arith in rw e (drop-add m n xs)

take_nil {ℓ} : {A : Type ℓ} (k : ℕ) → take {A = A} k [] ≡ []
take_nil zero = refl
take_nil (suc k) = refl

take-split {ℓ} :
    {A : Type ℓ} (m n : ℕ) (xs : List A) → m ≤ n → take n xs ≡ take m xs ++ take (n - m) (drop m xs)
take-split zero n xs h = let e : n - 0 ≡ n = omega arith in rw e
take-split (suc m) zero xs h = absurd (omega arith)
take-split (suc m) (suc n) [] h = rw (take_nil (suc n - suc m))
take-split (suc m) (suc n) (x ∷ xs) h =
    let e : suc n - suc m ≡ n - m = omega arith in rw (e, take-split m n xs (omega arith))

-- Reading takes the front off the bytes that are still to be read.
pub unread-advance :
    (b : Buffer) (n : ℕ)
    → n ≤ b.size - b.offset
    → unread b ≡ take n (drop b.offset b.ptr) ++ unread (advance b n)
unread-advance b n h =
    let e : b.size - (b.offset + n) ≡ b.size - b.offset - n = omega arith in
    rw (e, drop-add b.offset n b.ptr) (take-split n (b.size - b.offset) (drop b.offset b.ptr) h)

module _ (sdk : BufferSdk) (laws : BufferLaws sdk) where
  -- Over buffer functions that obey their laws, and on a well-formed buffer, a block is read
  -- exactly when that many bytes are unread; it is then the next bytes, and the read position
  -- moves behind them.
  buffer_read_bytes_lem :
      (b : Buffer) (n : ℕ)
      → IsBuffer b
      → buffer_read_bytes sdk b n ≡ (
          if leb n (b.size - b.offset)
          then some (take n (drop b.offset b.ptr), advance b n)
          else none)
  unfolding buffer_read_bytes
  buffer_read_bytes_lem b n h = ground (arith, laws.can_read_lem b n h, laws.seek_cur_lem b n h)
