-- ===== src/Common/RwBuffer/Contents.antt =====
-- The contents of a read-write buffer, and what the writes do to them.
use ledger_app_ergo.Prelude.{
  ℕ, zero, suc, ◌+◌, ◌-◌, ◌≤◌, ◌<◌, ◌≡◌, none, some, List, [], ◌∷◌, ◌++◌, length, take, drop, set,
  ltb, leb, if◌then◌else◌, u32_mod, length-set, length-replicate, arith, refl, ◌∙◌, ap, take_all,
}
use ledger_app_ergo.Common.RwBuffer.{
  RwBuffer, store, rw_buffer_write_u8, rw_buffer_write_bytes, rw_buffer_seek_write_cur,
  rw_buffer_new_local_empty, with_ptr, set_write_position, rw_buffer_data_len, rw_buffer_read_ptr,
}
use mathlib.Core.List.{append_assoc, append-nil}

-- The read position is behind the start, the write position behind it, and both in the memory.
pub record IsRwBuffer (b : RwBuffer) : Type 0 where
  pub position : b.read.offset ≤ b.read.size
  pub within : b.read.size ≤ b.size
  pub memory : b.size ≡ length b.read.ptr
  pub fits : b.size < u32_mod

-- What has been written and not yet read: the bytes that `blake2b_update` is given.
abbrev pub contents : RwBuffer → List ℕ
contents b = take (rw_buffer_data_len b) (rw_buffer_read_ptr b)

pub length-store : (ptr : List ℕ) (i : ℕ) (xs : List ℕ) → length (store ptr i xs) ≡ length ptr
unfolding store
length-store ptr i [] = refl
length-store ptr i (x ∷ xs) =
    omega (arith, length-store (set ptr i x) (i + 1) xs, length-set ptr i x)

-- A byte stored at the end of the bytes from `o` to `o + n` joins them.
take-drop-set :
    (ptr : List ℕ) (o n : ℕ) (x : ℕ)
    → o + n < length ptr
    → take (suc n) (drop o (set ptr (o + n) x)) ≡ take n (drop o ptr) ++ x ∷ []
take-drop-set [] o n x h = elim h [ ]
take-drop-set (y ∷ ys) zero zero x h = refl
take-drop-set (y ∷ ys) zero (suc n) x h =
    let e : zero + suc n ≡ suc (zero + n) = omega arith in
    rw e (rw (take-drop-set ys zero n x (omega arith)))
take-drop-set (y ∷ ys) (suc o) n x h =
    let e : suc o + n ≡ suc (o + n) = omega arith in rw e (take-drop-set ys o n x (omega arith))

take-drop-store :
    (ptr : List ℕ) (o n : ℕ) (xs : List ℕ)
    → o + n + length xs ≤ length ptr
    → take (n + length xs) (drop o (store ptr (o + n) xs)) ≡ take n (drop o ptr) ++ xs
unfolding store
take-drop-store ptr o n [] h = let e : n + length {A = ℕ} [] ≡ n = omega arith in rw (e, append-nil)
take-drop-store ptr o n (x ∷ xs) h =
    let e : n + length (x ∷ xs) ≡ suc n + length xs = omega arith in
    let f : o + n + 1 ≡ o + suc n = omega arith in
    rw (e, f)
      (take-drop-store (set ptr (o + n) x) o (suc n) xs (omega (arith, length-set ptr (o + n) x))
        ∙ rw (take-drop-set ptr o n x (omega arith), append_assoc))

abbrev pub appended : RwBuffer → List ℕ → RwBuffer
appended b xs =
    set_write_position (with_ptr b (store b.read.ptr b.read.size xs)) (b.read.size + length xs)

pub appended-IsRwBuffer :
    (b : RwBuffer) (xs : List ℕ)
    → IsRwBuffer b
    → length xs ≤ b.size - b.read.size
    → IsRwBuffer (appended b xs)
appended-IsRwBuffer b xs h le = omega (arith, length-store b.read.ptr b.read.size xs)

pub contents-appended :
    (b : RwBuffer) (xs : List ℕ)
    → IsRwBuffer b
    → length xs ≤ b.size - b.read.size
    → contents (appended b xs) ≡ contents b ++ xs
contents-appended b xs h le =
    let o = b.read.offset in
    let n = b.read.size - b.read.offset in
    let e : rw_buffer_data_len (appended b xs) ≡ n + length xs = omega arith in
    let f : rw_buffer_data_len b ≡ n = omega arith in
    let g : b.read.size ≡ o + n = omega arith in
    rw (e, f)
      (rw (ap (λ t. store b.read.ptr t xs) g) (take-drop-store b.read.ptr o n xs (omega arith)))

-- Into a well-formed buffer, a block is written exactly when it fits the empty space, and the
-- buffer is then the one with the block appended.
pub rw_buffer_write_bytes_lem :
    (b : RwBuffer) (xs : List ℕ)
    → IsRwBuffer b
    → rw_buffer_write_bytes b xs (length xs)
      ≡ (if leb (length xs) (b.size - b.read.size) then some (appended b xs) else none)
unfolding rw_buffer_write_bytes rw_buffer_seek_write_cur
rw_buffer_write_bytes_lem b xs h = ground (arith, take_all (length xs) xs (omega arith))

pub rw_buffer_write_u8_lem :
    (b : RwBuffer) (x : ℕ)
    → IsRwBuffer b
    → rw_buffer_write_u8 b x ≡ (if ltb b.read.size b.size then some (appended b (x ∷ [])) else none)
unfolding rw_buffer_write_u8 rw_buffer_seek_write_cur store
rw_buffer_write_u8_lem b x h = ground arith

pub rw_buffer_new_local_empty-IsRwBuffer :
    (size : ℕ) → size < u32_mod → IsRwBuffer (rw_buffer_new_local_empty size)
rw_buffer_new_local_empty-IsRwBuffer size h = omega (arith, length-replicate {A = ℕ} size 0)
