-- ===== src/Common/RwBuffer/Holds.antt =====
-- A buffer that is written piece by piece: what each write appends.
use ledger_app_ergo.Prelude.{
  ℕ, true, ◌+◌, ◌≤◌, ◌<◌, ◌≡◌, some, List, [], ◌∷◌, ◌++◌, length, take, arith, refl, sym, ◌∙◌,
  take_all, length-take, length-append, u32_mod, ap, take-append, take_twice,
}
use ledger_app_ergo.Sdk.{WriteSdk, be}
use ledger_app_ergo.Common.RwBuffer.{
  rw_buffer_can_write, RwBuffer, set_write_position, rw_buffer_data_len, store, with_ptr,
  rw_buffer_init, rw_buffer_write_u8, rw_buffer_write_bytes, rw_buffer_seek_write_cur,
}
use ledger_app_ergo.Common.RwBuffer.Contents.{
  IsRwBuffer, contents, appended, appended-IsRwBuffer, contents-appended, rw_buffer_write_u8_lem,
}
use ledger_app_ergo.Common.RwBuffer.Numbers.{be_u64, WriteLaws, rw_buffer_write_u64}

-- The buffer over an array of `n` bytes whose first bytes are written and none read.
pub record Holds (b : RwBuffer) (xs : List ℕ) (n : ℕ) : Type 0 where
  pub is : IsRwBuffer b
  pub size : b.size ≡ n
  pub start : b.read.offset ≡ 0
  pub end : b.read.size ≡ length xs
  pub bytes : contents b ≡ xs

pub empty-Holds :
    (address : List ℕ) (n : ℕ)
    → length address ≡ n
    → n < u32_mod
    → Holds (rw_buffer_init address n 0) [] n
empty-Holds address n h lt = record {
  is = omega (arith, h, lt);
  size = refl;
  start = refl;
  end = refl;
  bytes = refl;
}

pub appended-Holds :
    (b : RwBuffer) (xs ys : List ℕ) (n : ℕ)
    → Holds b xs n
    → length xs + length ys ≤ n
    → Holds (appended b ys) (xs ++ ys) n
appended-Holds b xs ys n h le = record {
  is = appended-IsRwBuffer b ys h.is (omega (arith, h.size, h.end));
  size = h.size;
  start = h.start;
  end = omega (arith, h.end, length-append xs ys);
  bytes = contents-appended b ys h.is (omega (arith, h.size, h.end)) ∙ ap (λ t. t ++ ys) h.bytes;
}

module _ (b : RwBuffer) (xs : List ℕ) (n : ℕ) (h : Holds b xs n) where
  pub write_u8-Holds : (x : ℕ) → length xs < n → rw_buffer_write_u8 b x ≡ some (appended b (x ∷ []))
  write_u8-Holds x le = rw (rw_buffer_write_u8_lem b x h.is) (ground (arith, h.size, h.end))

  pub write_bytes-Holds :
      (ys : List ℕ) (k : ℕ)
      → length ys ≡ k
      → length xs + k ≤ n
      → rw_buffer_write_bytes b ys k ≡ some (appended b ys)
  unfolding rw_buffer_write_bytes rw_buffer_seek_write_cur
  write_bytes-Holds ys k e le =
      let all : take k ys ≡ ys = take_all k ys (omega (arith, e)) in
      rw all (ground (arith, e, h.size, h.end))

  -- A longer block is cut.
  pub write_part-Holds :
      (ys : List ℕ) (k : ℕ)
      → k ≤ length ys
      → length xs + k ≤ n
      → rw_buffer_write_bytes b ys k ≡ some (appended b (take k ys))
  unfolding rw_buffer_write_bytes rw_buffer_seek_write_cur
  write_part-Holds ys k short le =
      let size : length (take k ys) ≡ k = omega (arith, length-take k ys) in
      ground (arith, size, h.size, h.end)

  pub write_u64-Holds :
      (sdk : WriteSdk) (laws : WriteLaws sdk) (v : ℕ)
      → length xs + 8 ≤ n
      → rw_buffer_write_u64 sdk b v be ≡ some (appended b (be_u64 v))
  unfolding rw_buffer_write_u64 rw_buffer_seek_write_cur
  write_u64-Holds sdk laws v le =
      rw (laws.write_u64_be_lem b.read.ptr b.read.size v) (ground (arith, h.size, h.end))

  pub can_write-Holds : (k : ℕ) → length xs + k ≤ n → rw_buffer_can_write b k ≡ true
  can_write-Holds k le = ground (arith, h.size, h.end, h.is.fits, h.is.within)

  -- Of what is stored behind the data, the part that the write position is moved over is kept.
  pub seek-Holds :
      (ys : List ℕ) (k : ℕ)
      → length xs + length ys ≤ n
      → k ≤ length ys
      → (b' : RwBuffer) × (rw_buffer_seek_write_cur (with_ptr b (store b.read.ptr b.read.size ys)) k
          ≡ some b')
        × (contents b' ≡ xs ++ take k ys)
  unfolding rw_buffer_seek_write_cur
  seek-Holds ys k le kle =
      let all = appended-Holds b xs ys n h le in
      let ptr = store b.read.ptr b.read.size ys in
      let whole : take (length xs + length ys) ptr ≡ xs ++ ys =
        let e : rw_buffer_data_len (appended b ys) ≡ length xs + length ys =
          omega (arith, h.start, h.end, h.size, h.is) in
        rw (e, h.start) at all.bytes in
      let b' = set_write_position (with_ptr b ptr) (b.read.size + k) in
      let e' : rw_buffer_data_len b' ≡ length xs + k =
        omega (arith, h.start, h.end, h.size, h.is) in
      (
        b',
        ground (arith, h.size, h.end, h.is.fits),
        rw (e', h.start)
            (sym (take_twice (length xs + k) (length xs + length ys) ptr (omega arith))
              ∙ ap (take (length xs + k)) whole
              ∙ take-append k xs ys),
      )
