-- ===== src/Common/Bip32/Account.antt =====
-- What the comparisons of paths look at: `memcmp` is given a count of parts, and counts bytes.
use ledger_app_ergo.Prelude.{
  ℕ, zero, suc, ◌≤◌, ◌≡◌, true, List, [], ◌∷◌, ◌++◌, length, take, arith, refl, eq_bytes_refl, sym,
  ap, ◌∙◌, length-append,
}
use mathlib.Core.List.{append_assoc}
use ledger_app_ergo.Common.Bip32.{memory_of, bip32_path_is_equal, bip32_path_same_account}

take-append_left {ℓ} :
    {A : Type ℓ} (n : ℕ) (xs ys : List A) → n ≤ length xs → take n (xs ++ ys) ≡ take n xs
take-append_left zero xs ys h = refl
take-append_left (suc n) [] ys h = absurd (omega arith)
take-append_left (suc n) (x ∷ xs) ys h = rw (take-append_left n xs ys (omega arith))

module _ (word_bytes : ℕ → List ℕ) (four : (x : ℕ) → length (word_bytes x) ≡ 4) where
  -- Where a part takes four bytes of memory, two paths of three parts or more that begin with the
  -- same part pass for the same account, whatever their other parts are.
  pub same_account_ignores_account :
      (x : ℕ) (p1 p2 : List ℕ) (len1 len2 : ℕ)
      → 3 ≤ len1
      → 3 ≤ len2
      → bip32_path_same_account word_bytes (x ∷ p1) len1 (x ∷ p2) len2 ≡ true
  unfolding bip32_path_same_account memory_of
  same_account_ignores_account x p1 p2 len1 len2 h1 h2 =
      let left =
        take-append_left 3 (word_bytes x) (memory_of word_bytes p1) (omega (arith, four x)) in
      let right =
        take-append_left 3 (word_bytes x) (memory_of word_bytes p2) (omega (arith, four x)) in
      rw (left, right) (ground (arith, eq_bytes_refl (take 3 (word_bytes x))))

  -- Paths of eight parts or less are compared by their first two parts.
  pub equal_ignores_account :
      (x y : ℕ) (p1 p2 : List ℕ) (len : ℕ)
      → len ≤ 8
      → bip32_path_is_equal word_bytes (x ∷ y ∷ p1) len (x ∷ y ∷ p2) len ≡ true
  unfolding bip32_path_is_equal memory_of
  equal_ignores_account x y p1 p2 len h =
      let two = word_bytes x ++ word_bytes y in
      let size : len ≤ length two =
        omega (arith, four x, four y, length-append (word_bytes x) (word_bytes y)) in
      let front = λ (p : List ℕ).
        ap (take len) (sym (append_assoc (word_bytes x) (word_bytes y) (memory_of word_bytes p)))
        ∙ take-append_left len two (memory_of word_bytes p) size in
      rw (front p1, front p2) (ground (arith, eq_bytes_refl (take len two)))
