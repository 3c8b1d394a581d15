-- ===== src/AttestInput/Handler/Tokens/Gather.antt =====
-- All the tokens of a box, as the callback is called with them one after the other.
use ledger_app_ergo.Prelude.{
  ℕ, zero, suc, ◌+◌, ◌<◌, ◌≡◌, ◌⊎◌, inl, inr, if◌then◌else◌, List, [], ◌∷◌, ◌++◌, length, ap, arith,
  refl, ◌∙◌,
}
use ledger_app_ergo.Ergo.TokenTable.{token_max_count, ergo_id_len}
use ledger_app_ergo.Ergo.TokenTable.Find.{id_at}
use ledger_app_ergo.Ergo.Memory.{Shared}
use ledger_app_ergo.Ergo.Box.{
  BoxType, BoxResult, ok, err_too_many_tokens, err_bad_token_id, is_fine,
}
use ledger_app_ergo.AttestInput.Context.{AmountsOrUi}
use ledger_app_ergo.AttestInput.Handler.{box_token_cb}
use ledger_app_ergo.AttestInput.Handler.Tokens.{
  amount_at, IsListing, Adds, Takes, full, twice, added, box_token_cb-Takes,
}
use ledger_app_ergo.App.{Device}

-- The id and the amount of a token.
abbrev pub Token : Type 0
Token = List ℕ × ℕ

module _ {H : Type 0} (d : Device H) where
  -- The tokens at so many places, from place `i` on.
  unfoldable pub recorded : (rounds i : ℕ) → Shared AmountsOrUi → List Token
  recorded zero i s = []
  recorded (suc rounds) i s = (id_at s.tokens_table i, amount_at d s i) ∷ recorded rounds (i + 1) s

  -- The tokens that a context has gathered.
  abbrev pub gathered : Shared AmountsOrUi → List Token
  gathered s = recorded s.tokens_table.count 0 s

  -- The callback for each token in turn, up to the first one that it refuses.
  unfoldable pub call_each :
      BoxType → List Token → Shared AmountsOrUi → BoxResult × Shared AmountsOrUi
  unfolding box_token_cb
  call_each type [] s = (ok, s)
  call_each type ((id, value) ∷ tokens) s =
      let (res, s') = box_token_cb d type id value s in
      let rest = call_each type tokens s' in if is_fine res then rest else (res, s')

-- Ids of 32 bytes.
abbrev pub AreIds : List Token → Type 0
AreIds [] = Unit {0}
AreIds (token ∷ tokens) = (length token.0 ≡ ergo_id_len) × AreIds tokens

append_one : {A : Type 0} (xs ys : List A) (x : A) → (xs ++ x ∷ []) ++ ys ≡ xs ++ x ∷ ys
append_one [] ys x = refl
append_one (y ∷ xs) ys x = ap (λ t. y ∷ t) (append_one xs ys x)

module _ {H : Type 0} (d : Device H) where
  recorded-same :
      (k i : ℕ) (s s' : Shared AmountsOrUi)
      → ((j : ℕ) → j < i + k → id_at s'.tokens_table j ≡ id_at s.tokens_table j)
      → ((j : ℕ) → j < i + k → amount_at d s' j ≡ amount_at d s j)
      → recorded d k i s' ≡ recorded d k i s
  unfolding recorded
  recorded-same zero i s s' ids amounts = refl
  recorded-same (suc k) i s s' ids amounts =
      let later =
        recorded-same k (i + 1) s s' (λ j lt. ids j (omega arith))
          (λ j lt. amounts j (omega arith)) in
      rw (ids i (omega arith), amounts i (omega arith), later)

  recorded_last :
      (k i : ℕ) (s : Shared AmountsOrUi)
      → recorded d (suc k) i s
        ≡ recorded d k i s ++ (id_at s.tokens_table (i + k), amount_at d s (i + k)) ∷ []
  unfolding recorded
  recorded_last zero i s = let e : i + 0 ≡ i = omega arith in rw e
  recorded_last (suc k) i s =
      let e : i + suc k ≡ i + 1 + k = omega arith in
      rw e (ap (λ t. (id_at s.tokens_table i, amount_at d s i) ∷ t) (recorded_last k (i + 1) s))

  gathered-Adds :
      (id : List ℕ) (value : ℕ) (s s' : Shared AmountsOrUi)
      → Adds d id value s s'
      → gathered d s' ≡ gathered d s ++ (id, value) ∷ []
  gathered-Adds id value s s' a =
      let n = s.tokens_table.count in
      let e : s'.tokens_table.count ≡ suc n = omega (arith, a.count) in
      let start : 0 + n ≡ n = omega arith in
      let same =
        recorded-same n 0 s s' (λ j lt. a.same_id j (omega arith))
          (λ j lt. a.same_amount j (omega arith)) in
      ap (λ k. recorded d k 0 s') e
      ∙ recorded_last n 0 s'
      ∙ rw (start, a.id_added, a.amount_added, same)

  -- The table is full, or holds the id already.
  abbrev pub Refused : Token → Shared AmountsOrUi → BoxResult → Type 0
  Refused token s res =
      ((res ≡ err_too_many_tokens) × (s.tokens_table.count ≡ token_max_count))
      ⊎ ((res ≡ err_bad_token_id)
          × ((i : ℕ) × (i < s.tokens_table.count) × (id_at s.tokens_table i ≡ token.0)))

  -- All tokens come behind those gathered before, in their order; or those before the first one that
  -- is refused do.
  pub data Gathers (tokens : List Token) (s : Shared AmountsOrUi)
      : BoxResult × Shared AmountsOrUi → Type 0 where
    all :
        (s' : Shared AmountsOrUi)
        → gathered d s' ≡ gathered d s ++ tokens
        → IsListing d s'
        → Gathers tokens s (ok, s')
    stopped :
        (res : BoxResult) (taken rest : List Token) (token : Token) (s' : Shared AmountsOrUi)
        → tokens ≡ taken ++ token ∷ rest
        → gathered d s' ≡ gathered d s ++ taken
        → IsListing d s'
        → Refused token s' res
        → Gathers tokens s (res, s')

  behind :
      (token : Token) (tokens : List Token) (s s1 : Shared AmountsOrUi)
      (r : BoxResult × Shared AmountsOrUi)
      → gathered d s1 ≡ gathered d s ++ token ∷ []
      → Gathers tokens s1 r
      → Gathers (token ∷ tokens) s r
  behind token tokens s s1 r e (all s' more is) =
      all s' (more ∙ ap (λ t. t ++ tokens) e ∙ append_one (gathered d s) tokens token) is
  behind token tokens s s1 r e (stopped res taken rest refused s' split more is why) =
      stopped res (token ∷ taken) rest refused s' (ap (λ t. token ∷ t) split)
        (more ∙ ap (λ t. t ++ taken) e ∙ append_one (gathered d s) taken token) is why

  nothing_more : (xs : List Token) → xs ≡ xs ++ []
  nothing_more [] = refl
  nothing_more (x ∷ xs) = ap (λ t. x ∷ t) (nothing_more xs)

  goes_on :
      (type : BoxType) (id : List ℕ) (value : ℕ) (tokens : List Token) (s : Shared AmountsOrUi)
      (r : BoxResult × Shared AmountsOrUi)
      → IsListing d s
      → ((s1 : Shared AmountsOrUi)
          → IsListing d s1
          → Gathers tokens s1 (call_each d type tokens s1))
      → Takes d id value s r
      → Gathers ((id, value) ∷ tokens) s (if is_fine r.0 then call_each d type tokens r.1 else r)
  goes_on type id value tokens s r is later (full e) =
      stopped err_too_many_tokens [] tokens (id, value) s refl (nothing_more (gathered d s)) is
        (inl (refl, e))
  goes_on type id value tokens s r is later (twice i lt e) =
      stopped err_bad_token_id [] tokens (id, value) s refl (nothing_more (gathered d s)) is
        (inr (refl, (i, lt, e)))
  goes_on type id value tokens s r is later (added s1 a is1) =
      behind (id, value) tokens s s1 (call_each d type tokens s1) (gathered-Adds id value s s1 a)
        (later s1 is1)

  -- For tokens with ids of 32 bytes, and a table within its array, of different ids of 32 bytes
  -- and with an amount for each place: the callback, called for each token in turn up to the first
  -- one that it refuses, leaves such a table. Either all results are OK, and the tokens stand with
  -- their amounts and in their order behind those that were there, or those before the refused one
  -- do, and that one finds the table full and gets the result for too many tokens, or finds its id
  -- in the table and gets the one for a bad id.
  pub call_each-Gathers :
      (type : BoxType) (tokens : List Token) (s : Shared AmountsOrUi)
      → AreIds tokens
      → IsListing d s
      → Gathers tokens s (call_each d type tokens s)
  unfolding call_each
  call_each-Gathers type [] s sizes is = all s (nothing_more (gathered d s)) is
  call_each-Gathers type ((id, value) ∷ tokens) s (size, sizes) is =
      goes_on type id value tokens s (box_token_cb d type id value s) is
        (λ s1 is1. call_each-Gathers type tokens s1 sizes is1)
        (box_token_cb-Takes d id value s is size type)
