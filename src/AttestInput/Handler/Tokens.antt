-- ===== src/AttestInput/Handler/Tokens.antt =====
-- The table of tokens that an attestation gathers by its callback.
pub mod Gather
use mathlib.Core.Path.{subst}
use ledger_app_ergo.Prelude.{
  ℕ, zero, suc, ◌+◌, ◌%◌, ◌≤◌, ◌<◌, ◌≡◌, ◌≢◌, ◌⊎◌, inl, inr, true, false, Bool-cases, List, [],
  length, get_or, set, eq_bytes, ap, leb, arith, refl, sym, length-set, get_or-set_self,
  get_or-set_ne, eq_bytes_refl, eq_bytes→eq, u8_mod,
}
use native.Mathlib.Decide.{dec_lt}
use ledger_app_ergo.Ergo.TokenTable.{TokenTable, token_max_count, ergo_id_len}
use ledger_app_ergo.Ergo.TokenTable.Find.{IsTable, id_at, NotBefore}
use ledger_app_ergo.Ergo.Memory.{Shared}
use ledger_app_ergo.Ergo.Box.{BoxType, BoxResult, ok, err_too_many_tokens, err_bad_token_id}
use ledger_app_ergo.AttestInput.Context.{AmountsOrUi, token_amounts}
use ledger_app_ergo.AttestInput.Response.{amounts_view}
use ledger_app_ergo.AttestInput.Response.Frame.{HasIds}
use ledger_app_ergo.AttestInput.Handler.{is_listed, box_token_cb}
use ledger_app_ergo.App.{Device}

-- The loop is right about the places that it looks at.
is_listed-Listed :
    (n i to : ℕ) (t : TokenTable) (id : List ℕ)
    → i + n ≡ to
    → ((is_listed n i t id ≡ true) × ((j : ℕ) × (i ≤ j) × (j < to) × (id_at t j ≡ id)))
      ⊎ ((is_listed n i t id ≡ false) × NotBefore t id i to)
unfolding is_listed
is_listed-Listed zero i to t id e = inr (refl, λ j lo hi. absurd (omega arith))
is_listed-Listed (suc n) i to t id e = elim (Bool-cases (eq_bytes id (id_at t i))) [
  | inl same ↦ rw same (inl (refl, (i, omega arith, omega arith, sym (eq_bytes→eq _ _ same))))
  | inr other ↦ rw other (elim (is_listed-Listed n (i + 1) to t id (omega arith)) [
    | inl (found, (j, lo, hi, same)) ↦ inl (found, (j, omega arith, hi, same))
    | inr (none_found, later) ↦ inr (
      none_found,
      λ j lo hi same. elim (dec_lt i j) [
        | yes above ↦ later j (omega arith) hi same
        | no rest ↦
            let e : j ≡ i = omega arith in
            let here : id_at t i ≡ id = subst (λ k. id_at t k ≡ id) e same in
            cc (here, eq_bytes_refl id)
      ],
    )
  ])
]

module _ {H : Type 0} (d : Device H) where
  abbrev pub amount_at : Shared AmountsOrUi → ℕ → ℕ
  amount_at s i = get_or (amounts_view d s.env) i 0

  -- A table within its array, of ids of 32 bytes that are all different, with a place for the amount
  -- of each.
  pub record IsListing (s : Shared AmountsOrUi) : Type 0 where
    pub table : IsTable s.tokens_table
    pub ids : HasIds s.tokens_table
    pub amounts : length (amounts_view d s.env) ≡ token_max_count
    pub distinct :
        (i j : ℕ)
        → i < j
        → j < s.tokens_table.count
        → id_at s.tokens_table i ≢ id_at s.tokens_table j

  -- A token with the id and the amount comes behind those that are there.
  pub record Adds (id : List ℕ) (value : ℕ) (s s' : Shared AmountsOrUi) : Type 0 where
    pub room : s.tokens_table.count < token_max_count
    pub fresh : NotBefore s.tokens_table id 0 s.tokens_table.count
    pub count : s'.tokens_table.count ≡ s.tokens_table.count + 1
    pub id_added : id_at s'.tokens_table s.tokens_table.count ≡ id
    pub amount_added : amount_at s' s.tokens_table.count ≡ value
    pub same_id :
        (i : ℕ) → i < s.tokens_table.count → id_at s'.tokens_table i ≡ id_at s.tokens_table i
    pub same_amount : (i : ℕ) → i < s.tokens_table.count → amount_at s' i ≡ amount_at s i

  -- The table is full, the id is there already, or the token is added.
  pub data Takes (id : List ℕ) (value : ℕ) (s : Shared AmountsOrUi)
      : BoxResult × Shared AmountsOrUi → Type 0 where
    full : s.tokens_table.count ≡ token_max_count → Takes id value s (err_too_many_tokens, s)
    twice :
        (i : ℕ)
        → i < s.tokens_table.count
        → id_at s.tokens_table i ≡ id
        → Takes id value s (err_bad_token_id, s)
    added :
        (s' : Shared AmountsOrUi) → Adds id value s s' → IsListing s' → Takes id value s (ok, s')

  module _ (id : List ℕ) (value : ℕ) (s : Shared AmountsOrUi) (is : IsListing s)
      (size : length id ≡ ergo_id_len) where
    abbrev n : ℕ
    n = s.tokens_table.count

    abbrev s1 : Shared AmountsOrUi
    s1 = record {
      tokens_table = record { count = n + 1; tokens = set s.tokens_table.tokens n id };
      env = token_amounts (set (amounts_view d s.env) n value);
    }

    added-Adds : n < token_max_count → NotBefore s.tokens_table id 0 n → Adds id value s s1
    added-Adds room fresh = record {
      room = room;
      fresh = fresh;
      count = refl;
      id_added = get_or-set_self s.tokens_table.tokens n id [] (omega (arith, is.table.memory));
      amount_added = get_or-set_self (amounts_view d s.env) n value 0 (omega (arith, is.amounts));
      same_id = λ i lt. get_or-set_ne s.tokens_table.tokens n i id [] (omega arith);
      same_amount = λ i lt. get_or-set_ne (amounts_view d s.env) n i value 0 (omega arith);
    }

    added-IsListing : Adds id value s s1 → IsListing s1
    added-IsListing a =
        let last : (i : ℕ) → ¬ (i < n) → i < n + 1 → i ≡ n = λ i h lt. omega arith in
        record {
          table = record {
            counted = omega (arith, a.room);
            memory = omega (arith, is.table.memory, length-set s.tokens_table.tokens n id);
          };
          ids = λ i lt. elim (dec_lt i n) [
            | yes before ↦ rw (a.same_id i before) (is.ids i before)
            | no h ↦ rw (last i h lt, a.id_added) size
          ];
          amounts = omega (arith, is.amounts, length-set (amounts_view d s.env) n value);
          distinct = λ i j lt within. elim (dec_lt j n) [
            | yes before ↦
                rw (a.same_id i (omega arith), a.same_id j before) (is.distinct i j lt before)
            | no h ↦
                rw (last j h within, a.same_id i (omega arith), a.id_added)
                  (a.fresh i (omega arith) (omega arith))
          ];
        }

    pub box_token_cb-Takes : (type : BoxType) → Takes id value s (box_token_cb d type id value s)
    unfolding box_token_cb
    box_token_cb-Takes type = elim (dec_lt n token_max_count) [
      | no rest ↦
          let e : leb token_max_count n ≡ true = ground arith in
          rw e (full (omega (arith, is.table.counted)))
      | yes room ↦
          let e : leb token_max_count n ≡ false = ground arith in
          let small : (n + 1) % u8_mod ≡ n + 1 = omega (arith, room) in
          elim (is_listed-Listed n 0 n s.tokens_table id (omega arith)) [
            | inl (found, (j, lo, hi, same)) ↦ rw e (rw found (twice j hi same))
            | inr (none_found, fresh) ↦
                let a = added-Adds room fresh in
                rw e (rw none_found (rw small (added s1 a (added-IsListing a))))
          ]
    ]
