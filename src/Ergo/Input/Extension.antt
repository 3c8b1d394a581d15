-- ===== src/Ergo/Input/Extension.antt =====
-- The context extension of an input, chunk by chunk.
use mathlib.Core.List.{append-nil}
use ledger_app_ergo.Prelude.{
  ℕ, ◌+◌, ◌-◌, ◌<◌, ◌≤◌, ◌≡◌, ◌==◌, List, [], ◌∷◌, ◌++◌, take, ltb, if◌then◌else◌, true, false,
  Bool-cases, inl, inr, arith, refl, ap, ◌∙◌,
}
use ledger_app_ergo.Sdk.{Buffer, BufferSdk, HashSdk}
use ledger_app_ergo.Sdk.Laws.{HashLaws}
use ledger_app_ergo.Helpers.Blake2b.{blake2b_update_lem}
use ledger_app_ergo.Common.Buffer.{buffer_data_len, buffer_read_ptr}
use ledger_app_ergo.Ergo.Memory.{Memory, update_hash}
use ledger_app_ergo.Ergo.Input.{
  InputState, InputContext, ok, more_data, err_too_much_proof_data, extension_started, finished,
  error, InputFrame, set_state, ergo_tx_serializer_input_add_context_extension,
}

-- The bytes that a chunk brings.
abbrev pub chunk_bytes : Buffer → List ℕ
chunk_bytes chunk = take (buffer_data_len chunk) (buffer_read_ptr chunk)

abbrev pub total_len : List Buffer → ℕ
total_len [] = 0
total_len (c ∷ cs) = buffer_data_len c + total_len cs

abbrev pub all_bytes : List Buffer → List ℕ
all_bytes [] = []
all_bytes (c ∷ cs) = chunk_bytes c ++ all_bytes cs

abbrev pub NoneEmpty : List Buffer → Type 0
NoneEmpty [] = Unit {0}
NoneEmpty (c ∷ cs) = (1 ≤ buffer_data_len c) × NoneEmpty cs

more_to_come : (size len : ℕ) → len < size → (ltb size len ≡ false) × ((size - len == 0) ≡ false)
more_to_come size len h = (ground arith, ground arith)

last_one :
    (size len : ℕ)
    → len ≡ size
    → (ltb size len ≡ false) × ((size - len == 0) ≡ true) × (size - len ≡ 0)
last_one size len h = (ground arith, ground arith, omega arith)

module _ {H E : Type 0} (bufs : BufferSdk) (hs : HashSdk H) (laws : HashLaws hs) where
  -- A frame with some of the extension left, and with more in its hash.
  abbrev pub fed : InputState → ℕ → List ℕ → InputFrame H E → InputFrame H E
  fed state left bytes s =
      let mem : Memory H E = record s.mem { hash = laws.absorb s.mem.hash bytes } in
      let ctx : InputContext E = record s.ctx {
        state = state;
        context_extension_data_size = left;
      } in
      record { ctx = ctx; mem = mem }

  -- With a hasher that obeys its laws, while the extension of an input is expected: a chunk that
  -- is longer than what is left is refused, hashes nothing and leaves the error state; any other
  -- joins the hash and is taken off what is left, and the input is finished with OK exactly when
  -- nothing is left.
  ergo_tx_serializer_input_add_context_extension_lem :
      (chunk : Buffer) (s : InputFrame H E)
      → s.ctx.state ≡ extension_started
      → let len = buffer_data_len chunk in
        let size = s.ctx.context_extension_data_size in
        ergo_tx_serializer_input_add_context_extension bufs hs chunk s ≡ (
          if ltb size len
          then (err_too_much_proof_data, set_state error s)
          else (if size - len == 0
              then (ok, fed finished (size - len) (chunk_bytes chunk) s)
              else (more_data, fed extension_started (size - len) (chunk_bytes chunk) s)))
  unfolding ergo_tx_serializer_input_add_context_extension update_hash
  ergo_tx_serializer_input_add_context_extension_lem chunk s stage =
      let len = buffer_data_len chunk in
      let size = s.ctx.context_extension_data_size in
      elim (Bool-cases (ltb size len)) [
        | inl long ↦ rw (stage, long)
        | inr short ↦ elim (Bool-cases (size - len == 0)) [
          | inl last ↦
              rw (stage, short)
                (rw (blake2b_update_lem hs laws s.mem.hash (chunk_bytes chunk)) (rw last))
          | inr more ↦
              rw (stage, short)
                (rw (blake2b_update_lem hs laws s.mem.hash (chunk_bytes chunk)) (rw more))
        ]
      ]

  -- The chunks in order.
  abbrev pub feed : List Buffer → InputFrame H E → InputFrame H E
  feed [] s = s
  feed (c ∷ cs) s = feed cs (ergo_tx_serializer_input_add_context_extension bufs hs c s).1

  -- With a hasher that obeys its laws, while the extension of an input is expected and some of it
  -- is left: chunks that are none of them empty and together as long as what is left, fed in
  -- order, end the input, and exactly their bytes join the hash, however they are cut.
  pub feed_lem :
      (cs : List Buffer) (s : InputFrame H E)
      → s.ctx.state ≡ extension_started
      → NoneEmpty cs
      → total_len cs ≡ s.ctx.context_extension_data_size
      → 1 ≤ s.ctx.context_extension_data_size
      → feed cs s ≡ fed finished 0 (all_bytes cs) s
  feed_lem [] s stage filled total some_left = absurd (omega arith)
  feed_lem (c ∷ []) s stage filled total some_left =
      let (fits, ends, none_left) =
        last_one s.ctx.context_extension_data_size (buffer_data_len c) (omega arith) in
      let step : ergo_tx_serializer_input_add_context_extension bufs hs c s
          ≡ (ok, fed finished 0 (chunk_bytes c) s) =
        ergo_tx_serializer_input_add_context_extension_lem c s stage ∙ rw (fits, ends, none_left) in
      ap (λ r. r.1) step ∙ rw (append-nil (chunk_bytes c))
  feed_lem (c ∷ d ∷ ds) s stage (filled, others) total some_left =
      let len = buffer_data_len c in
      let size = s.ctx.context_extension_data_size in
      let (fits, goes_on) = more_to_come size len (omega arith) in
      let s' = fed extension_started (size - len) (chunk_bytes c) s in
      let step : ergo_tx_serializer_input_add_context_extension bufs hs c s ≡ (more_data, s') =
        ergo_tx_serializer_input_add_context_extension_lem c s stage ∙ rw (fits, goes_on) in
      ap (λ r. feed (d ∷ ds) r.1) step
      ∙ feed_lem (d ∷ ds) s' refl others (omega arith) (omega arith)
      ∙ rw (laws.absorb-append s.mem.hash (chunk_bytes c) (all_bytes (d ∷ ds)))
