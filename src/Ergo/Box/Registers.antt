-- ===== src/Ergo/Box/Registers.antt =====
-- src/ergo/tx_ser_box.c: the registers of a box, and the box id.
use ledger_app_ergo.Prelude.{
  ℕ, ◌≡◌, false, arith, ◌-◌, Bool, Option, none, some, List, take, ltb, ◌==◌, not, if◌then◌else◌,
  is_some,
}
use ledger_app_ergo.Prelude.Flow.{
  stop, go, Body, Function, ◌>>=◌, ◌>>◌, ret, pure, read, modify, when, call, function,
}
use ledger_app_ergo.Sdk.{Buffer, BufferSdk, HashSdk}
use ledger_app_ergo.Common.Buffer.{buffer_data_len, buffer_read_ptr}
use ledger_app_ergo.Common.RwBuffer.{rw_buffer_new_local_empty}
use ledger_app_ergo.Common.Gve.{gve_put_u16, gve_put_u64}
use ledger_app_ergo.Helpers.Blake2b.{blake2b_256_init, blake2b_256_finalize}
use ledger_app_ergo.Ergo.Memory.{update_hash}
use ledger_app_ergo.Ergo.Box.{
  BoxResult, ok, more_data, err_too_much_data, err_hasher, err_buffer, err_bad_state,
  hash_finalized, error, is_fine, BoxFrame, is_tokens_added, is_finished_state, set_state,
  res_error,
}
use ledger_app_ergo.Ergo.Box.Trees.{hash_bytes, hash_put, box_finished}

module _ {H E : Type 0} (hs : HashSdk H) where
  unfoldable pub ergo_tx_serializer_box_add_registers :
      BufferSdk → Buffer → Function BoxResult (BoxFrame H E)
  unfolding update_hash box_finished
  ergo_tx_serializer_box_add_registers bufs registers_chunk =
      let len = buffer_data_len registers_chunk in
      function do
        s ← read
        when (not (is_tokens_added s.ctx.state)) (res_error err_bad_state)
        when (ltb s.ctx.registers_size len) (res_error err_too_much_data)
        hash_bytes hs (take len (buffer_read_ptr registers_chunk))
        when (not (is_some (bufs.seek_cur registers_chunk len))) (res_error err_buffer)
        let left = s.ctx.registers_size - len
        modify (λ s'. record s' { ctx = record s'.ctx { registers_size = left } })
        if left == 0 then (do res ← call (box_finished hs); ret res) else ret more_data

  hash_place : (tx_id : List ℕ) (box_index : ℕ) → Body BoxResult (BoxFrame H E) (Unit {0})
  unfolding update_hash gve_put_u64
  hash_place tx_id box_index = do
    s ← read
    when (not (is_finished_state s.ctx.state)) (res_error err_bad_state)
    hash_bytes hs tx_id
    hash_put hs (gve_put_u16 (rw_buffer_new_local_empty 4) box_index)
    pure tt

  finalize_box : Function (BoxResult × Option (List ℕ)) (BoxFrame H E)
  unfolding blake2b_256_finalize
  finalize_box s =
      let (finalized, digest, hash) = blake2b_256_finalize hs s.mem.hash in
      let s' = record s { mem = record s.mem { hash = hash } } in
      if finalized
      then ((ok, some digest), set_state hash_finalized s')
      else ((err_hasher, none), set_state error s')

  -- The result, and for OK the digest that is written to `box_id`.
  unfoldable pub ergo_tx_serializer_box_id_hash :
      (tx_id : List ℕ) (box_index : ℕ) → Function (BoxResult × Option (List ℕ)) (BoxFrame H E)
  unfolding hash_place finalize_box
  ergo_tx_serializer_box_id_hash tx_id box_index s = elim (hash_place tx_id box_index s) [
    | stop res s' ↦ ((res, none), s')
    | go _ s' ↦ finalize_box s'
  ]

module _ {H E : Type 0} (hs : HashSdk H) where
  -- A result without an error is OK, comes with a digest, and leaves the finalized state and what the
  -- callbacks reach.
  abbrev pub IsHashed : BoxFrame H E → (BoxResult × Option (List ℕ)) × BoxFrame H E → Type 0
  IsHashed s ((res, none), s') = is_fine res ≡ false
  IsHashed s ((res, some digest), s') =
      (res ≡ ok) × (s'.ctx.state ≡ hash_finalized) × (s'.mem.shared ≡ s.mem.shared)

  pub ergo_tx_serializer_box_id_hash-IsHashed :
      (tx_id : List ℕ) (box_index : ℕ) (s : BoxFrame H E)
      → IsHashed s (ergo_tx_serializer_box_id_hash hs tx_id box_index s)
  unfolding ergo_tx_serializer_box_id_hash hash_place finalize_box
  ergo_tx_serializer_box_id_hash-IsHashed tx_id box_index s = ground arith

module _ {H : Type 0} (hs : HashSdk H) where
  unfoldable pub ergo_tx_serializer_box_id_hash_init : H → Bool × H
  unfolding blake2b_256_init
  ergo_tx_serializer_box_id_hash_init hash = blake2b_256_init hs hash
