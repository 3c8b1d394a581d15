-- ===== src/Ergo/Input.antt =====
-- src/ergo/tx_ser_input.h and tx_ser_input.c: the serializer of one input box.
pub mod Extension
use ledger_app_ergo.Prelude.{
  ℕ, zero, suc, ◌-◌, Bool, true, false, Option, none, some, List, [], ◌∷◌, take, replicate, leb,
  ltb, ◌==◌, not, ◌||◌, if◌then◌else◌, eq_bytes, u8_mod, wrap_suc,
}
use ledger_app_ergo.Prelude.Flow.{
  stop, go, Body, Function, ◌>>=◌, ◌>>◌, ret, pure, read, modify, when, function,
}
use ledger_app_ergo.Sdk.{Buffer, BufferSdk, HashSdk}
use ledger_app_ergo.Common.Buffer.{buffer_data_len, buffer_read_ptr, buffer_read_bytes}
use ledger_app_ergo.Ergo.TokenTable.{ergo_id_len}
use ledger_app_ergo.Ergo.Memory.{Memory, Shared, update_hash}

pub data InputResult : Type 0 where
  ok more_data err_bad_context_extension_size err_bad_input_id err_bad_frame_index
        err_bad_token_id :
      InputResult
  err_bad_token_value err_too_many_input_frames err_too_much_proof_data err_hasher err_buffer :
      InputResult
  err_bad_state err_u64_overflow err_too_many_tokens : InputResult

pub data InputState : Type 0 where
  frames_started extension_started finished error : InputState

-- `ergo_tx_serializer_input_token_cb`, on what its `void*` context points to.
abbrev pub InputTokenCb : Type 0 → Type 0
InputTokenCb E = List ℕ → List ℕ → ℕ → Function InputResult (Shared E)

-- The pointers `tokens_table` and `hash` are the memory's objects.
pub record InputContext (E : Type 0) : Type 0 where
  pub state : InputState
  pub box_id : List ℕ
  pub frames_count : ℕ
  pub frames_processed : ℕ
  pub context_extension_data_size : ℕ
  pub on_token_cb : Option (InputTokenCb E)

abbrev pub max_tx_data_part_len : ℕ
max_tx_data_part_len = 32768

-- A context of zero bytes, as `memset` leaves it.
abbrev pub zero_input_context : {E : Type 0} → InputContext E
zero_input_context = record {
  state = frames_started;
  box_id = replicate ergo_id_len 0;
  frames_count = 0;
  frames_processed = 0;
  context_extension_data_size = 0;
  on_token_cb = none;
}

-- What a call works on: its context and the objects that are pointed to.
pub record InputFrame (H E : Type 0) : Type 0 where
  pub ctx : InputContext E
  pub mem : Memory H E

abbrev pub is_started : InputState → Bool
is_started frames_started = true
is_started _ = false

abbrev pub is_in_extension : InputState → Bool
is_in_extension extension_started = true
is_in_extension _ = false

abbrev pub is_finished_state : InputState → Bool
is_finished_state finished = true
is_finished_state _ = false

abbrev pub is_ok : InputResult → Bool
is_ok ok = true
is_ok _ = false

module _ {E : Type 0} where
  unfoldable pub ergo_tx_serializer_input_is_finished : InputContext E → Bool
  ergo_tx_serializer_input_is_finished context = is_finished_state context.state

  unfoldable pub ergo_tx_serializer_input_set_callback :
      Option (InputTokenCb E) → InputContext E → InputContext E
  ergo_tx_serializer_input_set_callback callback context = record context { on_token_cb = callback }

module _ {H E : Type 0} where
  abbrev pub set_state : InputState → InputFrame H E → InputFrame H E
  set_state state s = record s { ctx = record s.ctx { state = state } }

  -- `return res_error(context, err);`
  abbrev pub res_error : {A : Type 0} → InputResult → Body InputResult (InputFrame H E) A
  res_error err s = stop err (set_state error s)

  -- A call of the token callback.
  abbrev pub on_shared : {R : Type 0} → Function R (Shared E) → Function R (InputFrame H E)
  on_shared f s =
      let (r, shared) = f s.mem.shared in (r, record s { mem = record s.mem { shared = shared } })

  unfoldable pub ergo_tx_serializer_input_init :
      (box_id : List ℕ)
      → (token_frames_count context_extension_data_size : ℕ) → Function InputResult (InputFrame H E)
  ergo_tx_serializer_input_init box_id frames size =
      let started : InputContext E = record {
        state = frames_started;
        box_id = box_id;
        frames_count = frames;
        frames_processed = 0;
        context_extension_data_size = size;
        on_token_cb = none;
      } in
      function do
        modify (λ s. record s { ctx = zero_input_context })
        when (size == 1 || ltb max_tx_data_part_len size) (res_error err_bad_context_extension_size)
        modify (λ s. record s { ctx = started })
        ret ok

module _ {H E : Type 0} (bufs : BufferSdk) (hs : HashSdk H) where
  -- `blake2b_update(context->hash, …)`, or an error.
  abbrev hash_bytes : List ℕ → Body InputResult (InputFrame H E) (Unit {0})
  hash_bytes bytes s =
      let (hashed, mem) = update_hash hs bytes s.mem in
      let s' = record s { mem = mem } in if hashed then go tt s' else res_error err_hasher s'

  abbrev token_callback : List ℕ → ℕ → Body InputResult (InputFrame H E) (Unit {0})
  token_callback token_id value s = elim s.ctx.on_token_cb [
    | none ↦ go tt s
    | some cb ↦
        (let (res, s') = on_shared (cb s.ctx.box_id token_id value) s in
          if is_ok res then go tt s' else res_error res s')
  ]

  abbrev read_or : {A : Type 0} → Option A → InputResult → Body InputResult (InputFrame H E) A
  read_or none err = res_error err
  read_or (some a) err = pure a

  -- The loop of `ergo_tx_serializer_input_add_tokens`. Each round reads an id and a value, so as many
  -- rounds as there are bytes are enough.
  unfoldable pub add_each_token :
      (rounds : ℕ) → Buffer → Body InputResult (InputFrame H E) (Unit {0})
  add_each_token zero tokens = pure tt
  add_each_token (suc rounds) tokens = elim (buffer_data_len tokens == 0) [
    | true ↦ pure tt
    | false ↦ do
      (token_id, tokens') ← read_or (buffer_read_bytes bufs tokens ergo_id_len) err_bad_token_id
      (token_value, tokens'') ← read_or (bufs.read_u64 tokens') err_bad_token_value
      token_callback token_id token_value
      add_each_token rounds tokens''
  ]

  -- What follows the last frame: the id, an empty proof and, if there is no extension, an empty one.
  unfoldable pub frames_finished : List ℕ → Body InputResult (InputFrame H E) InputResult
  frames_finished box_id = do
    hash_bytes box_id
    hash_bytes (0 ∷ [])
    s ← read
    if s.ctx.context_extension_data_size == 0
        then (do hash_bytes (0 ∷ []); modify (set_state finished); ret ok)
        else (do modify (set_state extension_started); ret ok)

  unfoldable pub ergo_tx_serializer_input_add_tokens :
      (box_id : List ℕ) (token_frame_index : ℕ) → Buffer → Function InputResult (InputFrame H E)
  unfolding add_each_token frames_finished
  ergo_tx_serializer_input_add_tokens box_id frame_index tokens = function do
    c ← read
    when (not (is_started c.ctx.state)) (res_error err_bad_state)
    when (not (eq_bytes c.ctx.box_id box_id)) (res_error err_bad_input_id)
    when (leb c.ctx.frames_count frame_index) (res_error err_too_many_input_frames)
    when (not (frame_index == c.ctx.frames_processed)) (res_error err_bad_frame_index)
    add_each_token (buffer_data_len tokens) tokens
    modify (λ s. record s {
      ctx = record s.ctx { frames_processed = wrap_suc u8_mod s.ctx.frames_processed };
    })
    d ← read
    if d.ctx.frames_processed == d.ctx.frames_count then frames_finished box_id else ret more_data

  unfoldable pub ergo_tx_serializer_input_add_context_extension :
      Buffer → Function InputResult (InputFrame H E)
  ergo_tx_serializer_input_add_context_extension chunk =
      let len = buffer_data_len chunk in
      function do
        c ← read
        when (not (is_in_extension c.ctx.state)) (res_error err_bad_state)
        when (ltb c.ctx.context_extension_data_size len) (res_error err_too_much_proof_data)
        hash_bytes (take len (buffer_read_ptr chunk))
        let left = c.ctx.context_extension_data_size - len
        modify (λ s. record s { ctx = record s.ctx { context_extension_data_size = left } })
        if left == 0 then (do modify (set_state finished); ret ok) else ret more_data
