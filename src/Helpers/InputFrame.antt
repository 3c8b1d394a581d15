-- ===== src/Helpers/InputFrame.antt =====
-- src/helpers/input_frame.c: the layout of a signed input frame.
use ledger_app_ergo.Prelude.{
  ℕ, ◌+◌, ◌-◌, ◌*◌, ◌%◌, ◌≤◌, ◌≡◌, leb, arith, Option, none, some, List, get_or, drop, u8_mod, ◌==◌,
  not, if◌then◌else◌,
}
use ledger_app_ergo.Sdk.{Buffer, BufferSdk}
use ledger_app_ergo.Sdk.Laws.{BufferLaws, IsBuffer}
use ledger_app_ergo.Common.Buffer.{buffer_read_ptr}

abbrev pub input_frame_signature_len : ℕ
input_frame_signature_len = 16

abbrev pub frame_max_tokens_count : ℕ
frame_max_tokens_count = 4

abbrev pub frame_token_value_pair_size : ℕ
frame_token_value_pair_size = 40

abbrev pub frame_token_count_position : ℕ
frame_token_count_position = 42

abbrev pub frame_token_prefix_len : ℕ
frame_token_prefix_len = 43

abbrev pub frame_min_size : ℕ
frame_min_size = 59

module _ (sdk : BufferSdk) where
  -- `data_len` is of the type uint8_t.
  unfoldable pub input_frame_data_length : Buffer → ℕ
  input_frame_data_length input =
      let token_count = get_or (buffer_read_ptr input) frame_token_count_position 0 in
      let data_len =
        (token_count * frame_token_value_pair_size + frame_token_prefix_len) % u8_mod in
      if not (sdk.can_read input frame_min_size)
      then 0
      else (if not (sdk.can_read input (data_len + input_frame_signature_len)) then 0 else data_len)

  -- The memory behind the pointer, or `none` for NULL.
  unfoldable pub input_frame_signature_ptr : Buffer → Option (List ℕ)
  unfolding input_frame_data_length
  input_frame_signature_ptr input =
      let data_len = input_frame_data_length input in
      if data_len == 0 then none else some (drop data_len (buffer_read_ptr input))

  -- Over buffer functions that obey their laws, and on a well-formed buffer whose byte at the
  -- token count's place is at most 5: the result is 43 bytes and 40 for each token where the
  -- buffer holds them and a signature, and 0 otherwise.
  pub input_frame_data_length_lem :
      (laws : BufferLaws sdk) (b : Buffer)
      → IsBuffer b
      → get_or (buffer_read_ptr b) frame_token_count_position 0 ≤ 5
      → input_frame_data_length b ≡ (
          let len =
            frame_token_prefix_len
            + get_or (buffer_read_ptr b) frame_token_count_position 0
              * frame_token_value_pair_size in
          if leb (len + input_frame_signature_len) (b.size - b.offset) then len else 0)
  unfolding input_frame_data_length
  input_frame_data_length_lem laws b h small =
      let count = get_or (buffer_read_ptr b) frame_token_count_position 0 in
      let len = (count * frame_token_value_pair_size + frame_token_prefix_len) % u8_mod in
      ground (
        arith,
        laws.can_read_lem b frame_min_size h,
        laws.can_read_lem b (len + input_frame_signature_len) h,
      )
