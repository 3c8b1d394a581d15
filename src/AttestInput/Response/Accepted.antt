-- ===== src/AttestInput/Response/Accepted.antt =====
-- A frame that the device has sent is one that its signing command accepts.
use ledger_app_ergo.Prelude.{
  ℕ, take_twice, false, ◌+◌, ◌*◌, ◌≤◌, ◌<◌, ◌≡◌, true, some, List, [], ◌∷◌, ◌++◌, length, take,
  get_or, arith, sym, ◌∙◌, ap, length-take, length-append, u32_mod, take-append, drop-append,
  get_or-append, eq_bytes, eq_bytes_refl, ◌==◌,
}
use mathlib.Core.List.{append_assoc, append-nil}
use ledger_app_ergo.Sdk.{Buffer, BufferSdk}
use ledger_app_ergo.Sdk.Laws.{BufferLaws, IsBuffer}
use ledger_app_ergo.Common.Buffer.{buffer_init}
use ledger_app_ergo.Common.RwBuffer.Numbers.{be_u64, WriteLaws}
use ledger_app_ergo.Helpers.InputFrame.{
  frame_max_tokens_count, input_frame_data_length, input_frame_signature_ptr,
  input_frame_data_length_lem,
}
use ledger_app_ergo.SignTx.Handler.{is_frame_signed}
use ledger_app_ergo.AttestInput.Context.{AttestInput}
use ledger_app_ergo.AttestInput.Response.{
  get_frames_count, frame_tokens_count, cx_sha256_size, amounts_view,
  send_response_attested_input_frame,
}
use ledger_app_ergo.AttestInput.Response.Chunks.{IsFrameCount, described, described_lem}
use ledger_app_ergo.AttestInput.Response.Frame.{
  IsAttested, frame_start, frame_data, frame, frame_bounds, token_pairs, length-token_pairs,
  send_frame_lem,
}
use ledger_app_ergo.App.{App, Device, res_ok_data}

-- Bytes of which the signed part is as long as its count of tokens says.
signed_length :
    (sdk : BufferSdk) (laws : BufferLaws sdk) (start rest sum : List ℕ) (n : ℕ)
    → length start ≡ 42
    → n ≤ 4
    → length rest ≡ 40 * n
    → length sum ≡ 16
    → input_frame_data_length sdk
        (buffer_init ((start ++ n ∷ rest) ++ sum) (length ((start ++ n ∷ rest) ++ sum)))
      ≡ length (start ++ n ∷ rest)
signed_length sdk laws start rest sum n e few r m =
    let all = (start ++ n ∷ rest) ++ sum in
    let b = buffer_init all (length all) in
    let l1 = length-append (start ++ n ∷ rest) sum in
    let l2 = length-append start (n ∷ rest) in
    let is : IsBuffer b = omega (arith, l1, l2, e, r, m, few) in
    let count : get_or all 42 0 ≡ n =
      rw (append_assoc start (n ∷ rest) sum, sym e) (get_or-append start n 0 (rest ++ sum)) in
    let given = input_frame_data_length_lem sdk laws b is (omega (arith, count, few)) in
    given ∙ rw count (ground (arith, l1, l2, e, r, m))

module _ {H : Type 0} (d : Device H) (laws : BufferLaws d.bufs) (key data_bytes : List ℕ) where
  abbrev mac : List ℕ
  mac = take 16 (d.crypto.cx_hmac_sha256 key data_bytes)

  abbrev signed : Buffer
  signed = buffer_init (data_bytes ++ mac) (length (data_bytes ++ mac))

  signature_behind :
      input_frame_data_length d.bufs signed ≡ length data_bytes
      → 0 < length data_bytes
      → input_frame_signature_ptr d.bufs signed ≡ some mac
  unfolding input_frame_signature_ptr
  signature_behind e positive =
      let not_null : (length data_bytes == 0) ≡ false = ground arith in
      rw (e, not_null) (ap some (drop-append data_bytes mac))

  -- Data whose length the layout gives is signed by its own code.
  signed_by_code :
      input_frame_data_length d.bufs signed ≡ length data_bytes
      → 0 < length data_bytes
      → is_frame_signed d key signed ≡ true
  unfolding is_frame_signed
  signed_by_code e positive =
      let none_left : length data_bytes + 0 ≡ length data_bytes = omega arith in
      let kept : take (length data_bytes) (data_bytes ++ mac) ≡ data_bytes ++ [] =
        rw none_left at (take-append 0 data_bytes mac) in
      let front : take (length data_bytes) (data_bytes ++ mac) ≡ data_bytes =
        kept ∙ append-nil data_bytes in
      rw (signature_behind e positive, is_frame_signed, e, front)
        (ap (eq_bytes mac) (take_twice 16 16 (d.crypto.cx_hmac_sha256 key data_bytes) (omega arith))
          ∙ eq_bytes_refl mac)

module _ {H : Type 0} (d : Device H) (bufs : BufferLaws d.bufs) (writes : WriteLaws d.writes) where
  own_frame-Accepted :
      (ctx : AttestInput H) (session_key : List ℕ) (index : ℕ) (s : App H)
      → IsAttested ctx
      → index < get_frames_count ctx.mem.shared.tokens_table.count
      → 237 ≤ d.io_apdu_buffer_size
      → d.io_apdu_buffer_size < u32_mod
      → length (d.crypto.cx_hmac_sha256 session_key (frame_data d ctx index)) ≡ cx_sha256_size
      → let sent = frame d ctx session_key index in
        (send_response_attested_input_frame d ctx session_key index s ≡ (tt, res_ok_data sent s))
        × (input_frame_data_length d.bufs (buffer_init sent (length sent))
            ≡ length (frame_data d ctx index))
        × (is_frame_signed d session_key (buffer_init sent (length sent)) ≡ true)
  own_frame-Accepted ctx key index s is le size fits hmac =
      let table = ctx.mem.shared.tokens_table in
      let n = frame_tokens_count table.count index in
      let (few, within) = frame_bounds table.count index is.count le in
      let amounts = amounts_view d ctx.mem.shared.env in
      let start = frame_start ctx index in
      let pairs = token_pairs n (index * frame_max_tokens_count) table amounts in
      let mac = d.crypto.cx_hmac_sha256 key (frame_data d ctx index) in
      let ls =
        length-append ctx.box_id (get_frames_count table.count ∷ index ∷ be_u64 ctx.box.value) in
      let counted =
        signed_length d.bufs bufs start pairs (take 16 mac) n (omega (arith, ls, is.box_id)) few
          (length-token_pairs n (index * frame_max_tokens_count) table amounts is.ids within)
          (omega (arith, hmac, length-take 16 mac)) in
      (
        send_frame_lem d writes ctx key index s is le size fits hmac,
        counted,
        signed_by_code d bufs key (frame_data d ctx index) counted
            (omega (arith, length-append start (n ∷ pairs))),
      )

  -- Over buffer functions and writers of numbers that obey their laws, for a context whose ids
  -- have 32 bytes and whose table is not over-full, an index below the number of frames, an answer
  -- buffer of 237 bytes or more and below 2^32, and a signature of 32 bytes: the frame is sent.
  -- The number of frames is the least one that is not 0 and that holds the gathered tokens, four
  -- to a frame. The frame is the box id, that number, the index and the value; the count of the
  -- next four gathered tokens behind those of the frames before, or of as many as there are, each
  -- with its id and amount; and the first 16 bytes of the signature over all that. Read as a frame
  -- by the signing command, it has the length of what was signed, and its signature is accepted.
  pub attested_frame-Accepted :
      (ctx : AttestInput H) (session_key : List ℕ) (frames index : ℕ) (s : App H)
      → IsAttested ctx
      → IsFrameCount ctx.mem.shared.tokens_table.count frames
      → index < frames
      → 237 ≤ d.io_apdu_buffer_size
      → d.io_apdu_buffer_size < u32_mod
      → length (d.crypto.cx_hmac_sha256 session_key (described d ctx frames index)) ≡ cx_sha256_size
      → let data_bytes = described d ctx frames index in
        let sent = data_bytes ++ take 16 (d.crypto.cx_hmac_sha256 session_key data_bytes) in
        (send_response_attested_input_frame d ctx session_key index s ≡ (tt, res_ok_data sent s))
        × (input_frame_data_length d.bufs (buffer_init sent (length sent)) ≡ length data_bytes)
        × (is_frame_signed d session_key (buffer_init sent (length sent)) ≡ true)
  attested_frame-Accepted ctx key frames index s is counted le size fits hmac =
      let (count, same) = described_lem d ctx frames index is.count counted le in
      let le' : index < get_frames_count ctx.mem.shared.tokens_table.count =
        omega (arith, count, le) in
      rw same at (
        own_frame-Accepted ctx key index s is le' size fits
          (ap (λ t. length (d.crypto.cx_hmac_sha256 key t)) same ∙ hmac))
