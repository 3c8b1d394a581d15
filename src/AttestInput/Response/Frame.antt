-- ===== src/AttestInput/Response/Frame.antt =====
-- The frame that send_response_attested_input_frame sends, and that the signing command takes it.
use ledger_app_ergo.Prelude.{
  ℕ, zero, suc, ◌+◌, ◌-◌, ◌*◌, ◌≤◌, ◌<◌, ◌≡◌, true, List, [], ◌∷◌, ◌++◌, length, take, get_or,
  arith, refl, ◌∙◌, ap, take_all, length-take, length-append, length-replicate, u32_mod, replicate,
  ltb, leb, false, ◌%◌,
}
use mathlib.Core.Path.{subst}
use mathlib.Core.List.{append_assoc, append-nil}
use ledger_app_ergo.Prelude.Flow.{go}
use ledger_app_ergo.Common.RwBuffer.{rw_buffer_can_write, RwBuffer, rw_buffer_new_local_empty}
use ledger_app_ergo.Common.RwBuffer.Contents.{appended, contents}
use ledger_app_ergo.Common.RwBuffer.Numbers.{be_u64, WriteLaws}
use ledger_app_ergo.Common.RwBuffer.Holds.{
  Holds, empty-Holds, appended-Holds, write_u8-Holds, write_bytes-Holds, write_u64-Holds,
  seek-Holds, can_write-Holds,
}
use ledger_app_ergo.Helpers.InputFrame.{frame_max_tokens_count}
use ledger_app_ergo.Ergo.TokenTable.{TokenTable, token_max_count, ergo_id_len}
use ledger_app_ergo.AttestInput.Context.{AttestInput}
use ledger_app_ergo.AttestInput.Response.{
  get_frames_count, frame_tokens_count, cx_sha256_size, amounts_view, write_tokens,
  send_response_attested_input_frame,
}
use ledger_app_ergo.App.{App, Device, res_ok_data}

-- The ids and the amounts of the tokens from `i` on.
unfoldable pub token_pairs : (rounds i : ℕ) → TokenTable → List ℕ → List ℕ
token_pairs zero i table amounts = []
token_pairs (suc rounds) i table amounts =
    get_or table.tokens i []
    ++ (be_u64 (get_or amounts i 0) ++ token_pairs rounds (i + 1) table amounts)

-- Every id below the count has its 32 bytes.
abbrev pub HasIds : TokenTable → Type 0
HasIds table = (i : ℕ) → i < table.count → length (get_or table.tokens i []) ≡ ergo_id_len

pub length-token_pairs :
    (rounds i : ℕ) (table : TokenTable) (amounts : List ℕ)
    → HasIds table
    → i + rounds ≤ table.count
    → length (token_pairs rounds i table amounts) ≡ 40 * rounds
unfolding token_pairs
length-token_pairs zero i table amounts ids h = omega arith
length-token_pairs (suc rounds) i table amounts ids h =
    let id = get_or table.tokens i [] in
    let rest = token_pairs rounds (i + 1) table amounts in
    omega (
      arith,
      ids i (omega arith),
      length-append id (be_u64 (get_or amounts i 0) ++ rest),
      length-token_pairs rounds (i + 1) table amounts ids (omega arith),
    )

module _ {H : Type 0} (d : Device H) (laws : WriteLaws d.writes) where
  write_tokens_lem :
      (rounds i : ℕ) (table : TokenTable) (amounts : List ℕ) (b : RwBuffer) (xs : List ℕ) (n : ℕ)
      (s : App H)
      → HasIds table
      → Holds b xs n
      → i + rounds ≤ table.count
      → length xs + 40 * rounds ≤ n
      → (b' : RwBuffer) × (write_tokens d rounds i table amounts b s ≡ go b' s)
        × Holds b' (xs ++ token_pairs rounds i table amounts) n
  unfolding write_tokens token_pairs
  write_tokens_lem zero i table amounts b xs n s ids h le room = (b, refl, rw append-nil h)
  write_tokens_lem (suc rounds) i table amounts b xs n s ids h le room =
      let id = get_or table.tokens i [] in
      let size : length id ≡ ergo_id_len = ids i (omega arith) in
      let v = get_or amounts i 0 in
      let b1 = appended b id in
      let h1 = appended-Holds b xs id n h (omega (arith, size)) in
      let l1 = length-append xs id in
      let b2 = appended b1 (be_u64 v) in
      let h2 = appended-Holds b1 (xs ++ id) (be_u64 v) n h1 (omega (arith, size, l1)) in
      let l2 = length-append (xs ++ id) (be_u64 v) in
      let rest = token_pairs rounds (i + 1) table amounts in
      let (b', e, h') =
        write_tokens_lem rounds (i + 1) table amounts b2 ((xs ++ id) ++ be_u64 v) n s ids h2
          (omega arith) (omega (arith, size, l1, l2)) in
      (
        b',
        rw
            (
              write_bytes-Holds b xs n h id ergo_id_len size (omega arith),
              write_u64-Holds b1 (xs ++ id) n h1 d.writes laws v (omega (arith, size, l1)),
            )
            e,
        subst (λ t. Holds b' t n)
            (append_assoc (xs ++ id) (be_u64 v) rest ∙ append_assoc xs id (be_u64 v ++ rest)) h',
      )

-- The bytes of a frame in front of its signature.
abbrev pub frame_start : {H : Type 0} → AttestInput H → (index : ℕ) → List ℕ
frame_start ctx index =
    ctx.box_id
    ++ (get_frames_count ctx.mem.shared.tokens_table.count ∷ index ∷ be_u64 ctx.box.value)

module _ {H : Type 0} (d : Device H) where
  abbrev pub frame_data : AttestInput H → (index : ℕ) → List ℕ
  frame_data ctx index =
      let table = ctx.mem.shared.tokens_table in
      let n = frame_tokens_count table.count index in
      frame_start ctx index
      ++ n
        ∷ token_pairs n (index * frame_max_tokens_count) table (amounts_view d ctx.mem.shared.env)

  abbrev pub frame : AttestInput H → (session_key : List ℕ) (index : ℕ) → List ℕ
  frame ctx session_key index =
      let data_bytes = frame_data ctx index in
      data_bytes ++ take 16 (d.crypto.cx_hmac_sha256 session_key data_bytes)

-- A context whose ids all have 32 bytes, and whose table is not over-full.
pub record IsAttested {H : Type 0} (ctx : AttestInput H) : Type 0 where
  pub box_id : length ctx.box_id ≡ ergo_id_len
  pub ids : HasIds ctx.mem.shared.tokens_table
  pub count : ctx.mem.shared.tokens_table.count ≤ token_max_count

leb_of_lt : (a b : ℕ) → b < a → leb a b ≡ false
leb_of_lt a b h = ground arith

ltb_of_le : (a b : ℕ) → b ≤ a → ltb a b ≡ false
ltb_of_le a b h = ground arith

-- There are as many frames as groups of four tokens, and one where there is no token.
pub frame_bounds :
    (count index : ℕ)
    → count ≤ token_max_count
    → index < get_frames_count count
    → (frame_tokens_count count index ≤ 4)
      × (index * frame_max_tokens_count + frame_tokens_count count index ≤ count)
unfolding get_frames_count
frame_bounds count index h le = ground arith

module _ {H : Type 0} (d : Device H) (laws : WriteLaws d.writes) where
  pub send_frame_lem :
      (ctx : AttestInput H) (session_key : List ℕ) (index : ℕ) (s : App H)
      → IsAttested ctx
      → index < get_frames_count ctx.mem.shared.tokens_table.count
      → 237 ≤ d.io_apdu_buffer_size
      → d.io_apdu_buffer_size < u32_mod
      → length (d.crypto.cx_hmac_sha256 session_key (frame_data d ctx index)) ≡ cx_sha256_size
      → send_response_attested_input_frame d ctx session_key index s
        ≡ (tt, res_ok_data (frame d ctx session_key index) s)
  unfolding send_response_attested_input_frame
  send_frame_lem ctx key index s is le size fits hmac =
      let table = ctx.mem.shared.tokens_table in
      let amounts = amounts_view d ctx.mem.shared.env in
      let count = get_frames_count table.count in
      let tokens = frame_tokens_count table.count index in
      let (few, within) = frame_bounds table.count index is.count le in
      let n = d.io_apdu_buffer_size - 2 in
      let b0 = rw_buffer_new_local_empty n in
      let h0 = empty-Holds (replicate n 0) n (length-replicate n 0) (omega arith) in
      let b1 = appended b0 ctx.box_id in
      let x1 = ctx.box_id in
      let h1 = appended-Holds b0 [] x1 n h0 (omega (arith, is.box_id)) in
      let b2 = appended b1 (count ∷ []) in
      let x2 = x1 ++ count ∷ [] in
      let l2 = length-append x1 (count ∷ []) in
      let h2 = appended-Holds b1 x1 (count ∷ []) n h1 (omega (arith, is.box_id)) in
      let b3 = appended b2 (index ∷ []) in
      let x3 = x2 ++ index ∷ [] in
      let l3 = length-append x2 (index ∷ []) in
      let h3 = appended-Holds b2 x2 (index ∷ []) n h2 (omega (arith, is.box_id, l2)) in
      let b4 = appended b3 (be_u64 ctx.box.value) in
      let x4 = x3 ++ be_u64 ctx.box.value in
      let l4 = length-append x3 (be_u64 ctx.box.value) in
      let h4 =
        appended-Holds b3 x3 (be_u64 ctx.box.value) n h3 (omega (arith, is.box_id, l2, l3)) in
      let b5 = appended b4 (tokens ∷ []) in
      let x5 = x4 ++ tokens ∷ [] in
      let l5 = length-append x4 (tokens ∷ []) in
      let h5 = appended-Holds b4 x4 (tokens ∷ []) n h4 (omega (arith, is.box_id, l2, l3, l4)) in
      let (b6, e6, h6) =
        write_tokens_lem d laws tokens (index * frame_max_tokens_count) table amounts b5 x5 n s
          is.ids h5 within (omega (arith, is.box_id, l2, l3, l4, l5)) in
      let pairs = token_pairs tokens (index * frame_max_tokens_count) table amounts in
      let l6 = length-append x5 pairs in
      let lp =
        length-token_pairs tokens (index * frame_max_tokens_count) table amounts is.ids within in
      let same : x5 ++ pairs ≡ frame_data d ctx index = simp (append_assoc) in
      let whole : contents b6 ≡ frame_data d ctx index = h6.bytes ∙ same in
      let mac = d.crypto.cx_hmac_sha256 key (frame_data d ctx index) in
      let sum = take cx_sha256_size mac in
      let all : sum ≡ mac = take_all cx_sha256_size mac (omega (arith, hmac)) in
      let ls : length sum ≡ cx_sha256_size = omega (arith, hmac, length-take cx_sha256_size mac) in
      let room : length (x5 ++ pairs) + length sum ≤ n =
        omega (arith, is.box_id, l2, l3, l4, l5, l6, lp, ls, few) in
      let (b7, e7, c7) = seek-Holds b6 (x5 ++ pairs) n h6 sum 16 room (omega (arith, ls)) in
      let small : leb count index ≡ false = leb_of_lt count index le in
      let off : index * frame_max_tokens_count % 256 ≡ index * frame_max_tokens_count =
        omega (arith, is.count) in
      let no_overflow : ltb 255 (index * frame_max_tokens_count + tokens) ≡ false =
        ltb_of_le 255 _ (omega (arith, is.count)) in
      let can : rw_buffer_can_write b6 cx_sha256_size ≡ true =
        can_write-Holds b6 (x5 ++ pairs) n h6 cx_sha256_size (omega (arith, room, ls)) in
      rw
        (
          small,
          write_bytes-Holds b0 [] n h0 ctx.box_id ergo_id_len is.box_id (omega arith),
          write_u8-Holds b1 x1 n h1 count (omega (arith, is.box_id)),
          write_u8-Holds b2 x2 n h2 index (omega (arith, is.box_id, l2)),
          write_u64-Holds b3 x3 n h3 d.writes laws ctx.box.value (omega (arith, is.box_id, l2, l3)),
          write_u8-Holds b4 x4 n h4 tokens (omega (arith, is.box_id, l2, l3, l4)),
          off,
          no_overflow,
          e6,
          can,
          whole,
          e7,
        )
        (ap (λ t. (tt, res_ok_data t s))
          (c7
            ∙ ap (λ t. t ++ take 16 sum) same
            ∙ ap (λ t. frame_data d ctx index ++ take 16 t) all))
