-- ===== src/AttestInput/Response/Chunks.antt =====
-- What a frame of src/commands/attestinput/ainpt_response.c is to hold, told from the tokens that the
-- context has gathered, four to a frame.
use ledger_app_ergo.Prelude.{
  ℕ, zero, suc, ◌+◌, ◌-◌, ◌*◌, ◌≤◌, ◌<◌, ◌≡◌, ◌⊎◌, List, [], ◌∷◌, ◌++◌, length, take, drop, arith,
  refl, ap, ◌∙◌,
}
use ledger_app_ergo.Common.RwBuffer.Numbers.{be_u64}
use ledger_app_ergo.Ergo.TokenTable.{token_max_count}
use ledger_app_ergo.Ergo.Memory.{Shared}
use ledger_app_ergo.AttestInput.Context.{AttestInput, AmountsOrUi}
use ledger_app_ergo.AttestInput.Handler.Tokens.Gather.{Token, recorded, gathered}
use ledger_app_ergo.AttestInput.Response.{get_frames_count, frame_tokens_count, amounts_view}
use ledger_app_ergo.AttestInput.Response.Frame.{token_pairs, frame_data}
use ledger_app_ergo.App.{Device}

-- So many frames hold these tokens, four to a frame, and one less would not; there is always one.
abbrev pub IsFrameCount : (count frames : ℕ) → Type 0
IsFrameCount count frames =
    (1 ≤ frames) × (count ≤ 4 * frames) × ((frames ≡ 1) ⊎ (4 * frames < count + 4))

-- Each token as its id and its amount.
unfoldable pub token_bytes : List Token → List ℕ
token_bytes [] = []
token_bytes ((id, value) ∷ tokens) = id ++ (be_u64 value ++ token_bytes tokens)

module _ {H : Type 0} (d : Device H) where
  -- The tokens of the frame with this index: the next four behind those of the frames before it.
  abbrev pub tokens_of_frame : AttestInput H → (index : ℕ) → List Token
  tokens_of_frame ctx index = take 4 (drop (4 * index) (gathered d ctx.mem.shared))

  -- The signed bytes of a frame.
  abbrev pub described : AttestInput H → (frames index : ℕ) → List ℕ
  described ctx frames index =
      let tokens = tokens_of_frame ctx index in
      (ctx.box_id ++ frames ∷ index ∷ be_u64 ctx.box.value) ++ length tokens ∷ token_bytes tokens

get_frames_count_lem :
    (count frames : ℕ)
    → count ≤ token_max_count
    → IsFrameCount count frames
    → get_frames_count count ≡ frames
unfolding get_frames_count
get_frames_count_lem count frames h is = ground arith

frame_tokens_count_lem :
    (count frames index : ℕ)
    → count ≤ token_max_count
    → IsFrameCount count frames
    → index < frames
    → let m = frame_tokens_count count index in
      (m ≤ 4) × (m ≤ count - 4 * index) × ((m ≡ 4) ⊎ (m ≡ count - 4 * index))
frame_tokens_count_lem count frames index h is lt = ground arith

module _ {H : Type 0} (d : Device H) (s : Shared AmountsOrUi) where
  length-recorded : (k i : ℕ) → length (recorded d k i s) ≡ k
  unfolding recorded
  length-recorded zero i = refl
  length-recorded (suc k) i = omega (arith, length-recorded k (i + 1))

  drop-recorded : (j k i : ℕ) → drop j (recorded d k i s) ≡ recorded d (k - j) (i + j) s
  unfolding recorded
  drop-recorded zero k i =
      let e : i + 0 ≡ i = omega arith in let e' : k - 0 ≡ k = omega arith in rw (e, e') refl
  drop-recorded (suc j) zero i = let e : 0 - suc j ≡ 0 = omega arith in rw e refl
  drop-recorded (suc j) (suc k) i =
      let e : i + suc j ≡ i + 1 + j = omega arith in
      let e' : suc k - suc j ≡ k - j = omega arith in rw (e, e') (drop-recorded j k (i + 1))

  take-recorded :
      (m n k i : ℕ)
      → m ≤ n
      → m ≤ k
      → (m ≡ n) ⊎ (m ≡ k)
      → take n (recorded d k i s) ≡ recorded d m i s
  unfolding recorded
  take-recorded zero zero k i a b h = refl
  take-recorded zero (suc n) zero i a b h = refl
  take-recorded zero (suc n) (suc k) i a b h = absurd (ground arith)
  take-recorded (suc m) zero k i a b h = absurd (omega arith)
  take-recorded (suc m) (suc n) zero i a b h = absurd (omega arith)
  take-recorded (suc m) (suc n) (suc k) i a b h =
      rw (take-recorded m n k (i + 1) (omega arith) (omega arith) (ground arith))

  token_bytes-recorded :
      (k i : ℕ)
      → token_bytes (recorded d k i s) ≡ token_pairs k i s.tokens_table (amounts_view d s.env)
  unfolding recorded token_bytes token_pairs
  token_bytes-recorded zero i = refl
  token_bytes-recorded (suc k) i = rw (token_bytes-recorded k (i + 1))

  -- The tokens of a frame stand at the places that the code counts.
  chunk_lem :
      (frames index : ℕ)
      → s.tokens_table.count ≤ token_max_count
      → IsFrameCount s.tokens_table.count frames
      → index < frames
      → take 4 (drop (4 * index) (gathered d s))
        ≡ recorded d (frame_tokens_count s.tokens_table.count index) (index * 4) s
  chunk_lem frames index h is lt =
      let count = s.tokens_table.count in
      let (few, within, full) = frame_tokens_count_lem count frames index h is lt in
      let place : 0 + 4 * index ≡ index * 4 = omega arith in
      ap (take 4) (drop-recorded (4 * index) count 0)
      ∙ take-recorded (frame_tokens_count count index) 4 (count - 4 * index) (0 + 4 * index) few
          within full
      ∙ ap (λ i. recorded d (frame_tokens_count count index) i s) place

module _ {H : Type 0} (d : Device H) where
  -- The code's bytes are those.
  pub described_lem :
      (ctx : AttestInput H) (frames index : ℕ)
      → ctx.mem.shared.tokens_table.count ≤ token_max_count
      → IsFrameCount ctx.mem.shared.tokens_table.count frames
      → index < frames
      → (get_frames_count ctx.mem.shared.tokens_table.count ≡ frames)
        × (frame_data d ctx index ≡ described d ctx frames index)
  described_lem ctx frames index h is lt =
      let s = ctx.mem.shared in
      let n = frame_tokens_count s.tokens_table.count index in
      let e = get_frames_count_lem s.tokens_table.count frames h is in
      let chunk = chunk_lem d s frames index h is lt in
      let size = length-recorded d s n (index * 4) in
      let bytes = token_bytes-recorded d s n (index * 4) in (e, rw (e, chunk, size, bytes) refl)
