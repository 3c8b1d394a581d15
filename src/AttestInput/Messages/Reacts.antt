-- ===== src/AttestInput/Messages/Reacts.antt =====
-- How the handlers of ainpt_handler.c react to a message.
use ledger_app_ergo.Prelude.{
  ℕ, ◌≡◌, ◌≢◌, inl, inr, refl, Bool, true, false, Bool-cases, List, [], ◌∷◌, not, arith, Option,
  none, some, ◌∙◌,
}
use ledger_app_ergo.Prelude.Flow.{Function, then_do, result_of, function, ◌>>◌}
use ledger_app_ergo.Prelude.Ends.{Ends-when}
use ledger_app_ergo.Sdk.{Buffer}
use ledger_app_ergo.Sw.{sw_ok, sw_bad_state, sw_from_tx_box_result}
use ledger_app_ergo.Helpers.CmdMacros.{Step}
use ledger_app_ergo.Ergo.Box.{
  BoxResult, ok, more_data, hash_finalized, BoxFrame, is_fine, ergo_tx_serializer_box_is_finished,
}
use ledger_app_ergo.Ergo.Box.Registers.{
  ergo_tx_serializer_box_id_hash, IsHashed, ergo_tx_serializer_box_id_hash-IsHashed,
}
use ledger_app_ergo.SignTx.Handler.Reacts.{Failed}
use ledger_app_ergo.AttestInput.Context.{
  AttestInput, AttestInputState, AmountsOrUi, initialized, approved, finished,
}
use ledger_app_ergo.AttestInput.Response.{
  get_frames_count, send_response_attested_input_frame_count, send_response_attested_input_frame,
}
use ledger_app_ergo.AttestInput.Handler.{
  is_approved, is_finished, handler_err, store_id, box_id_hash, check_box_finished, finish_call,
  set_context, send_frame_count, call_box, send_frame_count,
}
use ledger_app_ergo.AttestInput.Messages.{check_state}
use ledger_app_ergo.App.{
  App, Device, CommandsCtx, attest_input, send_sw, send_data, res_ok, app_set_current_command,
  cmd_attest_input_box,
}

pub error_word : (res : BoxResult) → is_fine res ≡ false → sw_from_tx_box_result res ≢ sw_ok
error_word ok h e = ground arith
error_word more_data h e = ground arith
error_word _ h e = ground arith

only_approved : (st : AttestInputState) → is_approved st ≡ true → st ≡ approved
only_approved st h = ground arith

pub only_finished : (st : AttestInputState) → is_finished st ≡ true → st ≡ finished
only_finished st h = ground arith

module _ {H : Type 0} where
  -- A context of the command in this state.
  abbrev pub IsIn : AttestInputState → App H → AttestInput H → Type 0
  IsIn state s c = (s.commands_ctx ≡ attest_input c) × (c.state ≡ state)

  -- The message was one of this session for this context, which goes on under the same session.
  pub record Goes (session : ℕ) (from to : AttestInputState) (s s' : App H) : Type 0 where
    pub before : AttestInput H
    pub after : AttestInput H
    pub is_in : IsIn from s before
    pub is_in' : IsIn to s' after
    pub of_command : s.current_command ≡ cmd_attest_input_box
    pub of_session : session ≡ before.session
    pub same_session : after.session ≡ before.session
    pub same_command : s'.current_command ≡ s.current_command

  -- An error that wipes everything; a piece of the box; its last piece, with the number of frames in
  -- the answer and the hash of the box at its end; or the frame of a finished attestation that has the
  -- index in the message.
  pub data Reacts (d : Device H) (b : Buffer) (session : ℕ) (s s' : App H) : Type 0 where
    failed : Failed s s' → Reacts d b session s s'
    taken :
        Goes session approved approved s s'
        → s'.sent ≡ send_sw sw_ok ∷ s.sent
        → Reacts d b session s s'
    attested :
        (g : Goes session approved finished s s')
        → g.after.box.state ≡ hash_finalized
        → s'.sent ≡ send_data (get_frames_count g.after.mem.shared.tokens_table.count ∷ []) ∷ s.sent
        → Reacts d b session s s'
    framed :
        (g : Goes session finished finished s s') (index : ℕ) (rest : Buffer)
        → d.bufs.read_u8 b ≡ some (index, rest)
        → d.bufs.can_read rest 1 ≡ false
        → s'
          ≡ (send_response_attested_input_frame d g.before s.session_key index
              (record s { commands_ctx = attest_input g.before })).1
        → (bytes : List ℕ) → s'.sent ≡ send_data bytes ∷ s.sent
        → Reacts d b session s s'

module _ {H : Type 0} (d : Device H) (s : App H) where
  pub err-Failed :
      (code : ℕ) (s1 : App H) → code ≢ sw_ok → s1.sent ≡ s.sent → Failed s (handler_err d code s1)
  unfolding handler_err app_set_current_command
  err-Failed code s1 h same = record {
    code = code;
    is_error = h;
    answer = rw same;
    command = refl;
    context = refl;
    idle = refl;
  }

module _ {H : Type 0} (d : Device H) (b : Buffer) (session : ℕ) (s : App H)
    (command : s.current_command ≡ cmd_attest_input_box)
    (agrees : (c : AttestInput H) → s.commands_ctx ≡ attest_input c → session ≡ c.session) where
  abbrev pub Ending : (Unit {0}) × App H → Type 0
  Ending r = Reacts d b session s r.1

  -- The application with another context of the command.
  abbrev pub with_ctx : AttestInput H → App H
  with_ctx c = record s { commands_ctx = attest_input c }

  -- The check of the state.
  pub Reacts-state :
      (test : AttestInputState → Bool) (state : AttestInputState) (u : CommandsCtx H)
      (k : Unit {0} → Step H (Unit {0}))
      → test initialized ≡ false
      → ((st : AttestInputState) → test st ≡ true → st ≡ state)
      → ((c : AttestInput H)
          → u ≡ attest_input c
          → c.state ≡ state
          → Ending (result_of (k tt (with_ctx c))))
      → Ending (result_of (then_do (check_state d test (record s { commands_ctx = u })) k))
  Reacts-state test state (attest_input c) k none_first only rest =
      elim (Bool-cases (test c.state)) [
        | inl e ↦ rw e (rest c refl (only c.state e))
        | inr e ↦ rw e (failed (err-Failed d s sw_bad_state (with_ctx c) (λ e. ground arith) refl))
      ]
  Reacts-state test state u k none_first only rest = rw none_first (
      failed (err-Failed d s sw_bad_state (record s { commands_ctx = u }) (λ e. ground arith) refl))

  -- The hash of the box: an error, or the finalized state, with nothing else changed.
  abbrev Hashed : AttestInput H → BoxResult × App H → Type 0
  Hashed c r =
      (r.1.sent ≡ s.sent)
      × (is_fine r.0 ≡ true
          → (c' : AttestInput H) × (r.1 ≡ with_ctx c')
            × (c'.session ≡ c.session)
            × (c'.box.state ≡ hash_finalized)
            × (c'.mem.shared ≡ c.mem.shared))

  stored-Hashed :
      (c : AttestInput H) (r : (BoxResult × Option (List ℕ)) × BoxFrame H AmountsOrUi)
      → IsHashed d.hs (record { ctx = c.box; mem = c.mem }) r
      → Hashed c (store_id d r.0 (with_ctx (record c { box = r.1.ctx; mem = r.1.mem })))
  stored-Hashed c ((res, none), frame) bad = (refl, λ fine. absurd (ground arith))
  stored-Hashed c ((res, some id), frame) (fine, final, same) = (
    refl,
    λ _. (record c { box = frame.ctx; mem = frame.mem; box_id = id }, refl, refl, final, same),
  )

  box_id_hash-Hashed : (c : AttestInput H) → Hashed c (box_id_hash d (with_ctx c))
  box_id_hash-Hashed c =
      let frame : BoxFrame H AmountsOrUi = record { ctx = c.box; mem = c.mem } in
      stored-Hashed c (ergo_tx_serializer_box_id_hash d.hs c.box_id c.box_index frame)
        (ergo_tx_serializer_box_id_hash-IsHashed d.hs c.box_id c.box_index frame)

  -- A chunk has come for the context `c`, which the call of the serializer has made `c1`.
  module _ (c c1 : AttestInput H) (is_in : IsIn approved s c) (same : c1.session ≡ c.session)
      (still : c1.state ≡ approved) where
    abbrev went :
        (c2 : AttestInput H) (to : AttestInputState) (s2 : App H)
        → s2.commands_ctx ≡ attest_input c2
        → c2.state ≡ to
        → c2.session ≡ c.session
        → s2.current_command ≡ s.current_command
        → Goes session approved to s s2
    went c2 to s2 there state kept still_in = record {
      before = c;
      after = c2;
      is_in = is_in;
      is_in' = (there, state);
      of_command = command;
      of_session = agrees c is_in.0;
      same_session = kept;
      same_command = still_in;
    }

    taken_ok : Ending (tt, res_ok (with_ctx c1))
    taken_ok = taken (went c1 approved (res_ok (with_ctx c1)) refl still same refl) refl

    done_ok :
        (s2 : App H)
        → (c2 : AttestInput H) × (s2 ≡ with_ctx c2)
          × (c2.session ≡ c1.session)
          × (c2.box.state ≡ hash_finalized)
          × (c2.mem.shared ≡ c1.mem.shared)
        → Ending (
          tt,
          send_frame_count d
              (set_context d (λ (x : AttestInput H). record x { state = finished }) s2),
        )
    unfolding send_response_attested_input_frame_count
    done_ok s2 (c2, e, kept, final, shared) =
        let c3 = record c2 { state = finished } in
        rw e (
          attested
            (went c3 finished (send_frame_count d (with_ctx c3)) refl refl (kept ∙ same) refl) final
            refl)

    check_box_finished-Reacts : Ending (check_box_finished d (with_ctx c1))
    unfolding check_box_finished send_response_attested_input_frame_count
    check_box_finished-Reacts =
        let r = box_id_hash d (with_ctx c1) in
        let (kept, done) = box_id_hash-Hashed c1 in
        Ends-when Ending (not (ergo_tx_serializer_box_is_finished c1.box)) _ (with_ctx c1) _
          (λ _. taken_ok)
          (λ _.
            Ends-when Ending (not (is_fine r.0)) _ r.1 _
              (λ bad. failed (
                err-Failed d s (sw_from_tx_box_result r.0) r.1 (error_word r.0 (ground arith))
                  kept))
              (λ fine. done_ok r.1 (done (ground arith))))

    finish_call-Reacts : (res : BoxResult) → Ending (function (finish_call d res) (with_ctx c1))
    finish_call-Reacts ok = check_box_finished-Reacts
    finish_call-Reacts more_data = taken_ok
    finish_call-Reacts res =
        failed (err-Failed d s (sw_from_tx_box_result res) (with_ctx c1) (λ e. ground arith) refl)

  -- A message with a piece of the box.
  pub chunk-Reacts :
      (f : Function BoxResult (BoxFrame H AmountsOrUi))
      → Ending (function (do check_state d is_approved; call_box d f) s)
  chunk-Reacts f =
      Reacts-state is_approved approved s.commands_ctx _ refl only_approved (λ c there state.
        let r = f (record { ctx = c.box; mem = c.mem }) in
        finish_call-Reacts c (record c { box = r.1.ctx; mem = r.1.mem }) (there, state) refl state
          r.0)
