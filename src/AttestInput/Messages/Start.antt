-- ===== src/AttestInput/Messages/Start.antt =====
-- How an attestation begins: handle_init.
use ledger_app_ergo.Prelude.{
  ℕ, ◌≡◌, ◌≢◌, inl, inr, refl, Bool, true, false, Bool-cases, [], ◌∷◌, ◌==◌, not, ◌&&◌, arith, ap,
  Option, some, List,
}
use ledger_app_ergo.Prelude.Flow.{function, ◌>>=◌, ◌>>◌, modify, call, when, then_do, result_of}
use ledger_app_ergo.Prelude.Ends.{Ends-when}
use ledger_app_ergo.Sdk.{Buffer}
use ledger_app_ergo.Sw.{
  sw_ok, sw_deny, sw_wrong_p1p2, sw_hasher_error, sw_not_enough_data, sw_too_much_data,
  sw_from_tx_box_result,
}
use ledger_app_ergo.Common.Buffer.{buffer_read_bytes}
use ledger_app_ergo.Helpers.CmdMacros.{Step, check_read_param}
use ledger_app_ergo.Helpers.CmdMacros.Answers.{TokenRead, token-TokenRead, Ends-read}
use ledger_app_ergo.Helpers.Session.{is_known_application}
use ledger_app_ergo.Ergo.TokenTable.{ergo_id_len}
use ledger_app_ergo.Ergo.Box.{is_fine}
use ledger_app_ergo.Ergo.Box.Trees.{ergo_tx_serializer_box_init}
use ledger_app_ergo.SignTx.Handler.Reacts.{Failed}
use ledger_app_ergo.SignTx.Ui.{is_short_of, ui_display_screens}
use ledger_app_ergo.AttestInput.Context.{AttestInput, initialized, approved, ui}
use ledger_app_ergo.AttestInput.Handler.{
  ui_action_attest_input, check_call_result_ok, init, set_context, handler_err, on_box,
  access_token_screens, ui_display_access_token,
}
use ledger_app_ergo.AttestInput.Messages.{
  err, read_token, no_tokens, init_hash, set_callbacks, new_session, open_session, handle_init,
  run_subcommand, handler_attest_input,
}
use ledger_app_ergo.AttestInput.Messages.Reacts.{IsIn, err-Failed, error_word}
use ledger_app_ergo.App.{
  send_sw, cmd_none, App, Device, send_data, cmd_attest_input_box, app_set_current_command,
  app_attest_input_context,
}

token_read :
    {H : Type 0} (d : Device H) (has_token : Bool) (b : Buffer) (t : ℕ × Buffer)
    → read_token d has_token b ≡ some t
    → TokenRead d.bufs has_token b t.0 t.1
token_read d true b t e = token-TokenRead d.bufs true b t e
token_read d false b t e = token-TokenRead d.bufs false b t e

-- The message has the seven numbers of a box, and this token at its end.
pub record Requests {H : Type 0} (d : Device H) (b : Buffer) (has_token : Bool) (token : ℕ)
    : Type 0 where
  pub id : List ℕ × Buffer
  pub index : ℕ × Buffer
  pub value : ℕ × Buffer
  pub tree_size : ℕ × Buffer
  pub height : ℕ × Buffer
  pub tokens : ℕ × Buffer
  pub registers : ℕ × Buffer
  pub rest : Buffer
  pub id_read : buffer_read_bytes d.bufs b ergo_id_len ≡ some id
  pub index_read : d.bufs.read_u16 id.1 ≡ some index
  pub value_read : d.bufs.read_u64 index.1 ≡ some value
  pub tree_size_read : d.bufs.read_u32 value.1 ≡ some tree_size
  pub height_read : d.bufs.read_u32 tree_size.1 ≡ some height
  pub tokens_read : d.bufs.read_u8 height.1 ≡ some tokens
  pub registers_read : d.bufs.read_u32 tokens.1 ≡ some registers
  pub token_is : TokenRead d.bufs has_token registers.1 token rest
  pub whole : d.bufs.can_read rest 1 ≡ false

-- The screens wait for the user. An approval sends the session of the attestation, which counts as
-- approved from then on, and connects the application of the message's token; a denial sends its word and leaves no command.
pub record Asks {H : Type 0} (d : Device H) (b : Buffer) (has_token : Bool) (s s' : App H)
    : Type 0 where
  pub token : ℕ
  pub requests : Requests d b has_token token
  pub context : AttestInput H
  pub is_in : IsIn initialized s' context
  pub same : s'.sent ≡ s.sent
  pub busy : s'.is_ui_busy ≡ true
  pub command : s'.current_command ≡ cmd_attest_input_box
  pub approval : (ui_action_attest_input d true s').sent ≡ send_data (context.session ∷ []) ∷ s.sent
  pub approved_in :
      IsIn approved (ui_action_attest_input d true s') (record context { state = approved })
  pub connects : (ui_action_attest_input d true s').connected_app_id ≡ token
  pub denial : (ui_action_attest_input d false s').sent ≡ send_sw sw_deny ∷ s.sent
  pub ends : (ui_action_attest_input d false s').current_command ≡ cmd_none

-- An error that wipes everything; the session, where the message's token is the id of the
-- application that is connected already; or the screens that ask the user.
pub data Opens {H : Type 0} (d : Device H) (b : Buffer) (has_token : Bool) (s s' : App H)
    : Type 0 where
  failed : Failed s s' → Opens d b has_token s s'
  opened :
      (token : ℕ) (c : AttestInput H)
      → Requests d b has_token token
      → token ≢ 0
      → s.connected_app_id ≡ token
      → IsIn approved s' c
      → s'.sent ≡ send_data (c.session ∷ []) ∷ s.sent
      → s'.current_command ≡ cmd_attest_input_box
      → Opens d b has_token s s'
  asks : Asks d b has_token s s' → Opens d b has_token s s'

known_id :
    (token connected : ℕ)
    → is_known_application connected token ≡ true
    → (token ≢ 0) × (connected ≡ token)
unfolding is_known_application
known_id token connected h = (λ e. ground (arith, h, e), ground (arith, h))

module _ {H : Type 0} (d : Device H) (b : Buffer) (has_token : Bool) (s : App H) where
  abbrev Ending : (Unit {0}) × App H → Type 0
  Ending r = Opens d b has_token s r.1

  screens_fit : (token : ℕ) → is_short_of 2 (access_token_screens d token) ≡ false
  screens_fit token = elim (Bool-cases (not (token == 0))) [ inl e ↦ rw e | inr e ↦ rw e ]

  open_session-Opens :
      (token : ℕ) (s1 : App H) (c : AttestInput H)
      → Requests d b has_token token
      → s1.sent ≡ s.sent
      → s1.current_command ≡ cmd_attest_input_box
      → IsIn initialized s1 c
      → Ending (function (open_session d s.connected_app_id token) s1)
  unfolding ui_display_access_token ui_display_screens ui_action_attest_input
      app_set_current_command
  open_session-Opens token s1 c requests same command (there, state) =
      elim (Bool-cases (is_known_application s.connected_app_id token)) [
        | inl known ↦ rw known (
            rw there (
              let (some_id, connected) = known_id token s.connected_app_id known in
              opened token (record c { state = approved }) requests some_id connected (refl, refl)
                (ap (λ t. send_data (c.session ∷ []) ∷ t) same) command))
        | inr other ↦ rw other (
            rw (there, screens_fit token)
              (let shared = record c.mem.shared { env = ui token } in
                asks (record {
                  token = token;
                  requests = requests;
                  context = record c { mem = record c.mem { shared = shared } };
                  is_in = (refl, state);
                  same = same;
                  busy = refl;
                  command = command;
                  approval = ap (λ t. send_data (c.session ∷ []) ∷ t) same;
                  approved_in = (refl, refl);
                  connects = refl;
                  denial = ap (λ t. send_sw sw_deny ∷ t) same;
                  ends = refl;
                })))
      ]

  fails :
      (code : ℕ) (s1 : App H) → code ≢ sw_ok → s1.sent ≡ s.sent → Ending (tt, handler_err d code s1)
  fails code s1 h same = failed (err-Failed d s code s1 h same)

  -- A parameter of the message.
  read_or_fail :
      {A : Type 0} (o : Option A) (s1 : App H) (k : A → Step H (Unit {0}))
      → s1.sent ≡ s.sent
      → ((a : A) → o ≡ some a → Ending (result_of (k a s1)))
      → Ending (result_of (then_do (check_read_param (handler_err d) o s1) k))
  read_or_fail o s1 k same rest =
      Ends-read Ending (handler_err d) o s1 k (fails sw_not_enough_data s1 (λ e. ground arith) same)
        rest

  -- The part behind the parameters, in a context of this command.
  begin-Opens :
      (value tree_size height tokens registers token : ℕ) (s1 : App H)
      → Requests d b has_token token
      → s1.sent ≡ s.sent
      → s1.current_command ≡ cmd_attest_input_box
      → Ending (
          function
            (do
              modify (set_context d (no_tokens d))
              hashed ← call (init_hash d)
              when (not hashed) (err d sw_hasher_error)
              check_call_result_ok d (
                  on_box d
                    (ergo_tx_serializer_box_init d.hs value tree_size height tokens registers))
              modify (set_context d (set_callbacks d))
              modify (new_session d)
              open_session d s.connected_app_id token)
            s1)
  begin-Opens value tree_size height tokens registers token s1 requests same command =
      let s2 = set_context d (no_tokens d) s1 in
      let hashed = init_hash d s2 in
      Ends-when Ending (not hashed.0) _ hashed.1 _
        (λ _. fails sw_hasher_error hashed.1 (λ e. ground arith) same)
        (λ _.
          let r =
            on_box d (ergo_tx_serializer_box_init d.hs value tree_size height tokens registers)
              hashed.1 in
          Ends-when Ending (not (is_fine r.0)) _ r.1 _
            (λ bad. fails (sw_from_tx_box_result r.0) r.1 (error_word r.0 (ground arith)) same)
            (λ _.
              let s3 = new_session d (set_context d (set_callbacks d) r.1) in
              open_session-Opens token s3 (app_attest_input_context d s3) requests same command
                (refl, refl)))

  pub handle_init-Opens :
      Opens d b has_token s
        (handle_init d b has_token s.connected_app_id
          (app_set_current_command cmd_attest_input_box s)).1
  unfolding handle_init app_set_current_command
  handle_init-Opens =
      let s1 = app_set_current_command cmd_attest_input_box s in
      let err = handler_err d in
      read_or_fail (buffer_read_bytes d.bufs b ergo_id_len) s1 _ refl (λ id e1.
        let s2 = set_context d (λ (c : AttestInput H). record c { box_id = id.0 }) s1 in
        read_or_fail (d.bufs.read_u16 id.1) s2 _ refl (λ index e2.
          let s3 = set_context d (λ (c : AttestInput H). record c { box_index = index.0 }) s2 in
          read_or_fail (d.bufs.read_u64 index.1) s3 _ refl (λ value e3.
            read_or_fail (d.bufs.read_u32 value.1) s3 _ refl (λ tree_size e4.
              read_or_fail (d.bufs.read_u32 tree_size.1) s3 _ refl (λ height e5.
                read_or_fail (d.bufs.read_u8 height.1) s3 _ refl (λ tokens e6.
                  read_or_fail (d.bufs.read_u32 tokens.1) s3 _ refl (λ registers e7.
                    read_or_fail (read_token d has_token registers.1) s3 _ refl (λ token e8.
                      Ends-when Ending (d.bufs.can_read token.1 1) _ s3 _
                        (λ _. fails sw_too_much_data s3 (λ e. ground arith) refl)
                        (λ whole.
                          let requests : Requests d b has_token token.0 = record {
                            id = id;
                            index = index;
                            value = value;
                            tree_size = tree_size;
                            height = height;
                            tokens = tokens;
                            registers = registers;
                            rest = token.1;
                            id_read = e1;
                            index_read = e2;
                            value_read = e3;
                            tree_size_read = e4;
                            height_read = e5;
                            tokens_read = e6;
                            registers_read = e7;
                            token_is = token_read d has_token registers.1 token e8;
                            whole = whole;
                          } in
                          begin-Opens value.0 tree_size.0 height.0 tokens.0 registers.0 token.0 s3
                            requests refl refl)))))))))

module _ {H : Type 0} (d : Device H) (s : App H) where
  -- While the screens are not busy, the first message of an attestation does one of three things.
  -- It sends one error word and nothing else, and leaves no command, a wiped context and idle
  -- screens. It sends the session of an attestation that counts as approved, and then the token
  -- that the message has behind the seven fields of the box is not 0 and is the id of the
  -- application that was connected. Or it sends nothing, and the screens are busy over an
  -- attestation that is not approved; an approval then sends its session, makes it approved and
  -- connects the application of the message's token, 0 where it has none, and a denial sends the
  -- word of a denial and leaves no command. In the last two the command is the one of
  -- attestations.
  pub handler_attest_input-Opens :
      (b : Buffer) (token : ℕ)
      → s.is_ui_busy ≡ false
      → Opens d b (token == 0x02) s (handler_attest_input d b init token s).1
  unfolding handler_attest_input run_subcommand
  handler_attest_input-Opens b token idle =
      Ends-when (Ending d b (token == 0x02) s) s.is_ui_busy _ s _ (λ e. absurd (ground arith))
        (λ _.
          Ends-when (Ending d b (token == 0x02) s) (not (token == 0x01) && not (token == 0x02)) _ s
            _ (λ _. failed (err-Failed d s sw_wrong_p1p2 s (λ e. ground arith) refl))
            (λ _. handle_init-Opens d b (token == 0x02) s))
