-- ===== src/SignTx/Handler/Reacts.antt =====
-- How the handlers of stx_handler.c react to a message: they fail and reset, or they go on and answer.
use ledger_app_ergo.Prelude.{
  ℕ, ◌≡◌, ◌≢◌, ◌⊎◌, inl, inr, refl, Bool, true, false, Bool-cases, ◌∷◌, ◌==◌, ==_iff, arith, Option,
  none, some, ◌∙◌,
}
use ledger_app_ergo.Prelude.Flow.{Function, when, call, then_do, result_of}
use ledger_app_ergo.Sw.{sw_ok, sw_bad_state, sw_not_enough_data}
use ledger_app_ergo.Ergo.Full.{ergo_tx_serializer_full_is_finished}
use ledger_app_ergo.SignTx.Context.{
  P2pk, P2pkState, tx_finished, finalized, SignTx, SignTxState, approved,
}
use ledger_app_ergo.SignTx.P2pk.Settles.{holding, reset, Settles, settled, refused}
use ledger_app_ergo.SignTx.P2pk.Steps.{OpCall, Moves, operate, Next}
use ledger_app_ergo.SignTx.P2pk.Steps.All.{operate-Settles}
use ledger_app_ergo.SignTx.Handler.{
  Step, is_approved, handler_err, check_approved, check_read_param, check_call_result_sw_ok,
}
use ledger_app_ergo.App.{
  App, Device, CommandsCtx, cleared, sign_tx, cmd_none, send_sw, res_ok, app_set_current_command,
}

-- The state of the operation is behind the last piece of the transaction.
abbrev pub is_complete_state : P2pkState → Bool
is_complete_state tx_finished = true
is_complete_state finalized = true
is_complete_state _ = false

Next-complete :
    (call : OpCall) (from to : P2pkState)
    → Next call from to
    → is_complete_state to ≡ true
    → to ≡ tx_finished
Next-complete (OpCall.start _ _ _ _) from to h e = ground arith
Next-complete (OpCall.tokens _) from to h e = ground arith
Next-complete (OpCall.input _ _ _ _) from to h e = ground arith
Next-complete (OpCall.input_tokens _ _ _) from to h e = ground arith
Next-complete (OpCall.input_extension _) from to h e = ground arith
Next-complete (OpCall.data_inputs _) from to h e = ground arith
Next-complete (OpCall.output _ _ _ _ _) from to h e = ground arith
Next-complete (OpCall.tree_chunk _) from to h e = ground arith
Next-complete OpCall.tree_fee from to h e = ground arith
Next-complete (OpCall.tree_change _ _) from to h e = ground arith
Next-complete (OpCall.output_tokens _) from to h e = ground arith
Next-complete (OpCall.output_registers _) from to h e = ground arith

module _ {H : Type 0} where
  -- A context in such a state has taken the whole transaction.
  abbrev pub IsComplete : P2pk H → Type 0
  IsComplete c = is_complete_state c.state ≡ true → ergo_tx_serializer_full_is_finished c.tx ≡ true

  -- What no message to an approved operation changes.
  pub record Keeps (c c' : P2pk H) : Type 0 where
    pub complete : IsComplete c → IsComplete c'
    pub same_path : c'.bip32 ≡ c.bip32
    pub same_key : c'.schnorr_key ≡ c.schnorr_key

  -- An error is answered, and the command and the whole context are gone.
  pub record Failed (s s' : App H) : Type 0 where
    pub code : ℕ
    pub is_error : code ≢ sw_ok
    pub answer : s'.sent ≡ send_sw code ∷ s.sent
    pub command : s'.current_command ≡ cmd_none
    pub context : s'.commands_ctx ≡ cleared
    pub idle : s'.is_ui_busy ≡ false

  -- One answer, or none yet since the screens wait for the user.
  abbrev pub Replied : App H → App H → Type 0
  Replied s s' = (s'.sent ≡ send_sw sw_ok ∷ s.sent) ⊎ ((s'.sent ≡ s.sent) × (s'.is_ui_busy ≡ true))

  -- The operation went on.
  pub record Went (s s' : App H) : Type 0 where
    pub before : SignTx H
    pub after : SignTx H
    pub context : s.commands_ctx ≡ sign_tx before
    pub is_approved : before.state ≡ approved
    pub context' : s'.commands_ctx ≡ sign_tx after
    pub stays_approved : after.state ≡ approved
    pub same_session : after.session ≡ before.session
    pub same_command : s'.current_command ≡ s.current_command
    pub keeps : Keeps before.p2pk after.p2pk
    pub replied : Replied s s'

  pub data Reacts (s s' : App H) : Type 0 where
    failed : Failed s s' → Reacts s s'
    went : Went s s' → Reacts s s'

  pub Keeps-refl : (c : P2pk H) → Keeps c c
  Keeps-refl c = record { complete = λ h. h; same_path = refl; same_key = refl }

  pub Keeps-trans : (a b c : P2pk H) → Keeps a b → Keeps b c → Keeps a c
  Keeps-trans a b c k l = record {
    complete = λ h. l.complete (k.complete h);
    same_path = l.same_path ∙ k.same_path;
    same_key = l.same_key ∙ k.same_key;
  }

  -- No operation leaves the finalized state.
  pub Moves-Keeps : (call : OpCall) (c c' : P2pk H) → Moves call c c' → Keeps c c'
  Moves-Keeps call c c' m = record {
    complete = λ _ e. m.complete (Next-complete call c.state c'.state m.next e);
    same_path = m.same_path;
    same_key = m.same_key;
  }

-- The application with another context of its commands.
abbrev pub with_ctx : {H : Type 0} → CommandsCtx H → App H → App H
with_ctx u s = record s { commands_ctx = u }

state_is_approved : (st : SignTxState) → is_approved st ≡ true → st ≡ approved
state_is_approved st h = ground arith

module _ {H : Type 0} (d : Device H) (s : App H) where
  -- The end of a handler that started in `s`.
  abbrev pub Ending : (Unit {0}) × App H → Type 0
  Ending r = Reacts s r.1

  pub Reacts-error :
      {A : Type 0} (code : ℕ) (s1 : App H) (k : A → Step H (Unit {0}))
      → code ≢ sw_ok
      → s1.sent ≡ s.sent
      → Reacts s (result_of (then_do (handler_err d code s1) k)).1
  unfolding handler_err app_set_current_command
  Reacts-error code s1 k h same = failed (record {
    code = code;
    is_error = h;
    answer = rw same;
    command = refl;
    context = refl;
    idle = refl;
  })

  -- A parameter of the message.
  pub Reacts-read :
      {A : Type 0} (o : Option A) (u : CommandsCtx H) (k : A → Step H (Unit {0}))
      → ((a : A) → Reacts s (result_of (k a (with_ctx u s))).1)
      → Reacts s (result_of (then_do (check_read_param d o (with_ctx u s)) k)).1
  Reacts-read none u k rest =
      Reacts-error sw_not_enough_data (with_ctx u s) k (λ e. ground arith) refl
  Reacts-read (some a) u k rest = rest a

  pub Reacts-when :
      (b : Bool) (code : ℕ) (u : CommandsCtx H) (k : Unit {0} → Step H (Unit {0}))
      → code ≢ sw_ok
      → Reacts s (result_of (k tt (with_ctx u s))).1
      → Reacts s (result_of (then_do (when b (handler_err d code) (with_ctx u s)) k)).1
  Reacts-when true code u k h rest = Reacts-error code (with_ctx u s) k h refl
  Reacts-when false code u k h rest = rest

  -- The check that the user has approved the operation.
  pub Reacts-approved :
      (u : CommandsCtx H) (k : Unit {0} → Step H (Unit {0}))
      → ((x : SignTx H)
          → u ≡ sign_tx x
          → x.state ≡ approved
          → Reacts s (result_of (k tt (with_ctx (sign_tx x) s))).1)
      → Reacts s (result_of (then_do (check_approved d (with_ctx u s)) k)).1
  Reacts-approved (sign_tx x) k rest = elim (Bool-cases (is_approved x.state)) [
    | inl e ↦ rw e (rest x refl (state_is_approved x.state e))
    | inr e ↦ rw e (Reacts-error sw_bad_state (with_ctx (sign_tx x) s) k (λ e. ground arith) refl)
  ]
  Reacts-approved u k rest = Reacts-error sw_bad_state (with_ctx u s) k (λ e. ground arith) refl

  -- A call of an operation.
  pub Reacts-call :
      (x : SignTx H) (c : P2pk H) (f : Function ℕ (App H)) (P : P2pk H → Type 0)
      (k : Unit {0} → Step H (Unit {0}))
      → Settles d x s P (f (holding d x s c))
      → ((c' : P2pk H) → P c' → Reacts s (result_of (k tt (holding d x s c'))).1)
      → Reacts s (result_of (then_do (check_call_result_sw_ok d f (holding d x s c)) k)).1
  unfolding app_set_current_command
  Reacts-call x c f P k (settled c' ok same p) rest = rw ok (rw same (rest c' p))
  Reacts-call x c f P k (refused h same) rest =
      let code = (f (holding d x s c)).0 in
      elim (Bool-cases (code == sw_ok)) [
        | inl e ↦ absurd (h ((==_iff code sw_ok).0 e))
        | inr e ↦ rw e (rw same (Reacts-error code (reset d x s) k h refl))
      ]

  -- The answer behind the calls.
  pub Reacts-answer :
      (x : SignTx H) (c : P2pk H)
      → s.commands_ctx ≡ sign_tx x
      → x.state ≡ approved
      → Keeps x.p2pk c
      → Reacts s (res_ok (holding d x s c))
  Reacts-answer x c context is_approved keeps = went (record {
    before = x;
    after = record x { p2pk = c };
    context = context;
    is_approved = is_approved;
    context' = refl;
    stays_approved = is_approved;
    same_session = refl;
    same_command = refl;
    keeps = keeps;
    replied = inl refl;
  })

  pub Reacts-operate :
      (x : SignTx H) (c : P2pk H) (call : OpCall) (k : Unit {0} → Step H (Unit {0}))
      → ((c' : P2pk H) → Keeps c c' → Reacts s (result_of (k tt (holding d x s c'))).1)
      → Reacts s
          (result_of (then_do (check_call_result_sw_ok d (operate d call) (holding d x s c)) k)).1
  Reacts-operate x c call k rest =
      Reacts-call x c (operate d call) (Moves call c) k (operate-Settles d x s call c)
        (λ c' m. rest c' (Moves-Keeps call c c' m))
