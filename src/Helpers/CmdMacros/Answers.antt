-- ===== src/Helpers/CmdMacros/Answers.antt =====
-- How a handler ends: with one reply, or with the screens waiting for the user.
use ledger_app_ergo.Prelude.{
  ◌⊎◌, inl, inr, Bool, sym, ap, if◌then◌else◌, ℕ, ◌≡◌, refl, true, false, ◌∷◌, Option, none, some,
}
use ledger_app_ergo.Sdk.{Buffer, BufferSdk}
use ledger_app_ergo.Prelude.Flow.{then_do, result_of}
use ledger_app_ergo.Sw.{sw_not_enough_data, sw_buffer_error}
use ledger_app_ergo.Helpers.CmdMacros.{Step, reset_with, check_read_param, check_write_param}
use ledger_app_ergo.SignTx.Ui.{is_short_of, ui_display_screens}
use ledger_app_ergo.App.{App, Reply, send_sw, app_set_current_command}

-- The optional token of a message: the next 32-bit number where one is announced, and else 0.
abbrev pub TokenRead :
    BufferSdk → (has_token : Bool) → Buffer → (token : ℕ) → (rest : Buffer) → Type 0
TokenRead bufs has_token b token rest =
    ((has_token ≡ true) × (bufs.read_u32 b ≡ some (token, rest)))
    ⊎ ((has_token ≡ false) × (token ≡ 0) × (rest ≡ b))

or_else : {A : Type 0} → A → Option A → A
or_else a none = a
or_else a (some b) = b

pub token-TokenRead :
    (bufs : BufferSdk) (has_token : Bool) (b : Buffer) (t : ℕ × Buffer)
    → (if has_token then bufs.read_u32 b else some (0, b)) ≡ some t
    → TokenRead bufs has_token b t.0 t.1
unfolding or_else
token-TokenRead bufs true b t e = inl (refl, e)
token-TokenRead bufs false b t e =
    let e' : t ≡ (0, b) = sym (ap (or_else t) e) in
    inr (refl, ap (λ (x : ℕ × Buffer). x.0) e', ap (λ (x : ℕ × Buffer). x.1) e')

-- Exactly one reply more has been sent, or none yet and the screens wait for the user.
pub data Answered {H : Type 0} (s s' : App H) : Type 0 where
  replied : (reply : Reply) → s'.sent ≡ reply ∷ s.sent → Answered s s'
  waits : s'.sent ≡ s.sent → s'.is_ui_busy ≡ true → Answered s s'

module _ {H : Type 0} where
  pub reset-Answered :
      (s s1 : App H) (code : ℕ) → s1.sent ≡ s.sent → Answered s (reset_with code s1)
  unfolding reset_with app_set_current_command
  reset-Answered s s1 code same = replied (send_sw code) (rw same)

  module _ (F : (Unit {0}) × App H → Type 0) where
    -- A parameter of the message.
    pub Ends-read :
        {A : Type 0} (on_error : ℕ → App H → App H) (o : Option A) (s : App H)
        (k : A → Step H (Unit {0}))
        → F (tt, on_error sw_not_enough_data s)
        → ((a : A) → o ≡ some a → F (result_of (k a s)))
        → F (result_of (then_do (check_read_param on_error o s) k))
    Ends-read on_error none s k fails rest = fails
    Ends-read on_error (some a) s k fails rest = rest a refl

    -- A write of the reply.
    pub Ends-write :
        {A : Type 0} (o : Option A) (s : App H) (k : A → Step H (Unit {0}))
        → F (tt, reset_with sw_buffer_error s)
        → ((a : A) → o ≡ some a → F (result_of (k a s)))
        → F (result_of (then_do (check_write_param o s) k))
    Ends-write none s k fails rest = fails
    Ends-write (some a) s k fails rest = rest a refl

-- Screens that leave room for the two last steps are displayed.
pub shown-Answered :
    {H : Type 0} (s s1 : App H) (position : ℕ)
    → is_short_of 2 position ≡ false
    → s1.sent ≡ s.sent
    → Answered s (ui_display_screens position s1).1
unfolding ui_display_screens
shown-Answered s s1 position room same = rw room (waits same refl)
