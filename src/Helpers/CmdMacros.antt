-- ===== src/Helpers/CmdMacros.antt =====
-- src/helpers/cmd_macros.h: the checks of the handlers, over what the command does on an error, and the
-- replies of src/helpers/response.h as the ends of a handler.
pub mod Answers
use ledger_app_ergo.Prelude.{ℕ, Bool, Option, none, some, ◌==◌, not}
use ledger_app_ergo.Prelude.Flow.{stop, Body, Function, ◌>>=◌, pure, when, call}
use ledger_app_ergo.Sdk.{Buffer, BufferSdk}
use ledger_app_ergo.Sw.{sw_not_enough_data, sw_too_much_data, sw_buffer_error}
use ledger_app_ergo.App.{App, cmd_none, app_set_current_command, res_error}

-- A handler sends its reply; the value that it returns is the one of the sending.
abbrev pub Step : Type 0 → Type 0 → Type 0
Step H A = Body (Unit {0}) (App H) A

module _ {H : Type 0} where
  -- `return f(...);` where `f` sends the reply.
  abbrev pub ret_with : {A : Type 0} → (App H → App H) → Step H A
  ret_with f s = stop tt (f s)

  -- The handlers of an error that keep no context: `app_set_current_command(CMD_NONE)` and the word.
  unfoldable pub reset_with : ℕ → App H → App H
  unfolding app_set_current_command
  reset_with err s = res_error err (app_set_current_command cmd_none s)

  -- `CHECK_WRITE_PARAM`, with `send_error` as the handler of an error.
  abbrev pub check_write_param : {A : Type 0} → Option A → Step H A
  check_write_param none = ret_with (reset_with sw_buffer_error)
  check_write_param (some a) = pure a

  module _ (on_error : ℕ → App H → App H) where
    abbrev pub check_read_param : {A : Type 0} → Option A → Step H A
    check_read_param none = ret_with (on_error sw_not_enough_data)
    check_read_param (some a) = pure a

    abbrev pub check_params_finished : BufferSdk → Buffer → Step H (Unit {0})
    check_params_finished bufs cdata =
        when (bufs.can_read cdata 1) (ret_with (on_error sw_too_much_data))
