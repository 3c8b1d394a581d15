-- ===== src/Menu.antt =====
-- src/ui/ui_menu_bagl.c, without the texts, and the rejection of blind signing of
-- src/commands/signtx/operations/stx_op_p2pk.c.
use ledger_app_ergo.Prelude.{Bool, true, false, not}
use ledger_app_ergo.SignTx.Ui.{next_screen, ui_display_screens}
use ledger_app_ergo.App.{App, app_set_ui_busy, res_deny}

module _ {H : Type 0} where
  abbrev pub ui_menu_main : App H → App H
  ui_menu_main s =
      let screen = next_screen (next_screen (next_screen (next_screen 0))) in
      app_set_ui_busy false (ui_display_screens screen s).1

  -- One screen shows the setting, and one leads back.
  abbrev pub ui_menu_settings : App H → App H
  ui_menu_settings s = app_set_ui_busy false (ui_display_screens (next_screen (next_screen 0)) s).1

  unfoldable pub toggle_blind_signing : App H → App H
  unfolding ui_display_screens
  toggle_blind_signing s =
      ui_menu_settings (record s { blind_signing_enabled = not s.blind_signing_enabled })

  -- The two ways out of the warning that blind signing is not enabled. The command and its context
  -- stay.
  unfoldable pub blind_signing_callback : (is_settings : Bool) → App H → App H
  unfolding ui_display_screens
  blind_signing_callback true s = ui_menu_settings (res_deny s)
  blind_signing_callback false s = ui_menu_main (res_deny s)
