-- ===== src/SignTx/P2pk/Confirm.antt =====
-- src/commands/signtx/operations/stx_op_p2pk.c: which outputs are shown.
use ledger_app_ergo.Prelude.{
  ◌+◌, ◌%◌, Bool, true, false, ltb, ◌==◌, not, ◌&&◌, if◌then◌else◌, u32_mod,
}
use ledger_app_ergo.Common.Bip32.{
  bip32_hardened, bip32_ergo_coin, address_e5, bip32_path_validate, bip32_path_is_equal,
  bip32_path_same_account, at,
}
use ledger_app_ergo.SignTx.Output.{
  OutputInfo, TreeInfo, Bip32Path, bip32, address, miners_fee, has_type, is_finished,
  stx_output_info_used_tokens_count,
}
use ledger_app_ergo.SignTx.Context.{P2pk}
use ledger_app_ergo.SignTx.P2pk.{is_outputs_started, is_tx_finished}
use ledger_app_ergo.App.{Device}

module _ {H : Type 0} where
  unfoldable pub is_blind_signing_tx : OutputInfo H → Bool
  is_blind_signing_tx output =
      not (has_type bip32 output.state)
      && not (has_type address output.state)
      && not (has_type miners_fee output.state)

  -- `bip32_path` of the union.
  abbrev pub path_view : (TreeInfo H → Bip32Path) → TreeInfo H → Bip32Path
  path_view path_of (TreeInfo.bip32_path path) = path
  path_view path_of other = path_of other

module _ {H : Type 0} (d : Device H) where
  abbrev pub stx_bip32_path_is_equal : Bip32Path → Bip32Path → Bool
  stx_bip32_path_is_equal p1 p2 = bip32_path_is_equal d.word_bytes p1.path p1.len p2.path p2.len

  abbrev pub stx_bip32_path_same_account : Bip32Path → Bip32Path → Bool
  stx_bip32_path_same_account p1 p2 =
      bip32_path_same_account d.word_bytes p1.path p1.len p2.path p2.len

  -- The part for a change output, by its path.
  unfoldable pub should_show_change : Bip32Path → P2pk H → Bool
  unfolding bip32_path_validate bip32_path_is_equal bip32_path_same_account
  should_show_change path ctx =
      if not (
        bip32_path_validate path.path path.len (bip32_hardened 44) (bip32_hardened bip32_ergo_coin)
          address_e5)
      then true
      else (if stx_bip32_path_is_equal path ctx.last_approved_change
          then false
          else (if stx_bip32_path_same_account path ctx.bip32
                && (at path.path 3 == at ctx.bip32.path 3)
                && ltb (at path.path 4) ((at ctx.bip32.path 4 + 20) % u32_mod)
              then false
              else true))

  unfoldable pub stx_operation_p2pk_should_show_output_confirm_screen : P2pk H → Bool
  unfolding is_finished stx_output_info_used_tokens_count should_show_change
  stx_operation_p2pk_should_show_output_confirm_screen ctx =
      let output = ctx.mem.shared.env.output in
      if not (is_outputs_started ctx.state) && not (is_tx_finished ctx.state)
      then false
      else (if not (is_finished output.state)
          then false
          else (if has_type miners_fee output.state
              then ltb 0 (stx_output_info_used_tokens_count output)
              else (if has_type bip32 output.state
                  then should_show_change (path_view d.path_of output.info) ctx
                  else true)))
