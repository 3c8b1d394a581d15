-- ===== src/SignTx/P2pk/Approval.antt =====
-- Which change outputs stx_op_p2pk.c approves without the user.
use ledger_app_ergo.Prelude.{◌≡◌, true}
use ledger_app_ergo.Common.Bip32.{bip32_hardened, bip32_ergo_coin, address_e5, bip32_path_validate}
use ledger_app_ergo.SignTx.Output.{Bip32Path}
use ledger_app_ergo.SignTx.Context.{P2pk}
use ledger_app_ergo.App.{Device}

module _ {H : Type 0} (d : Device H) where
  -- The path of an address of five parts, for a change output.
  abbrev pub IsChangeAddress : Bip32Path → Type 0
  IsChangeAddress path =
      bip32_path_validate path.path path.len (bip32_hardened 44) (bip32_hardened bip32_ergo_coin)
        address_e5
      ≡ true
