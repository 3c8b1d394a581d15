-- ===== src/SignTx/P2pk/Steps/All.antt =====
-- Every operation of stx_op_p2pk.c.

use ledger_app_ergo.SignTx.Context.{P2pk, SignTx}
use ledger_app_ergo.SignTx.P2pk.Settles.{holding, Settles}
use ledger_app_ergo.App.{App, Device}
use ledger_app_ergo.SignTx.P2pk.Steps.{
  OpCall, start, tokens, input, input_tokens, input_extension, data_inputs, output, tree_chunk,
  tree_fee, tree_change, output_tokens, output_registers, Moves, operate,
}
use ledger_app_ergo.SignTx.P2pk.Steps.Inputs.{
  start-Outcome, tokens-Outcome, input_tokens-Outcome, input_extension-Outcome, data_inputs-Outcome,
  input-Outcome, output-Outcome,
}
use ledger_app_ergo.SignTx.P2pk.Steps.Outputs.{
  tree_chunk-Outcome, tree_fee-Outcome, tree_change-Outcome, output_tokens-Outcome,
  output_registers-Outcome,
}

module _ {H : Type 0} (d : Device H) (x : SignTx H) (s : App H) where
  -- An operation on a transaction, called on any context of a signing, does one of two things. It
  -- returns SW_OK, has changed nothing but the context, has gone from a state in which it is
  -- allowed to the next one, has kept the path, the key and the network, and has reached the
  -- finished state only with the serializer finished. Or it returns an error and leaves no command
  -- and a wiped context, with nothing else changed.
  pub operate-Settles :
      (call : OpCall) (c : P2pk H) → Settles d x s (Moves call c) (operate d call (holding d x s c))
  unfolding operate
  operate-Settles (start i di o t) c = start-Outcome d x s c i di o t
  operate-Settles (tokens b) c = tokens-Outcome d x s c b
  operate-Settles (input id a f e) c = input-Outcome d x s c id a f e
  operate-Settles (input_tokens id i b) c = input_tokens-Outcome d x s c id i b
  operate-Settles (input_extension b) c = input_extension-Outcome d x s c b
  operate-Settles (data_inputs b) c = data_inputs-Outcome d x s c b
  operate-Settles (output v t h k r) c = output-Outcome d x s c v t h k r
  operate-Settles (tree_chunk b) c = tree_chunk-Outcome d x s c b
  operate-Settles tree_fee c = tree_fee-Outcome d x s c
  operate-Settles (tree_change path key) c = tree_change-Outcome d x s c path key
  operate-Settles (output_tokens b) c = output_tokens-Outcome d x s c b
  operate-Settles (output_registers b) c = output_registers-Outcome d x s c b
