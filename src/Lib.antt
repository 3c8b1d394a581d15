-- ===== src/Lib.antt =====
-- The Ledger application of the Ergo platform: the device's side of its commands.
--
-- A client sends a transaction in pieces. The serializers of src/ergo feed the pieces, checked and in
-- the order of the wire format, to the Blake2b hash that is signed; on the way they call back into
-- the components of src/commands/signtx, which sum up what the user is asked to confirm. The signing
-- operation drives them, and the handler of the command parses the messages, checks the session and
-- the approval, and calls the operation; every error wipes the context that both share. The parts
-- lie on top of each other: buffers, number formats and checked arithmetic (src/common), the token
-- table and the scripts, one input, one box, the whole transaction (src/ergo), and the amounts and
-- the output that is shown (src/commands/signtx).
--
-- Before that, the client lets the device attest the boxes that are spent: the box serializer hashes
-- a box, and the command answers with frames that hold its id, value and tokens under a code made
-- with the session key, which the signing command checks when it is given them as inputs. Two more
-- commands give account keys and addresses, at once to the application that is connected and else on
-- the screens. The dispatcher takes a message to the command that it names.
--
-- Files and what they model:
--   Prelude           lists, tests and machine words; Flow, the body of a C function with `return`
--   Sdk               the parts of the Ledger SDK that the code calls, and their documented laws
--   Common.SafeInt    src/common/safeint.h
--   Common.Buffer     src/common/buffer_ext.h and buffer_ext.c
--   Common.RwBuffer   src/common/rwbuffer.h and rwbuffer.c
--   Common.Gve        src/common/gve.h and gve.c; Signed, the signed numbers and zigzag.h
--   Common.Bip32      src/common/bip32_ext.h and bip32_ext.c
--   Helpers.Blake2b   src/helpers/blake2b.c
--   Helpers.Crypto    src/helpers/crypto.c
--   Helpers.Session   src/helpers/session_id.h and src/ergo/network_id.h
--   Helpers.InputFrame  src/helpers/input_frame.c
--   Ergo.TokenTable   token_table_t of src/ergo/tx_ser_table.h
--   Ergo.Table        src/ergo/tx_ser_table.c, the serializer of the table
--   Ergo.ErgoTree     src/ergo/ergo_tree.c
--   Ergo.Memory       the objects that the contexts' pointers lead to
--   Ergo.Input        src/ergo/tx_ser_input.c
--   Ergo.Box          src/ergo/tx_ser_box.c, in Trees, Tokens and Registers
--   Ergo.Full         src/ergo/tx_ser_full.c, in Inputs and Outputs
--   Ergo.Schnorr      src/ergo/schnorr.c
--   Ergo.Address      src/ergo/address.c
--   Sw                src/sw.h and src/helpers/sw_result.h
--   SignTx.Amounts    src/commands/signtx/stx_amounts.c
--   SignTx.Output     src/commands/signtx/stx_output.c
--   SignTx.Context    stx_op_p2pk.h, stx_types.h and stx_context.h of src/commands/signtx
--   SignTx.P2pk       src/commands/signtx/operations/stx_op_p2pk.c, in Inputs, Outputs, Confirm and
--                     Screens
--   SignTx.Ui         src/commands/signtx/stx_ui_bagl.c, without the texts
--   SignTx.Handler    src/commands/signtx/stx_handler.c, in Outputs and Dispatch
--   AttestInput       src/commands/attestinput: Context, ainpt_context.h; Response, ainpt_response.c;
--                     Handler, the callback, the end of a box and ainpt_ui_bagl.c; Messages, the
--                     handlers of ainpt_handler.c and the switch over them
--   ExtPubKey         src/commands/extpubkey, of the build with HAVE_BAGL
--   DeriveAddress     src/commands/deriveaddress, of the build with HAVE_BAGL
--   Helpers.CmdMacros src/helpers/cmd_macros.h, as these commands use it
--   Dispatcher        src/apdu_dispatcher.c, src/commands/app_name.c and app_version.c
--   Menu              src/ui/ui_menu_bagl.c, without the texts and the page about the application, and
--                     the rejection of blind signing of stx_op_p2pk.c
--   App               src/context.c and src/helpers/response.h
--   Examples          concrete devices, and runs at concrete inputs
-- The other modules below these hold lemmas.
--
-- A function keeps its name. One that changes objects takes their state and returns it with the
-- result; a context's pointers to the hash, the token table and a callback's data are one memory that
-- is passed along with the context, so that all that point to an object see its changes. A `union` is
-- a data type of what was stored last; a read of another member goes through a parameter. Integers
-- are natural numbers with the wrap-around of their width written out, and an int64_t is its two's
-- complement pattern.
--
-- The handlers work on the whole application, as the code does on G_app_context. A reply is put in
-- front of the list of those sent. Dispatcher.Machine runs them one after the other: messages, the
-- user's choices on the screens, the ways out of the warning on blind signing and the switch of the
-- settings, in any order.
--
-- Parameters: the SDK's buffer, hash and cryptographic functions (Sdk, Sdk.Crypto), the layout of a
-- union that is read through another member (Layout of Ergo.Full, `hash_of` of SignTx.Output), and the
-- bytes of a uint32_t in memory (`word_bytes` of Common.Bip32). Device of App holds them for the
-- handlers, with the hash context of zero bytes, the test whether a path is formatted for the screen,
-- the length of an address in Base58 (which the SDK makes), the stores of numbers of several
-- bytes of write.h, the size of the buffer of answers, the name and the version numbers that the build
-- sets, and the two reads of the attestation's union through its other member. The bytes of the random generator are a list in App, the next one first; a loop that draws
-- until a byte suits runs over that list.
--
-- Bounds: loops over an array count its places. A loop that reads a buffer to its end runs for as many
-- rounds as the buffer has unread bytes, and each round reads one at least. The loop of gve_put_u64
-- has the ten places of its array, and that of gve_get_u64 ten rounds, since its shift grows by seven
-- up to 64. The loop of schnorr.c has its 100 rounds.
--
-- Not modelled: the texts of the screens and the build without HAVE_BAGL; elliptic-curve arithmetic,
-- which the SDK provides; the event loop, the page about the
-- application in the menu and quitting; the fuzzing harness and the tests.
pub mod Prelude
pub mod Sdk
pub mod Common
pub mod Helpers
pub mod Ergo
pub mod Sw
pub mod App
pub mod SignTx
pub mod Examples
pub mod AttestInput
pub mod ExtPubKey
pub mod DeriveAddress
pub mod Dispatcher
pub mod Menu
