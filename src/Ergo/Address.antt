-- ===== src/Ergo/Address.antt =====
-- src/ergo/address.h and address.c: the bytes of an address, with their checksum. The state is the
-- buffer over the array `address` of the caller.
pub mod Pieces
pub mod Layout
use ledger_app_ergo.Prelude.{
  ℕ, ◌+◌, ◌-◌, ◌%◌, ◌==◌, Bool, true, false, List, [], ◌∷◌, Option, none, some, get_or, take, drop,
  bit_and, not, if◌then◌else◌,
}
use ledger_app_ergo.Prelude.Flow.{
  Flow, stop, go, Body, ◌>>=◌, ◌>>◌, ret, call, when, Function, function,
}
use ledger_app_ergo.Sdk.{HashSdk}
use ledger_app_ergo.Common.RwBuffer.{
  RwBuffer, rw_buffer_init, rw_buffer_read_ptr, rw_buffer_data_len, rw_buffer_write_u8,
  rw_buffer_write_bytes,
}
use ledger_app_ergo.Helpers.Blake2b.{blake2b_256}
use ledger_app_ergo.Helpers.Session.{network_id_is_valid}
use ledger_app_ergo.Ergo.ErgoTree.{compressed_public_key_len, p2sh_hash_len}

abbrev pub address_checksum_len : ℕ
address_checksum_len = 4

abbrev address_prefix_len : ℕ
address_prefix_len = 1

abbrev pub p2pk_address_len : ℕ
p2pk_address_len = compressed_public_key_len + address_prefix_len + address_checksum_len

abbrev pub p2sh_address_len : ℕ
p2sh_address_len = p2sh_hash_len + address_prefix_len + address_checksum_len

pub data ErgoAddressType : Type 0 where
  p2pk : ErgoAddressType
  p2sh : ErgoAddressType
  p2s : ErgoAddressType

abbrev pub type_value : ErgoAddressType → ℕ
type_value p2pk = 0x01
type_value p2sh = 0x02
type_value p2s = 0x03

-- The first byte of an address: a `uint8_t`.
abbrev pub prefix_byte : ErgoAddressType → ℕ → ℕ
prefix_byte type network = (type_value type + network) % 256

abbrev pub written_or_false : RwBuffer → Option RwBuffer → Flow Bool RwBuffer (Unit {0})
written_or_false b none = stop false b
written_or_false b (some b') = go tt b'

-- `if (!rw_buffer_write_u8(&buffer, ...)) { return false; }`
unfoldable pub write_u8_or_false : ℕ → Body Bool RwBuffer (Unit {0})
unfolding rw_buffer_write_u8
write_u8_or_false x b = written_or_false b (rw_buffer_write_u8 b x)

-- `if (!rw_buffer_write_bytes(&buffer, ...)) { return false; }`
unfoldable pub write_bytes_or_false : List ℕ → ℕ → Body Bool RwBuffer (Unit {0})
unfolding rw_buffer_write_bytes
write_bytes_or_false from from_len b = written_or_false b (rw_buffer_write_bytes b from from_len)

-- What the function leaves in the array.
abbrev pub array_of : Bool × RwBuffer → Bool × List ℕ
array_of r = (r.0, r.1.read.ptr)

-- The key as it is, or the parity of its last byte and the first half behind its first byte.
unfoldable pub write_key :
    (public_key : List ℕ) → (is_compressed : Bool) → Body Bool RwBuffer (Unit {0})
unfolding write_u8_or_false write_bytes_or_false
write_key public_key true = write_bytes_or_false public_key compressed_public_key_len
write_key public_key false = do
  write_u8_or_false (if bit_and (get_or public_key 64 0) 1 == 0 then 0x02 else 0x03)
  write_bytes_or_false (drop 1 public_key) (compressed_public_key_len - 1)

module _ {H : Type 0} (sdk : HashSdk H) where
  -- The hash of what has been written.
  abbrev hash_or_false : Body Bool RwBuffer (List ℕ)
  hash_or_false b =
      let (ok, hash) = blake2b_256 sdk (take (rw_buffer_data_len b) (rw_buffer_read_ptr b)) in
      if not ok then stop false b else go hash b

  -- The end of both functions: of the hash four bytes are appended.
  unfoldable pub write_checksum : Function Bool RwBuffer
  unfolding write_bytes_or_false blake2b_256
  write_checksum =
      function do hash ← hash_or_false; write_bytes_or_false hash address_checksum_len; ret true

  abbrev pub from_pubkey : (network : ℕ) → List ℕ → (is_compressed : Bool) → Function Bool RwBuffer
  from_pubkey network public_key is_compressed = function do
    when (not (network_id_is_valid network)) (ret false)
    write_u8_or_false (prefix_byte p2pk network)
    write_key public_key is_compressed
    call write_checksum

  abbrev pub from_script_hash : (network : ℕ) → List ℕ → Function Bool RwBuffer
  from_script_hash network hash = function do
    when (not (network_id_is_valid network)) (ret false)
    write_u8_or_false (prefix_byte p2sh network)
    write_bytes_or_false hash p2sh_hash_len
    call write_checksum

  -- The result and the array.
  unfoldable pub ergo_address_from_pubkey : ℕ → List ℕ → List ℕ → Bool × List ℕ
  unfolding write_u8_or_false write_key write_checksum
  ergo_address_from_pubkey network public_key address =
      array_of (from_pubkey network public_key false (rw_buffer_init address p2pk_address_len 0))

  unfoldable pub ergo_address_from_compressed_pubkey : ℕ → List ℕ → List ℕ → Bool × List ℕ
  unfolding write_u8_or_false write_key write_checksum
  ergo_address_from_compressed_pubkey network public_key address =
      array_of (from_pubkey network public_key true (rw_buffer_init address p2pk_address_len 0))

  unfoldable pub ergo_address_from_script_hash : ℕ → List ℕ → List ℕ → Bool × List ℕ
  unfolding write_u8_or_false write_bytes_or_false write_checksum
  ergo_address_from_script_hash network hash address =
      array_of (from_script_hash network hash (rw_buffer_init address p2sh_address_len 0))
