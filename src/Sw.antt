-- ===== src/Sw.antt =====
-- src/sw.h and src/helpers/sw_result.h: the status words that answer a command.
use ledger_app_ergo.Prelude.{ℕ}
use ledger_app_ergo.Ergo.Box.{BoxResult}
use ledger_app_ergo.Ergo.Full.{FullResult}

abbrev pub sw_ok : ℕ
sw_ok = 0x9000

abbrev pub sw_deny : ℕ
sw_deny = 0x6985

abbrev pub sw_wrong_p1p2 : ℕ
sw_wrong_p1p2 = 0x6a86

abbrev pub sw_wrong_apdu_data_length : ℕ
sw_wrong_apdu_data_length = 0x6a87

abbrev pub sw_ins_not_supported : ℕ
sw_ins_not_supported = 0x6d00

abbrev pub sw_cla_not_supported : ℕ
sw_cla_not_supported = 0x6e00

abbrev pub sw_busy : ℕ
sw_busy = 0xb000

abbrev pub sw_wrong_response_length : ℕ
sw_wrong_response_length = 0xb001

abbrev pub sw_bad_session_id : ℕ
sw_bad_session_id = 0xb002

abbrev pub sw_wrong_subcommand : ℕ
sw_wrong_subcommand = 0xb003

abbrev pub sw_screens_buffer_overflow : ℕ
sw_screens_buffer_overflow = 0xb004

abbrev pub sw_bad_state : ℕ
sw_bad_state = 0xb0ff

abbrev pub sw_bad_token_id : ℕ
sw_bad_token_id = 0xe001

abbrev pub sw_bad_token_value : ℕ
sw_bad_token_value = 0xe002

abbrev pub sw_bad_context_extension_size : ℕ
sw_bad_context_extension_size = 0xe003

abbrev pub sw_bad_data_input : ℕ
sw_bad_data_input = 0xe004

abbrev pub sw_bad_box_id : ℕ
sw_bad_box_id = 0xe005

abbrev pub sw_bad_token_index : ℕ
sw_bad_token_index = 0xe006

abbrev pub sw_bad_frame_index : ℕ
sw_bad_frame_index = 0xe007

abbrev pub sw_bad_input_count : ℕ
sw_bad_input_count = 0xe008

abbrev pub sw_bad_output_count : ℕ
sw_bad_output_count = 0xe009

abbrev pub sw_too_many_tokens : ℕ
sw_too_many_tokens = 0xe00a

abbrev pub sw_too_many_inputs : ℕ
sw_too_many_inputs = 0xe00b

abbrev pub sw_too_many_data_inputs : ℕ
sw_too_many_data_inputs = 0xe00c

abbrev pub sw_too_many_input_frames : ℕ
sw_too_many_input_frames = 0xe00d

abbrev pub sw_too_many_outputs : ℕ
sw_too_many_outputs = 0xe00e

abbrev pub sw_hasher_error : ℕ
sw_hasher_error = 0xe00f

abbrev pub sw_buffer_error : ℕ
sw_buffer_error = 0xe010

abbrev pub sw_u64_overflow : ℕ
sw_u64_overflow = 0xe011

abbrev pub sw_bip32_bad_path : ℕ
sw_bip32_bad_path = 0xe012

abbrev pub sw_internal_crypto_error : ℕ
sw_internal_crypto_error = 0xe013

abbrev pub sw_not_enough_data : ℕ
sw_not_enough_data = 0xe014

abbrev pub sw_too_much_data : ℕ
sw_too_much_data = 0xe015

abbrev pub sw_address_generation_failed : ℕ
sw_address_generation_failed = 0xe016

abbrev pub sw_schnorr_signing_failed : ℕ
sw_schnorr_signing_failed = 0xe017

abbrev pub sw_bad_frame_signature : ℕ
sw_bad_frame_signature = 0xe018

abbrev pub sw_bad_net_type_value : ℕ
sw_bad_net_type_value = 0xe019

abbrev pub sw_small_chunk : ℕ
sw_small_chunk = 0xe01a

abbrev pub sw_bip32_formatting_failed : ℕ
sw_bip32_formatting_failed = 0xe101

abbrev pub sw_address_formatting_failed : ℕ
sw_address_formatting_failed = 0xe102

abbrev pub sw_from_tx_full_result : FullResult → ℕ
sw_from_tx_full_result FullResult.ok = sw_ok
sw_from_tx_full_result FullResult.more_data = sw_ok
sw_from_tx_full_result FullResult.err_bad_token_id = sw_bad_token_id
sw_from_tx_full_result FullResult.err_bad_token_value = sw_bad_token_value
sw_from_tx_full_result FullResult.err_bad_context_extension_size = sw_bad_context_extension_size
sw_from_tx_full_result FullResult.err_bad_data_input = sw_bad_data_input
sw_from_tx_full_result FullResult.err_bad_input_id = sw_bad_box_id
sw_from_tx_full_result FullResult.err_bad_token_index = sw_bad_token_index
sw_from_tx_full_result FullResult.err_bad_frame_index = sw_bad_frame_index
sw_from_tx_full_result FullResult.err_bad_input_count = sw_bad_input_count
sw_from_tx_full_result FullResult.err_bad_output_count = sw_bad_output_count
sw_from_tx_full_result FullResult.err_too_many_tokens = sw_too_many_tokens
sw_from_tx_full_result FullResult.err_too_many_inputs = sw_too_many_inputs
sw_from_tx_full_result FullResult.err_too_many_data_inputs = sw_too_many_data_inputs
sw_from_tx_full_result FullResult.err_too_many_input_frames = sw_too_many_input_frames
sw_from_tx_full_result FullResult.err_too_many_outputs = sw_too_many_outputs
sw_from_tx_full_result FullResult.err_too_much_data = sw_too_much_data
sw_from_tx_full_result FullResult.err_hasher = sw_hasher_error
sw_from_tx_full_result FullResult.err_buffer = sw_buffer_error
sw_from_tx_full_result FullResult.err_bad_state = sw_bad_state
sw_from_tx_full_result FullResult.err_u64_overflow = sw_u64_overflow
sw_from_tx_full_result FullResult.err_small_chunk = sw_small_chunk

abbrev pub sw_from_tx_box_result : BoxResult → ℕ
sw_from_tx_box_result BoxResult.ok = sw_ok
sw_from_tx_box_result BoxResult.more_data = sw_ok
sw_from_tx_box_result BoxResult.err_bad_token_index = sw_bad_token_index
sw_from_tx_box_result BoxResult.err_bad_token_id = sw_bad_token_id
sw_from_tx_box_result BoxResult.err_bad_token_value = sw_bad_token_value
sw_from_tx_box_result BoxResult.err_too_many_tokens = sw_too_many_tokens
sw_from_tx_box_result BoxResult.err_too_much_data = sw_too_much_data
sw_from_tx_box_result BoxResult.err_hasher = sw_hasher_error
sw_from_tx_box_result BoxResult.err_buffer = sw_buffer_error
sw_from_tx_box_result BoxResult.err_bad_state = sw_bad_state
sw_from_tx_box_result BoxResult.err_u64_overflow = sw_u64_overflow
sw_from_tx_box_result BoxResult.err_small_chunk = sw_small_chunk
