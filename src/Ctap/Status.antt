-- ===== src/Ctap/Status.antt =====
-- The status codes of src/ctap/status_code.rs, those of the feature with_ctap2_1 included.
use open_sk.Common.{ℕ}

pub data Ctap2StatusCode : Type 0 where
  ctap2_ok ctap1_err_invalid_command ctap1_err_invalid_parameter : Ctap2StatusCode
  ctap1_err_invalid_length ctap1_err_invalid_seq ctap1_err_timeout : Ctap2StatusCode
  ctap1_err_channel_busy ctap1_err_lock_required ctap1_err_invalid_channel : Ctap2StatusCode
  ctap2_err_cbor_unexpected_type ctap2_err_invalid_cbor : Ctap2StatusCode
  ctap2_err_missing_parameter ctap2_err_limit_exceeded : Ctap2StatusCode
  ctap2_err_unsupported_extension ctap2_err_fp_database_full : Ctap2StatusCode
  ctap2_err_pc_storage_full ctap2_err_credential_excluded : Ctap2StatusCode
  ctap2_err_processing ctap2_err_invalid_credential : Ctap2StatusCode
  ctap2_err_user_action_pending ctap2_err_operation_pending : Ctap2StatusCode
  ctap2_err_no_operations ctap2_err_unsupported_algorithm : Ctap2StatusCode
  ctap2_err_operation_denied ctap2_err_key_store_full : Ctap2StatusCode
  ctap2_err_no_operation_pending ctap2_err_unsupported_option : Ctap2StatusCode
  ctap2_err_invalid_option ctap2_err_keepalive_cancel : Ctap2StatusCode
  ctap2_err_no_credentials ctap2_err_user_action_timeout : Ctap2StatusCode
  ctap2_err_not_allowed ctap2_err_pin_invalid ctap2_err_pin_blocked : Ctap2StatusCode
  ctap2_err_pin_auth_invalid ctap2_err_pin_auth_blocked ctap2_err_pin_not_set : Ctap2StatusCode
  ctap2_err_pin_required ctap2_err_pin_policy_violation : Ctap2StatusCode
  ctap2_err_pin_token_expired ctap2_err_request_too_large : Ctap2StatusCode
  ctap2_err_action_timeout ctap2_err_up_required ctap2_err_uv_blocked : Ctap2StatusCode
  ctap2_err_integrity_failure ctap2_err_invalid_subcommand ctap1_err_other : Ctap2StatusCode
  ctap2_err_spec_last ctap2_err_extension_first ctap2_err_extension_last : Ctap2StatusCode
  ctap2_err_vendor_response_too_long : Ctap2StatusCode
  ctap2_err_vendor_response_cannot_write_cbor ctap2_err_vendor_internal_error : Ctap2StatusCode
  ctap2_err_vendor_hardware_failure ctap2_err_vendor_last : Ctap2StatusCode

-- `as u8`
unfoldable pub status_byte : Ctap2StatusCode → ℕ
status_byte ctap2_ok = 0x00
status_byte ctap1_err_invalid_command = 0x01
status_byte ctap1_err_invalid_parameter = 0x02
status_byte ctap1_err_invalid_length = 0x03
status_byte ctap1_err_invalid_seq = 0x04
status_byte ctap1_err_timeout = 0x05
status_byte ctap1_err_channel_busy = 0x06
status_byte ctap1_err_lock_required = 0x0a
status_byte ctap1_err_invalid_channel = 0x0b
status_byte ctap2_err_cbor_unexpected_type = 0x11
status_byte ctap2_err_invalid_cbor = 0x12
status_byte ctap2_err_missing_parameter = 0x14
status_byte ctap2_err_limit_exceeded = 0x15
status_byte ctap2_err_unsupported_extension = 0x16
status_byte ctap2_err_fp_database_full = 0x17
status_byte ctap2_err_pc_storage_full = 0x18
status_byte ctap2_err_credential_excluded = 0x19
status_byte ctap2_err_processing = 0x21
status_byte ctap2_err_invalid_credential = 0x22
status_byte ctap2_err_user_action_pending = 0x23
status_byte ctap2_err_operation_pending = 0x24
status_byte ctap2_err_no_operations = 0x25
status_byte ctap2_err_unsupported_algorithm = 0x26
status_byte ctap2_err_operation_denied = 0x27
status_byte ctap2_err_key_store_full = 0x28
status_byte ctap2_err_no_operation_pending = 0x2a
status_byte ctap2_err_unsupported_option = 0x2b
status_byte ctap2_err_invalid_option = 0x2c
status_byte ctap2_err_keepalive_cancel = 0x2d
status_byte ctap2_err_no_credentials = 0x2e
status_byte ctap2_err_user_action_timeout = 0x2f
status_byte ctap2_err_not_allowed = 0x30
status_byte ctap2_err_pin_invalid = 0x31
status_byte ctap2_err_pin_blocked = 0x32
status_byte ctap2_err_pin_auth_invalid = 0x33
status_byte ctap2_err_pin_auth_blocked = 0x34
status_byte ctap2_err_pin_not_set = 0x35
status_byte ctap2_err_pin_required = 0x36
status_byte ctap2_err_pin_policy_violation = 0x37
status_byte ctap2_err_pin_token_expired = 0x38
status_byte ctap2_err_request_too_large = 0x39
status_byte ctap2_err_action_timeout = 0x3a
status_byte ctap2_err_up_required = 0x3b
status_byte ctap2_err_uv_blocked = 0x3c
status_byte ctap2_err_integrity_failure = 0x3d
status_byte ctap2_err_invalid_subcommand = 0x3e
status_byte ctap1_err_other = 0x7f
status_byte ctap2_err_spec_last = 0xdf
status_byte ctap2_err_extension_first = 0xe0
status_byte ctap2_err_extension_last = 0xef
status_byte ctap2_err_vendor_response_too_long = 0xf0
status_byte ctap2_err_vendor_response_cannot_write_cbor = 0xf1
status_byte ctap2_err_vendor_internal_error = 0xf2
status_byte ctap2_err_vendor_hardware_failure = 0xf3
status_byte ctap2_err_vendor_last = 0xff
