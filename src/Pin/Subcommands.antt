-- ===== src/Pin/Subcommands.antt =====
-- `process_subcommand` of src/ctap/pin_protocol_v1.rs.
use open_sk.Common.{Option, none, some, ◌==◌, if◌then◌else◌}
use open_sk.Common.Results.{ok_or}
use open_sk.Common.Actions.{◌>>=◌, done, fail, reading}
use open_sk.Ctap.Status.{ctap1_err_invalid_parameter, ctap2_err_missing_parameter}
use open_sk.Formats.Commands.{AuthenticatorClientPinParameters, ClientPinSubCommand}
use open_sk.Formats.Commands.{get_pin_retries, get_key_agreement, set_pin, change_pin}
use open_sk.Formats.Commands.{get_pin_token, get_pin_uv_auth_token_using_uv_with_permissions}
use open_sk.Formats.Commands.{get_uv_retries, set_min_pin_length}
use open_sk.Formats.Commands.{get_pin_uv_auth_token_using_pin_with_permissions}
use open_sk.Formats.Responses.{ResponseData, client_pin}
use open_sk.Pin.Secrets.{PinPrimitives}
use open_sk.Pin.Verify.{Call}
use open_sk.Pin.Token.{Response, process_get_pin_retries, process_get_key_agreement}
use open_sk.Pin.Token.{process_set_pin, process_change_pin, process_get_pin_token}
use open_sk.Pin.Token.{process_get_pin_uv_auth_token_using_uv_with_permissions}
use open_sk.Pin.Token.{process_get_uv_retries, process_set_min_pin_length}
use open_sk.Pin.Token.{process_get_pin_uv_auth_token_using_pin_with_permissions}

module _ (p : PinPrimitives) where
  -- `ok_or(CTAP2_ERR_MISSING_PARAMETER)?`
  abbrev pub present : {A : Type 0} → Option A → Call p A
  present o = reading (λ _. ok_or o ctap2_err_missing_parameter)

  -- A subcommand that answers with data, and one that does not.
  abbrev pub answering : Call p Response → Call p (Option Response)
  answering call = do response ← call; done (some response)

  abbrev pub silent : Call p (Unit {0}) → Call p (Option Response)
  silent call = do _ ← call; done none

  abbrev pub Parameters : Type 0
  Parameters = AuthenticatorClientPinParameters

  unfoldable pub run_set_pin : Parameters → Call p (Unit {0})
  run_set_pin params = do
    key_agreement ← present params.key_agreement
    pin_auth ← present params.pin_auth
    new_pin_enc ← present params.new_pin_enc
    process_set_pin p key_agreement pin_auth new_pin_enc

  unfoldable pub run_change_pin : Parameters → Call p (Unit {0})
  run_change_pin params = do
    key_agreement ← present params.key_agreement
    pin_auth ← present params.pin_auth
    new_pin_enc ← present params.new_pin_enc
    pin_hash_enc ← present params.pin_hash_enc
    process_change_pin p key_agreement pin_auth new_pin_enc pin_hash_enc

  unfoldable pub run_get_pin_token : Parameters → Call p Response
  run_get_pin_token params = do
    key_agreement ← present params.key_agreement
    pin_hash_enc ← present params.pin_hash_enc
    process_get_pin_token p key_agreement pin_hash_enc

  unfoldable pub run_uv_token : Parameters → Call p Response
  run_uv_token params = do
    key_agreement ← present params.key_agreement
    permissions ← present params.permissions
    process_get_pin_uv_auth_token_using_uv_with_permissions p key_agreement permissions
        params.permissions_rp_id

  unfoldable pub run_set_min_pin_length : Parameters → Call p (Unit {0})
  run_set_min_pin_length params = do
    min_length ← present params.min_pin_length
    process_set_min_pin_length p min_length params.min_pin_length_rp_ids params.pin_auth

  unfoldable pub run_pin_token : Parameters → Call p Response
  run_pin_token params = do
    key_agreement ← present params.key_agreement
    pin_hash_enc ← present params.pin_hash_enc
    permissions ← present params.permissions
    process_get_pin_uv_auth_token_using_pin_with_permissions p key_agreement pin_hash_enc
        permissions params.permissions_rp_id

  unfoldable pub run_subcommand : ClientPinSubCommand → Parameters → Call p (Option Response)
  run_subcommand get_pin_retries params = answering (process_get_pin_retries p)
  run_subcommand get_key_agreement params = answering (process_get_key_agreement p)
  run_subcommand set_pin params = silent (run_set_pin params)
  run_subcommand change_pin params = silent (run_change_pin params)
  run_subcommand get_pin_token params = answering (run_get_pin_token params)
  run_subcommand get_pin_uv_auth_token_using_uv_with_permissions params =
      answering (run_uv_token params)
  run_subcommand get_uv_retries params = answering (process_get_uv_retries p)
  run_subcommand set_min_pin_length params = silent (run_set_min_pin_length params)
  run_subcommand get_pin_uv_auth_token_using_pin_with_permissions params =
      answering (run_pin_token params)

  unfoldable pub process_subcommand : Parameters → Call p ResponseData
  process_subcommand params = do
    response ←
        if params.pin_protocol == 1
        then run_subcommand params.sub_command params
        else fail ctap1_err_invalid_parameter
    done (client_pin response)
