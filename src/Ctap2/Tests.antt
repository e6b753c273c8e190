-- ===== src/Ctap2/Tests.antt =====
-- Resets, assertions and names on a concrete device.
use open_sk.Storage.Write.{incr_global_signature_counter}
use open_sk.Common.{ℕ, ◌≤◌, ◌≡◌, refl, arith, true, false, List, [], ◌∷◌, ◌++◌, length}
use open_sk.Common.{take, replicate, none, some, All}
use open_sk.Common.Results.{ok, err}
use open_sk.Timer.{ticking}
use open_sk.Permission
use open_sk.Permission.{granted, is_granted, is_positive}
use open_sk.Cbor.Utf8.{is_utf8, utf8_rest}
use open_sk.Toy.{toy_store}
use open_sk.Store.Contents.{get, put, erase, retain_below}
use open_sk.Storage.Read.{find, pin_hash, pin_retries, min_pin_length, global_signature_counter}
use open_sk.Storage.Read.{attestation_private_key, attestation_certificate}
use open_sk.Ctap.Status.{status_byte, ctap2_err_not_allowed}
use open_sk.Ctap.State.{public_key}
use open_sk.Formats.Commands.{deserialize, deserialize_as, authenticator_get_next_assertion}
use open_sk.Formats.Entities.{each}
use open_sk.Formats.Responses.{ResponseData}
use open_sk.Formats.Responses
use open_sk.Ctap2.Text.{truncate_to_char_boundary}
use open_sk.Ctap2.Device.{Device, State, Source, AssertionInput, reset, new_u2f_up_state}
use open_sk.Ctap2.Manage.{process_reset, is_reset}
use open_sk.Ctap2.Commands.{process_command}
use open_sk.Ctap2.Credentials.{assertion_response}
use open_sk.Ctap2.Resets.{Request, process_all, process_command-no_reset}
use open_sk.Ctap2.Wiped.{process_reset-wiped}
use open_sk.Ctap2.Cropping.{truncate_to_char_boundary-longest}
use open_sk.Ctap2.Remaining.{with_remaining, next_assertions, next_assertions-recent_first}
use open_sk.Ctap2.Samples.{toy, started, channel}

read_next : deserialize 32 (8 ∷ []) ≡ ok authenticator_get_next_assertion
unfolding deserialize deserialize_as
read_next = refl

abbrev first_request : Request ℕ
first_request = record { message = 8 ∷ []; cid = channel; now = 5 }

process_command-no_reset_example :
    let before = process_all ticking toy (first_request ∷ []) started in
    let after = process_command ticking toy (7 ∷ []) channel 6 before in
    (after.1 ≡ status_byte ctap2_err_not_allowed ∷ [])
    × (after.0.persistent_store ≡ before.persistent_store)
    × (after.0.world ≡ before.world)
process_command-no_reset_example =
    process_command-no_reset ticking toy authenticator_get_next_assertion first_request [] []
      channel 6 started read_next refl

started-reset : (process_reset ticking toy channel 5 started).1 ≡ ok Responses.reset
unfolding process_reset open_sk.Ctap2.Device.check_command_permission is_granted
    open_sk.Ctap2.Device.update_command_permission Permission.check_expiration is_positive
    open_sk.Storage.Write.reset open_sk.Storage.Write.init get retain_below
    open_sk.Storage.Write.make_master_keys open_sk.Storage.Write.draw_twice put erase
    open_sk.Storage.Write.make_cred_random
started-reset = refl

process_reset-wiped_example :
    let store = (process_reset ticking toy channel 5 started).0.persistent_store in
    ((is_granted ticking (granted 10000) 5 ≡ true)
      × (is_reset ticking toy (some reset) ≡ true)
      × ((toy.check_user_presence channel 0).1 ≡ ok tt))
    × ((pin_hash toy_store store ≡ ok none)
        × (find toy_store store 1700 ≡ ok none)
        × (pin_retries toy_store store ≡ ok 8)
        × (min_pin_length toy_store store ≡ ok 4)
        × (global_signature_counter toy_store store ≡ ok 1)
        × (attestation_private_key toy_store store
            ≡ attestation_private_key toy_store started.persistent_store)
        × (attestation_certificate toy_store store
            ≡ attestation_certificate toy_store started.persistent_store))
process_reset-wiped_example =
    process_reset-wiped ticking toy channel 5 started Responses.reset 1700 started-reset refl

-- "aü" does not end between the bytes of "ü".
umlaut : (is_utf8 (0x61 ∷ 0xc3 ∷ 0xbc ∷ []) ≡ true) × (is_utf8 (0x61 ∷ []) ≡ true)
unfolding is_utf8 utf8_rest
umlaut = (refl, refl)

truncate_to_char_boundary-longest_example :
    let s : List ℕ = 0x61 ∷ 0xc3 ∷ 0xbc ∷ [] in
    let cut = truncate_to_char_boundary s 2 in
    (length cut ≤ 2) × (is_utf8 cut ≡ true) × (take (length cut) s ≡ cut) × (1 ≤ length cut)
truncate_to_char_boundary-longest_example =
    truncate_to_char_boundary-longest (0x61 ∷ 0xc3 ∷ 0xbc ∷ []) 2 1 umlaut.0 (omega arith)
      (omega arith) umlaut.1

abbrev source : ℕ → Source ticking toy
source order = record {
  key_type = public_key;
  credential_id = replicate 32 order;
  private_key = false;
  rp_id = 0x61 ∷ [];
  user_handle = 1 ∷ [];
  user_display_name = none;
  cred_protect_policy = none;
  creation_order = order;
  user_name = none;
  user_icon = none;
}

abbrev input : AssertionInput
input = record {
  client_data_hash = replicate 32 1;
  auth_data = replicate 37 2;
  hmac_secret_input = none;
  has_uv = false;
}

still_granted : All (λ now. is_granted ticking (granted 10000) now ≡ true) (5 ∷ 6 ∷ [])
unfolding is_granted is_positive
still_granted = (refl, (refl, tt))

next_assertions-recent_first_example :
    next_assertions ticking toy
      (5 ∷ 6 ∷ 7 ∷ [])
      (with_remaining ticking toy input (source 8 ∷ source 4 ∷ []) started)
    ≡ each (λ c. assertion_response ticking toy c input none started) (source 8 ∷ source 4 ∷ [])
      ++ err ctap2_err_not_allowed ∷ []
next_assertions-recent_first_example =
    next_assertions-recent_first ticking toy (5 ∷ 6 ∷ []) 7 input (source 8 ∷ source 4 ∷ []) started
      still_granted refl
