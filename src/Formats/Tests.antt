-- ===== src/Formats/Tests.antt =====
-- Concrete values of the data formats.
use open_sk.Common.{◌≡◌, refl, false, [], ◌∷◌, replicate, none, some}
use open_sk.Common.Results.{ok}
use open_sk.Toy.{toy_ecdsa}
use open_sk.Ctap.State.{public_key, user_verification_required}
use open_sk.Formats.Source.{Source, source_value, source_from_value}
use open_sk.Formats.RoundTrip.{source_from_value-source_value}

abbrev credential : Source toy_ecdsa
credential = record {
  key_type = public_key;
  credential_id = replicate 32 4;
  private_key = false;
  rp_id = 0x61 ∷ 0x2e ∷ 0x62 ∷ [];
  user_handle = 1 ∷ 2 ∷ [];
  user_display_name = none;
  cred_protect_policy = some user_verification_required;
  creation_order = 7;
  user_name = some (0x63 ∷ []);
  user_icon = none;
}

source_from_value-source_value_example :
    source_from_value toy_ecdsa (source_value toy_ecdsa credential) ≡ ok credential
source_from_value-source_value_example = source_from_value-source_value toy_ecdsa credential refl
