-- ===== src/Ctap2/Samples.antt =====
-- A device with concrete primitives and a store that never fails, and its first state.
use open_sk.Common.{ℕ, ◌+◌, true, false, List, [], ◌∷◌, length}
use open_sk.Common.{replicate, none, some}
use open_sk.Common.Results.{ok}
use open_sk.Timer.{ticking}
use open_sk.Permission.{granted}
use open_sk.Toy.{toy_rng, toy_ecdsa, toy_ecdh, toy_cipher, toy_hash, toy_store}
use open_sk.Ctap2.Device.{Device, State, reset, new_u2f_up_state}

-- The world counts how often the user touched the key.
abbrev pub toy : Device
toy = record {
  pin = record {
    rng = toy_rng;
    ecdh = toy_ecdh;
    aes256 = toy_cipher;
    aes256_key = λ bytes. length bytes;
    sha256 = toy_hash;
    store = toy_store;
  };
  ecdsa = toy_ecdsa;
  aaguid = replicate 16 5;
  usize_bits = 32;
  World = ℕ;
  check_user_presence = λ cid touches. (touches + 1, ok tt);
  lock = λ touches. (touches, true);
}

-- Master keys, an AAGUID, a PIN hash and a retry that is used up.
abbrev pub started : State ticking toy
started = record {
  rng = 3;
  persistent_store =
      (2046, replicate 64 8) ∷ (3, replicate 16 5) ∷ (2045, replicate 16 6) ∷ (2044, 7 ∷ []) ∷ [];
  pin_protocol = record {
    key_agreement_key = false;
    pin_uv_auth_token = replicate 32 9;
    consecutive_pin_mismatches = 0;
    permissions = 3;
    permissions_rp_id = none;
  };
  u2f_up_state = new_u2f_up_state ticking toy;
  stateful_command_permission = granted 10000;
  stateful_command_type = some reset;
  world = 0;
}

abbrev pub channel : List ℕ
channel = 1 ∷ 2 ∷ 3 ∷ 4 ∷ []
