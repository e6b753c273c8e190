-- ===== src/Formats/Options.antt =====
-- The extensions and options of the requests in src/ctap/data_formats.rs.
use open_sk.Common.{Bool, true, false, List, [], ◌∷◌, Option, none, some}
use open_sk.Common.Results.{ok, err, ◌>>=◌}
use open_sk.Cbor.Values.{KeyType, text_string, Value}
use open_sk.Ctap.Status.{ctap2_err_invalid_option}
use open_sk.Ctap.State.{CredentialProtectionPolicy}
use open_sk.Formats.Extract.{Parsed, extract_bool, optional, defaulting, from_map, field}
use open_sk.Formats.Words.{word_cred_protect, word_hmac_secret, word_rk, word_up, word_uv}
use open_sk.Formats.Entities.{policy_from}
use open_sk.Formats.Cose.{GetAssertionHmacSecretInput, hmac_secret_from}

pub record MakeCredentialExtensions : Type 0 where
  pub hmac_secret : Bool
  pub cred_protect : Option CredentialProtectionPolicy

unfoldable pub make_extensions_in : List (Option Value) → Parsed MakeCredentialExtensions
make_extensions_in fields = do
  hmac_secret ← defaulting false extract_bool (field 1 fields)
  cred_protect ← optional policy_from (field 0 fields)
  ok (record { hmac_secret = hmac_secret; cred_protect = cred_protect })

abbrev pub make_extensions_from : Value → Parsed MakeCredentialExtensions
make_extensions_from =
    from_map (text_string word_cred_protect ∷ text_string word_hmac_secret ∷ []) make_extensions_in

pub record GetAssertionExtensions : Type 0 where
  pub hmac_secret : Option GetAssertionHmacSecretInput

unfoldable pub get_extensions_in : List (Option Value) → Parsed GetAssertionExtensions
get_extensions_in fields = do
  hmac_secret ← optional hmac_secret_from (field 0 fields)
  ok (record { hmac_secret = hmac_secret })

abbrev pub get_extensions_from : Value → Parsed GetAssertionExtensions
get_extensions_from = from_map (text_string word_hmac_secret ∷ []) get_extensions_in

abbrev pub option_keys : List KeyType
option_keys = text_string word_rk ∷ text_string word_up ∷ text_string word_uv ∷ []

-- An option that must not be given.
abbrev pub refused : Option Value → Parsed (Unit {0})
refused none = ok tt
refused (some v) = err ctap2_err_invalid_option

pub record MakeCredentialOptions : Type 0 where
  pub rk : Bool
  pub uv : Bool

unfoldable pub make_options_in : List (Option Value) → Parsed MakeCredentialOptions
make_options_in fields = do
  rk ← defaulting false extract_bool (field 0 fields)
  _ ← refused (field 1 fields)
  uv ← defaulting false extract_bool (field 2 fields)
  ok (record { rk = rk; uv = uv })

abbrev pub make_options_from : Value → Parsed MakeCredentialOptions
make_options_from = from_map option_keys make_options_in

pub record GetAssertionOptions : Type 0 where
  pub up : Bool
  pub uv : Bool

-- The type of the refused option still decides on the status code.
abbrev pub refused_bool : Option Value → Parsed (Unit {0})
refused_bool none = ok tt
refused_bool (some v) = do _ ← extract_bool v; err ctap2_err_invalid_option

unfoldable pub get_options_in : List (Option Value) → Parsed GetAssertionOptions
get_options_in fields = do
  _ ← refused_bool (field 0 fields)
  up ← defaulting true extract_bool (field 1 fields)
  uv ← defaulting false extract_bool (field 2 fields)
  ok (record { up = up; uv = uv })

abbrev pub get_options_from : Value → Parsed GetAssertionOptions
get_options_from = from_map option_keys get_options_in
