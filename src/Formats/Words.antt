-- ===== src/Formats/Words.antt =====
-- The strings of src/ctap/data_formats.rs, in UTF-8.
use open_sk.Common.{ℕ, List, [], ◌∷◌}

abbrev pub word_id : List ℕ
word_id = 0x69 ∷ 0x64 ∷ []

abbrev pub word_icon : List ℕ
word_icon = 0x69 ∷ 0x63 ∷ 0x6f ∷ 0x6e ∷ []

abbrev pub word_name : List ℕ
word_name = 0x6e ∷ 0x61 ∷ 0x6d ∷ 0x65 ∷ []

abbrev pub word_display_name : List ℕ
word_display_name = 0x64 ∷ 0x69 ∷ 0x73 ∷ 0x70 ∷ 0x6c ∷ 0x61 ∷ 0x79 ∷ 0x4e ∷ 0x61 ∷ 0x6d ∷ 0x65 ∷ []

abbrev pub word_public_key : List ℕ
word_public_key = 0x70 ∷ 0x75 ∷ 0x62 ∷ 0x6c ∷ 0x69 ∷ 0x63 ∷ 0x2d ∷ 0x6b ∷ 0x65 ∷ 0x79 ∷ []

abbrev pub word_unknown : List ℕ
word_unknown = 0x75 ∷ 0x6e ∷ 0x6b ∷ 0x6e ∷ 0x6f ∷ 0x77 ∷ 0x6e ∷ []

abbrev pub word_alg : List ℕ
word_alg = 0x61 ∷ 0x6c ∷ 0x67 ∷ []

abbrev pub word_type : List ℕ
word_type = 0x74 ∷ 0x79 ∷ 0x70 ∷ 0x65 ∷ []

abbrev pub word_usb : List ℕ
word_usb = 0x75 ∷ 0x73 ∷ 0x62 ∷ []

abbrev pub word_nfc : List ℕ
word_nfc = 0x6e ∷ 0x66 ∷ 0x63 ∷ []

abbrev pub word_ble : List ℕ
word_ble = 0x62 ∷ 0x6c ∷ 0x65 ∷ []

abbrev pub word_internal : List ℕ
word_internal = 0x69 ∷ 0x6e ∷ 0x74 ∷ 0x65 ∷ 0x72 ∷ 0x6e ∷ 0x61 ∷ 0x6c ∷ []

abbrev pub word_transports : List ℕ
word_transports = 0x74 ∷ 0x72 ∷ 0x61 ∷ 0x6e ∷ 0x73 ∷ 0x70 ∷ 0x6f ∷ 0x72 ∷ 0x74 ∷ 0x73 ∷ []

abbrev pub word_cred_protect : List ℕ
word_cred_protect = 0x63 ∷ 0x72 ∷ 0x65 ∷ 0x64 ∷ 0x50 ∷ 0x72 ∷ 0x6f ∷ 0x74 ∷ 0x65 ∷ 0x63 ∷ 0x74 ∷ []

abbrev pub word_hmac_secret : List ℕ
word_hmac_secret = 0x68 ∷ 0x6d ∷ 0x61 ∷ 0x63 ∷ 0x2d ∷ 0x73 ∷ 0x65 ∷ 0x63 ∷ 0x72 ∷ 0x65 ∷ 0x74 ∷ []

abbrev pub word_rk : List ℕ
word_rk = 0x72 ∷ 0x6b ∷ []

abbrev pub word_up : List ℕ
word_up = 0x75 ∷ 0x70 ∷ []

abbrev pub word_uv : List ℕ
word_uv = 0x75 ∷ 0x76 ∷ []

abbrev pub word_sig : List ℕ
word_sig = 0x73 ∷ 0x69 ∷ 0x67 ∷ []

abbrev pub word_x5c : List ℕ
word_x5c = 0x78 ∷ 0x35 ∷ 0x63 ∷ []

abbrev pub word_ecdaa_key_id : List ℕ
word_ecdaa_key_id = 0x65 ∷ 0x63 ∷ 0x64 ∷ 0x61 ∷ 0x61 ∷ 0x4b ∷ 0x65 ∷ 0x79 ∷ 0x49 ∷ 0x64 ∷ []
