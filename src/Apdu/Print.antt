-- ===== src/Apdu/Print.antt =====
-- The frames that stand for an APDU: the short and the extended forms of its length fields that
-- src/ctap/apdu.rs tells apart.
use open_sk.Common.{ℕ, ◌/◌, ◌%◌, ◌^◌, ◌≤◌, ◌<◌, ◌≡◌, List, [], ◌∷◌, ◌++◌, length}
use open_sk.Apdu.Types.{ApduHeader, Apdu, ApduType, instruction, short, extended, le1, lc1_data}
use open_sk.Apdu.Types.{lc1_data_le1, lc3_data, lc3_data_le1, lc3_data_le2, le3}

abbrev pub header_bytes : ApduHeader → List ℕ
header_bytes header = header.cla ∷ header.ins ∷ header.p1 ∷ header.p2 ∷ []

abbrev pub word : ℕ → List ℕ
word n = n / 2 ^ 8 % 2 ^ 8 ∷ n % 2 ^ 8 ∷ []

-- What follows the header.
unfoldable pub body : ApduType → ℕ → List ℕ → ℕ → List ℕ
body instruction lc bytes le = []
body (short le1) lc bytes le = le % 2 ^ 8 ∷ []
body (short lc1_data) lc bytes le = lc ∷ bytes
body (short lc1_data_le1) lc bytes le = lc ∷ bytes ++ le % 2 ^ 8 ∷ []
body (extended lc3_data) lc bytes le = 0 ∷ word lc ++ bytes
body (extended lc3_data_le1) lc bytes le = 0 ∷ word lc ++ bytes ++ le % 2 ^ 8 ∷ []
body (extended lc3_data_le2) lc bytes le = 0 ∷ word lc ++ bytes ++ word le
body (extended le3) lc bytes le = 0 ∷ word lc ++ bytes ++ 0 ∷ word le
body (short _) lc bytes le = []
body (extended _) lc bytes le = []

-- The numbers that a form can carry: the length of the data, and the expected length.
unfoldable pub IsForm : ApduType → ℕ → ℕ → Type 0
IsForm instruction n le = (n ≡ 0) × (le ≡ 0)
IsForm (short le1) n le = (n ≡ 0) × (0 < le) × (le ≤ 256)
IsForm (short lc1_data) n le = (0 < n) × (n < 2 ^ 8) × (le ≡ 0)
IsForm (short lc1_data_le1) n le = (0 < n) × (n < 2 ^ 8) × (0 < le) × (le ≤ 256)
IsForm (extended lc3_data) n le = (n < 2 ^ 16) × (le ≡ 0)
IsForm (extended lc3_data_le1) n le = (n < 2 ^ 16) × (0 < le) × (le ≤ 256)
IsForm (extended lc3_data_le2) n le = (n < 2 ^ 16) × (0 < le) × (le ≤ 2 ^ 16)
IsForm (extended le3) n le = (n < 2 ^ 16) × (0 < le) × (le ≤ 2 ^ 16)
IsForm (short _) n le = ⊥
IsForm (extended _) n le = ⊥

pub record IsValid (apdu : Apdu) : Type 0 where
  pub form : IsForm apdu.case_type apdu.lc apdu.le
  pub lc_length : apdu.lc ≡ length apdu.payload

unfoldable pub print : Apdu → List ℕ
print apdu = header_bytes apdu.header ++ body apdu.case_type apdu.lc apdu.payload apdu.le
