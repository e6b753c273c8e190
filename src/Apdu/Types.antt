-- ===== src/Apdu/Types.antt =====
-- The types of src/ctap/apdu.rs.
use open_sk.Common.{ℕ, List}

pub data ApduStatusCode : Type 0 where
  sw_success sw_get_response sw_memerr sw_wrong_data sw_wrong_length : ApduStatusCode
  sw_cond_use_not_satisfied sw_file_not_found sw_incorrect_p1p2 sw_ins_invalid : ApduStatusCode
  sw_cla_invalid sw_internal_exception : ApduStatusCode

-- `u16::from`, the discriminants of the enum.
unfoldable pub status_word : ApduStatusCode → ℕ
status_word sw_success = 0x9000
status_word sw_get_response = 0x6100
status_word sw_memerr = 0x6501
status_word sw_wrong_data = 0x6a80
status_word sw_wrong_length = 0x6700
status_word sw_cond_use_not_satisfied = 0x6985
status_word sw_file_not_found = 0x6a82
status_word sw_incorrect_p1p2 = 0x6a86
status_word sw_ins_invalid = 0x6d00
status_word sw_cla_invalid = 0x6e00
status_word sw_internal_exception = 0x6f00

pub record ApduHeader : Type 0 where
  pub cla : ℕ
  pub ins : ℕ
  pub p1 : ℕ
  pub p2 : ℕ

pub data Case : Type 0 where
  le1 lc1_data lc1_data_le1 lc3_data lc3_data_le1 lc3_data_le2 le3 : Case

pub data ApduType : Type 0 where
  instruction : ApduType
  short : Case → ApduType
  extended : Case → ApduType

pub record Apdu : Type 0 where
  pub header : ApduHeader
  pub lc : ℕ
  pub payload : List ℕ
  pub le : ℕ
  pub case_type : ApduType
