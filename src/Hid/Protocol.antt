-- ===== src/Hid/Protocol.antt =====
-- `CtapHid` of src/ctap/hid/mod.rs: channels, commands and replies.
use open_sk.Common.{ℕ, ◌+◌, ◌*◌, ◌/◌, ◌%◌, ◌^◌, Bool, List, [], ◌∷◌, ◌++◌, get_or}
use open_sk.Common.{Option, none, some, if◌then◌else◌}
use open_sk.Permission.{TimedPermission}
use open_sk.Apdu.Types.{ApduStatusCode, status_word, sw_success}
use open_sk.Hid.Packet.{ChannelId, HidPacket}
use open_sk.Hid.Receive.{MessageAssembler}
use open_sk.Hid.Send.{split_message}

-- Replies to a packet: `HidPacketIterator`, collected. `none` is a panic of `unwrap`.
abbrev pub Reply : Type 0
Reply = Option (List HidPacket)

-- The result of CTAP1, or its panic.
pub data Ctap1Result : Type 0 where
  success : List ℕ → Ctap1Result
  failure : ApduStatusCode → Ctap1Result
  panicked : Ctap1Result

-- What the transport calls of the authenticator, `CtapState` of src/ctap/mod.rs and `Ctap1Command` of
-- src/ctap/ctap1.rs, and whether the feature with_ctap1 is on.
pub record Authenticator (C : Type 0) : Type 1 where
  pub State : Type 0
  pub with_ctap1 : Bool
  pub process_ctap1 : List ℕ → State → C → State × Ctap1Result
  pub process_command : List ℕ → ChannelId → State → C → State × List ℕ

pub record CtapHid (C T : Type 0) : Type 0 where
  pub assembler : MessageAssembler T
  pub allocated_cids : ℕ
  pub wink_permission : TimedPermission C

abbrev pub command_ping : ℕ
command_ping = 0x01

abbrev pub command_msg : ℕ
command_msg = 0x03

abbrev pub command_cbor : ℕ
command_cbor = 0x10

abbrev pub command_cancel : ℕ
command_cancel = 0x11

abbrev pub command_keepalive : ℕ
command_keepalive = 0x3b

abbrev pub command_error : ℕ
command_error = 0x3f

abbrev pub command_wink : ℕ
command_wink = 0x08

abbrev pub err_invalid_cmd : ℕ
err_invalid_cmd = 0x01

abbrev pub err_invalid_len : ℕ
err_invalid_len = 0x03

abbrev pub err_invalid_seq : ℕ
err_invalid_seq = 0x04

abbrev pub err_msg_timeout : ℕ
err_msg_timeout = 0x05

abbrev pub err_channel_busy : ℕ
err_channel_busy = 0x06

abbrev pub err_invalid_channel : ℕ
err_invalid_channel = 0x0b

-- CTAP2_ERR_VENDOR_RESPONSE_TOO_LONG
abbrev pub response_too_long : ℕ
response_too_long = 0xf0

-- `u32::from_be_bytes` and `u32::to_be_bytes`.
unfoldable pub from_be_bytes : ChannelId → ℕ
from_be_bytes cid =
    get_or cid 0 0 * 2 ^ 24 + get_or cid 1 0 * 2 ^ 16 + get_or cid 2 0 * 2 ^ 8 + get_or cid 3 0

unfoldable pub to_be_bytes : ℕ → ChannelId
to_be_bytes n = n / 2 ^ 24 % 256 ∷ n / 2 ^ 16 % 256 ∷ n / 2 ^ 8 % 256 ∷ n % 256 ∷ []

unfoldable pub send : ChannelId → ℕ → List ℕ → Reply
send cid cmd payload = split_message (record { cid = cid; cmd = cmd; payload = payload })

unfoldable pub error_message : ChannelId → ℕ → Reply
error_message cid error_code = send cid command_error (error_code ∷ [])

-- `u16::to_be_bytes`
abbrev pub word_bytes : ApduStatusCode → List ℕ
word_bytes code = status_word code / 2 ^ 8 ∷ status_word code % 2 ^ 8 ∷ []

unfoldable pub ctap1_error_message : ChannelId → ApduStatusCode → Reply
ctap1_error_message cid code = send cid command_msg (word_bytes code)

unfoldable pub ctap1_success_message : ChannelId → List ℕ → Reply
ctap1_success_message cid payload = send cid command_msg (payload ++ word_bytes sw_success)

unfoldable pub ctap1_message : ChannelId → Ctap1Result → Reply
ctap1_message cid (success payload) = ctap1_success_message cid payload
ctap1_message cid (failure code) = ctap1_error_message cid code
ctap1_message cid panicked = none

pub data KeepaliveStatus : Type 0 where
  processing up_needed : KeepaliveStatus

unfoldable pub keepalive : ChannelId → KeepaliveStatus → Reply
keepalive cid processing = send cid command_keepalive (1 ∷ [])
keepalive cid up_needed = send cid command_keepalive (2 ∷ [])

-- PROTOCOL_VERSION, DEVICE_VERSION_MAJOR, _MINOR, _BUILD and CAPABILITIES, which adds NMSG where the
-- feature with_ctap1 is off.
abbrev pub init_versions : Bool → List ℕ
init_versions with_ctap1 = 2 ∷ 1 ∷ 0 ∷ 0 ∷ (if with_ctap1 then 0x05 else 0x0d) ∷ []

-- The reply to CBOR, with the replacement of a response that is too long.
unfoldable pub cbor_message : ChannelId → List ℕ → Reply
cbor_message cid response =
    let replacement = send cid command_cbor (response_too_long ∷ []) in
    elim (send cid command_cbor response) [ some packets ↦ some packets | none ↦ replacement ]
