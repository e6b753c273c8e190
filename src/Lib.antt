-- ===== src/Lib.antt =====
-- OpenSK is the firmware of a security key: it talks CTAPHID over USB to a browser, and answers the
-- commands of CTAP1 (U2F) and CTAP2. The development models the transport, the CBOR library, the
-- frames and commands of CTAP1, user presence, key handles, the commands of CTAP2 with their
-- parameters and responses, the PIN protocol, the storage of credentials and counters, and the
-- symmetric cryptography that key handles and PINs use.
--
-- A packet of 64 bytes reaches `CtapHid::process_hid_packet` (src/ctap/hid/mod.rs). The assembler
-- (receive.rs) collects packets to a message. The handler checks the channel, hands MSG to CTAP1
-- and CBOR to CTAP2, and the splitter (send.rs) turns the reply into packets. CTAP1 parses the
-- message as an APDU (src/ctap/apdu.rs) and as a command (src/ctap/ctap1.rs), asks for the user's
-- presence (src/ctap/timed_permission.rs), and makes or opens a key handle (src/ctap/mod.rs). CTAP2
-- runs its commands in src/ctap/mod.rs, reads their parameters (src/ctap/command.rs,
-- src/ctap/data_formats.rs) and writes its responses (src/ctap/response.rs) by libraries/cbor. The
-- PIN protocol (src/ctap/pin_protocol_v1.rs) keeps the PIN's hash and its retries in the storage
-- (src/ctap/storage.rs), which writes the entries of libraries/persistent_store.
--
-- The files, each folder under the file of its name:
--   Common     helpers: lists, Boolean tests, bits of bytes, integers, results; Actions is the monad of
--              an operation that changes a state and may fail.
--   Timer      the types of libtock_drivers::timer, a parameter.
--   Toy        concrete functions for the parameters, which the examples use.
--   Cbor       libraries/cbor/src: Values (values.rs), Writer (writer.rs), Reader (reader.rs), Macros
--              (macros.rs), Utf8 (`str::from_utf8`); Encoding describes the canonical encoding; the
--              other files prove.
--   Permission src/ctap/timed_permission.rs: TimedPermission; Presence is U2fUserPresenceState.
--   Apdu       src/ctap/apdu.rs: Types, Parse, which has the panics of the indices and slices; Total is
--              the parser without them, which Checked compares with Parse; Print describes the frames;
--              Extended, Complete and Accept prove.
--   Hid        src/ctap/hid: Packet, Protocol and Handler (mod.rs), Receive (receive.rs), Send
--              (send.rs); Assembler, Origin, Chunks, Continuations, Reassembly, Frame, Replies,
--              Channels and Echo prove.
--   Crypto     libraries/crypto/src: Cbc (cbc.rs, util.rs), Hmac (hmac.rs).
--   Ctap       src/ctap: Status (status_code.rs), State (mod.rs), U2f and Ctap1 (ctap1.rs); Primitives
--              holds the interfaces; KeyHandle, Messages, Requests, UserPresence,
--              Sizes, Assertion and Registration prove.
--   Ctap2      src/ctap/mod.rs: Text (the cropping of names), Device (the state and its parts, joined
--              to Ctap, Pin and Storage), Authorize, Make, Credentials, Assertions, Manage and Commands
--              (the commands), Firmware (CTAP1 and CTAP2 on one state, as the transport calls them in
--              src/ctap/hid/mod.rs); NoPanic, Stateful, Resets, Wiped, Verified, Remaining and Cropping prove;
--              Samples is a concrete device for the examples.
--   Formats    src/ctap: Extract, Words, Entities, Options, Cose and Source (data_formats.rs), Commands
--              (command.rs), Responses (response.rs); RoundTrip proves.
--   Pin        src/ctap/pin_protocol_v1.rs: Blocks and Secrets (the functions on bytes), Verify, Token
--              and Subcommands (PinProtocolV1); the other files prove.
--   Storage    src/ctap/storage.rs: Key (storage/key.rs), Read, Write and Credentials; Retries,
--              Counter, Reset, Slots and Accounts prove.
--   Store      libraries/persistent_store/src: Interface (the operations of store.rs that the storage
--              calls, with their laws), Contents (a list of entries that has them), Bitfield
--              (format/bitfield.rs); Digits holds the laws of binary digits.
--
-- State is passed explicitly: an operation takes the state and returns it with the result. Names of
-- the definitions are the source's. A `match` or an early return that the source nests is a definition
-- of its own. Bytes are numbers, slices and arrays are lists of bytes, and a theorem that needs bytes
-- below 256 says so. Where the source can panic, by an index, a slice or an `unwrap`, the result is an
-- Option and `none` is the panic, and the transport is told by `panicked`; a slice whose bounds the
-- lines before it establish, as in key handles and assertions, is written by `take` and `drop`. The
-- counter of signatures is 1 where the store has no entry for it, as in the code; the comment in storage/key.rs says 0.
--
-- Bounds: the CBOR reader and writer recurse on the remaining depth plus one, where zero stands for
-- the depth below 0 at which the source stops. The splitter collects up to 129 packets, which is what a
-- message of 7609 bytes fills. `usize` has the width of its machine in the reader's parameter, and
-- 32 bits in the count of channels; u8, u16 and u64 arithmetic keeps its wrap-around.
--
-- The feature with_ctap2_1 is on, and with_ctap1 too, but for the transport, where it is a parameter.
-- `ne_bytes` are little-endian, as on the boards.
--
-- Not modelled: the persistent store above its bit fields, which the storage uses through an
-- interface; AES, SHA-256, ECDSA and ECDH, which are interfaces with the laws that are relied on; batch
-- attestation and CTAP1 without signature counter, which constants of the source turn off; the relying
-- parties of the minimal PIN length, which have no caller; device I/O, the board code, tools and
-- third-party libraries. Debug output is left out.
pub mod Apdu
pub mod Cbor
pub mod Common
pub mod Crypto
pub mod Ctap
pub mod Ctap2
pub mod Formats
pub mod Hid
pub mod Permission
pub mod Pin
pub mod Storage
pub mod Store
pub mod Timer
pub mod Toy
