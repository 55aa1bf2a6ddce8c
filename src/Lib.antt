-- ===== src/Lib.antt =====
-- Verification of androidtvremote-native, a C++ library that pairs with an Android TV and controls
-- it over the Android TV Remote protocol, version 2.
--
-- The program's parts, and the files that model them:
--   * The wire format, src/proto_wire.cpp: Wire/Writer (`Writer`, `frame`), Wire/Reader (`Reader`),
--     Wire/Search (`findVarint`, `findBytes`, `hasField`, `decodeVarintPrefix`). Bytes are a list of
--     numbers; `readVarint` returns an option in place of a Boolean and a reference. Wire/Message
--     describes messages as lists of items, for the round trips.
--   * The messages, src/protocol_messages.cpp: Protocol/Pairing (`pairingOuter` and the messages and
--     tests of pairing), Protocol/Outgoing (the messages of the remote), Protocol/Incoming
--     (`parseRemote`). Types has the types of include/androidtvremote/types.hpp.
--   * The names of keys, src/android_tv_remote.cpp: Keys (`upperKeyName`, `keyCodeFromName`).
--   * The secret and the identity, src/certificate.cpp: Certificate/Hex (`hexToBytes`),
--     Certificate/Split (`splitSlash`), Certificate/Secret (`pairingSecret`), Certificate/Identity
--     (`parseDeviceIdentity`). OpenSSL is the parameter Certificate/Openssl. Certificate/Numbers
--     (`rsaNumbers`, with the memory that it hands out; the branch for OpenSSL 3) and Certificate/Names
--     (`nameEntry`) fill two of its functions.
--   * The identity's files, src/certificate.cpp: Certificate/Files (`generateCertificateIfMissing`,
--     `loadClientIdentity` and what they call). An action is a function on the disk that may throw. The
--     files are a parameter with laws, Certificate/Disk, and so is what OpenSSL does with keys,
--     certificates, PEM texts and contexts, Certificate/Issuing. An object that OpenSSL changes through
--     a pointer is given back, and all failures in one run leave the same text in the queue of errors.
--   * A pairing session, src/pairing.cpp: Pairing (`SyncTlsConnection::receive` and `send`, `start`,
--     `finish`, `getNameAndMac`). The bytes that the television sends and the writes that succeed are
--     the arguments; exceptions are values (Common/Results), with the text of Asio's as a parameter.
--     Pairing/Opening makes the connection from the identity's files, and reads the certificate;
--     Pairing/Streams makes, connects and closes its stream.
--   * The remote, `AndroidTvRemote::Impl` of src/android_tv_remote.cpp: Remote/State (its members, the
--     operations in flight and the calls made), Remote/Connection (`beginConnect`, `closeStream`,
--     `handleConnectionLoss`, `queueMessage`, `beginWrite`), Remote/Handlers (the completion handlers
--     and `handleMessage`), Remote/Api (what the public functions post), Remote/Machine (the steps: an
--     operation in flight ends, or the application calls). A message that arrives is parsed by
--     Protocol/Incoming and answered by a message of Protocol/Outgoing, framed by Wire/Writer.
--     Remote/Reading has the bytes that arrive, Remote/Writing the writes that end, Remote/Progress,
--     Remote/Silence and Remote/Backoff sequences of steps. Remote/Callbacks has `withCallbacks`, which
--     gives the calls that the remote makes to the callbacks that are set, and Remote/View the getters.
--   * The public class, `AndroidTvRemote`: AndroidTvRemote (`startPairing`, `finishPairing`,
--     `getNameAndMac` with the session that the device keeps, and `sendKey` by key and by name) and
--     AndroidTvRemote/Calls (`setCallbacks` and what forwards to `Impl`). AndroidTvRemote/Streams has
--     the pairing functions again, with the streams that they open and close.
--   * The example program, examples/remote_cli.cpp: RemoteCli (`main`), which joins all of these. What
--     it meets is a parameter, `Surroundings`.
--
-- An int32_t is its bit pattern, a number below 2 ^ 32; unsigned arithmetic keeps its modulus. The
-- loops over fields run on fuel, one more than the bytes of the message, and each field takes a byte
-- at least; `splitSlash` and `sendVoiceData` have one round more than there are characters or bytes;
-- the rounds of pairing are bounded in the source, by 8 and 4. The counter of connections is taken not
-- to wrap: `Reach` has no step from a generation of 2 ^ 64 - 1.
--
-- All handlers run on the one I/O thread, so a step is a whole handler. What the network, the clock and
-- the television do is free. A timer that is started again leaves its old wait in flight, which ends
-- with any outcome: this covers what Asio does.
--
-- Not modelled: the insides of Asio, OpenSSL and the file streams, which are parameters; the locks
-- around callbacks, cached data and the pairing session, which protect single reads and writes; the
-- tests and the build files.
pub mod Common
pub mod Types
pub mod Wire
pub mod Protocol
pub mod Keys
pub mod Certificate
pub mod Pairing
pub mod Remote
pub mod AndroidTvRemote
pub mod RemoteCli
pub mod Tests
