-- ===== src/Lib.antt =====
-- A verification library for this implementation of the Noise protocol framework.
--
-- The program. A `Builder` (src/builder.rs) takes the parameters of a protocol name
-- (src/params/mod.rs, src/params/patterns.rs), asks a resolver (src/resolvers/mod.rs) for
-- implementations of the traits of src/types.rs, which the resolvers of src/resolvers/ wrap around
-- other crates, and makes a `HandshakeState` (src/handshakestate.rs). Its `write_message` and
-- `read_message` go through the tokens of the pattern, message by message, over a `SymmetricState` (src/symmetricstate.rs), which holds the
-- hash, the chaining key and a `CipherState` (src/cipherstate.rs) with key and nonce. Behind the
-- last message the handshake becomes a `TransportState` (src/transportstate.rs), whose cipher
-- states count their nonces, or a `StatelessTransportState` (src/stateless_transportstate.rs),
-- where the caller gives the nonce of each message.
--
-- The files, with the code that each models:
-- - Error, Constants, Toggle: src/error.rs, src/constants.rs, src/utils.rs.
-- - Outcome, Exec: results and panics, and the `&mut` state of methods; `copy_slices!` of src/lib.rs.
-- - Types: the traits of src/types.rs as records of operations (Types.Traits), `hmac` and `hkdf`
--   (Types.Hmac), and the laws that ciphers and hash functions are used under (Types.Laws).
-- - Params: the choices of a name (Params.Choices), the patterns (Params.Pattern), modifiers and
--   their parsers (Params.Modifier), `NoiseParams` (Params.NoiseParams), the token table
--   (Params.Table) and `HandshakeTokens` (Params.Tokens). The theorems stand in Params.Names,
--   Params.StaticKeys, Params.PreMessages, Params.PskPosition, Params.Readable and
--   Params.RoundTrip.
-- - CipherState, with the stateless cipher states in CipherState.Stateless; theorems in
--   CipherState.Nonces and CipherState.Seal.
-- - SymmetricState, with its theorems in SymmetricState.Sync and SymmetricState.Returned.
-- - HandshakeState: state, construction and accessors; HandshakeState.Write and HandshakeState.Read
--   are the two messages, one function per token; theorems in HandshakeState.Frame,
--   HandshakeState.Turns, HandshakeState.Finish and, on two sides, HandshakeState.Agreement and
--   HandshakeState.InStep, whose child modules follow a message from its writer to its reader:
--   each token (Ephemeral, Static, Sent, Sealed, Mixed), the loop (Tokens), the payload and the
--   split (Payload, Delivered), the message (Calls, Message) and the handshake (Conversation).
-- - TransportState, with the theorems on one call in TransportState.Messages and
--   TransportState.Links, on a direction in TransportState.Channel, on a session of two sides in
--   TransportState.Session, TransportState.Progress and TransportState.Recovery, on nonces in
--   TransportState.Nonces, and
--   on the end of a handshake in TransportState.Opening.
-- - StatelessTransportState.
-- - Resolver: src/resolvers/mod.rs. Resolver.Crates has the functions of other crates, as records
--   of operations and of laws; Resolver.Default the wrappers of src/resolvers/default.rs: Ciphers
--   (theorem in RoundTrip), Dh25519, Hashes (theorem in Digests), and the resolver in Resolve
--   (theorem in Named). A boxed implementation is one of the wrappers, and Resolver.NonceBytes has
--   the bytes of nonces.
--   Resolver.Ring is src/resolvers/ring.rs (theorem in RoundTrip) and Resolver.Sodium is
--   src/resolvers/libsodium.rs (theorems in RoundTrip and KeyPair), each with its own interface to
--   the crate.
-- - Types.Total, SymmetricState.Total, HandshakeState.Total and Params.Writable are on when calls
--   return: of `hmac` and `hkdf`, of the symmetric state, of `write_message`, and what a writer needs
--   for the tokens of a pattern. Builder.Completes brings them together.
-- - Builder, with Builder.Made for the steps of a call of `build`, Builder.Prerequisites for what a
--   built handshake state satisfies, Builder.Opening for when it becomes a transport state, and, on
--   two sides, Builder.Keys, Builder.Matching (over HandshakeState.Start) and Builder.Delivery.
-- - Example: the programs of examples/simple.rs, their `send`, `recv` and loops (Example) and how
--   they go on from message to message (Example.Programs); theorems on the framing
--   (Example.Framing), on the loops (Example.Planet), and on a run of both programs
--   (Example.Session, over Configured, Turns, Handshake, Name and Opening).
-- - Base: the library names, Boolean tests and list lemmas that all share.
-- - Tests: implementations of the traits that compute, runs, and the theorems at concrete inputs.
--
-- How state is modelled. A method on `&mut self` that can fail is a function from the state to a
-- result and the state behind the call; changes made before an error or a panic are kept, as in
-- the code. `Result` has a third case `panic` for `unwrap`, `assert!`, `unreachable!` and an index
-- or a slice out of bounds. A buffer that is passed as `&mut [u8]` is a list of bytes of the same
-- length in the state. A call on a field is a call under a lens. Callees under `Box<dyn ...>` are
-- instance arguments with the state of the object as a type parameter.
--
-- Bounds. A byte is a natural number and the parsers keep a `u8` below 256; the nonce is a `u64`
-- with the checked addition of the code, which panics at the last one. Lengths are sums of a few
-- lengths of slices and constants below 65536, which do not reach 2 ^ 64, so they are written as
-- plain sums. The loops go over lists, but for that of the
-- server in examples/simple.rs: it runs on fuel, one more than the bytes on the stream, of which each
-- round takes two at least; without fuel it would panic, and the theorems show that it returns.
--
-- Not modelled. The features `hfs` (with `Kem` and the tokens `E1` and `Ekem1`), `xchachapoly`,
-- `pqclean_kyber1024` and `risky-raw-split` are off, and `Builder::new`, which picks a resolver by
-- feature, is left out. Of examples/simple.rs the command line and the opening of sockets are left
-- out; a stream is the list of bytes that were written and not read, which stays open while it is
-- written to. The random generators of the resolvers are parameters. What the code relies
-- on in an implementation of the traits is in Types.Laws as hypotheses: that a cipher opens what it sealed under the same key, nonce and
-- associated data, that a hash function writes its digest, and that two key objects agree on their
-- shared secret; Types.Total adds, for the theorems on calls that return, the sizes of blocks and
-- that `dh` does not fail on key pairs, which a function that refuses some secrets does not meet. `Debug` and `Display`, and that comparisons of keys take constant time, have no
-- counterpart.
pub mod Base
pub mod Error
pub mod Outcome
pub mod Exec
pub mod Constants
pub mod Toggle
pub mod Types
pub mod Params
pub mod CipherState
pub mod SymmetricState
pub mod HandshakeState
pub mod TransportState
pub mod StatelessTransportState
pub mod Resolver
pub mod Builder
pub mod Example
pub mod Tests
