-- ===== src/Lib.antt =====
-- P256Account: a smart account for Arbitrum Stylus whose owner is a P-256 key, its unit tests, and its
-- integration harness.
--
-- The program. contracts/stylus/p256-account/src/lib.rs is the contract. It stores the owner's key, a
-- nonce that `execute`, `execute_batch` and `rotate_owner` share, and a re-entrancy flag. Each of the
-- three computes an EIP-712 digest of its arguments, checks the nonce and a signature over the digest
-- by the RIP-7212 precompile, consumes the nonce, and then calls out or replaces the key. Token
-- receiver hooks, ERC-165, EIP-1271, a fallback and a bare ether receiver complete its interface.
-- contracts/stylus/devnode-tests/src/main.rs deploys the contract on a development node and signs
-- requests with its own copy of the digest code; it starts cast and cargo, reads the outcome from their
-- output, and runs five scenarios. Both files have unit tests.
--
-- Files. Names in the models are those of the source, spelled in snake case.
--   Base           numbers, lists, options and results; Base/Tests has the Boolean tests, Base/Lists
--                  take, drop and length, Base/Outcome the result type
--   Bytes          byte strings, to_be_bytes, from_be_bytes, copy_from_slice; Bytes/RoundTrip,
--                  and Bytes/Valid, lists of numbers below 256
--   P256           the curve constants, is_low_s, is_valid_scalar, is_valid_pubkey_component,
--                  is_on_curve, is_valid_pubkey; P256/Values, P256/Curve
--   Host           what the contract calls and does not implement, as one record
--   Eip712         the type hashes and compute_*_hash with their buffers; Eip712/Layout, Calls,
--                  Batch, Collision, Message, Fields, Binding
--   Errors         P256AccountError and what a check gives
--   Signature      validate_p256_signature, verify_p256_precompile; Signature/Verdict, Malleable,
--                  and Signature/Shim, the stand-in for the precompile in the unit tests
--   Validators     the pure validators and the request records; Validators/Decisions, Decided
--   Machine        the storage, the events, the journal, and the actions that methods are made of
--   Account        the public methods with enter and exit; Account/Execute, Rotate, Reports, Batch,
--                  BatchLoop, BatchCases
--   Receivers      the token hooks, supports_interface, fallback, receive; Receivers/Interfaces
--   Chain          requests, replies, frames that are undone on an error, callees that call back;
--                  Chain/Guard, Transition, Settled, Refine, Effect, Invariant, History, Progress,
--                  Views, Answers
--   Harness        the digest builders of the harness; Harness/Digests
--   Harness/Receipt  parse_executed_outcome_from_receipt; its RoundTrip, Search, Verdict
--   Harness/Output   strip_ansi, first_address_token, extract_deployed_address, parse_addr; Occurs,
--                  Announced, Address, Ansi, Parse
--   Harness/Runner run_all and run_one; Outcomes
--   Harness/Shell  the commands run, their output and make_ctx; Commands, Reads, Setup
--   Harness/Main   the command line; Outcome, Passing, Generated
--   Harness/Keys   Keypair::generate and Keypair::sign
--   Harness/Node   the interface to the development node, and what the scenarios rely on
--   Harness/Scenarios  the specification of the five tests, as transactions and reads; Steps, Passing,
--                  Funds, Signing
--   Harness/Session  the five tests as the harness runs them, as commands; World, what is relied on
--                  of the commands; Sim, Replies, Checks, Signed and Refine, the commands against
--                  the steps of the scenarios; Table with TESTS
--   UnitTests      the unit tests as functions into Bool: the contract's in Constants, Curve, Layouts,
--                  Signatures, Requests, TypeHashes, Selectors and Separation, the harness's in
--                  Parser; Build has the validators as cfg(test) builds them; Passing runs the
--                  tests that no digest decides
--   Examples       a concrete chain, a concrete node and runs on them; Examples/Cast is a cast and a
--                  cargo that act on that node, Examples/Hex a codec; Examples/Keccak is keccak-256,
--                  on which Examples/UnitTests runs the tests of the type hashes
--
-- Correspondence. A `U256`, a `B256` and an `Address` are natural numbers; a theorem that needs their
-- range says so. A byte string is a list of numbers. `copy_from_slice lo hi src buf` is
-- `buf[lo..hi].copy_from_slice(src)`, with the empty string where Rust panics. The nonce's increment
-- wraps at 2^256, a length reported in an error at 2^64. A method is a function from a machine (the
-- storage and the journal of events and outbound calls) to a result and a machine, and keeps the
-- writes it made before an error; the frame around it, in Chain, undoes them. A callee is a tree
-- (`Program`) that calls the account back as often as it likes, each time deciding by the reply, and
-- then returns or reverts. Indexing out of range is a panic.
--
-- Fuel. Every loop is structural, over the arrays or over the bytes, but for the decimal digits of a
-- u64, which are at most 20 (Harness/Shell/Reads), and of a balance, a word, which are at most 78
-- (Harness/Session/World).
--
-- Parameters. keccak-256, the static call of the precompile, the chain id and the account's address
-- are fields of `Host`. Where digests must be words, this is a hypothesis. No theorem assumes that
-- keccak-256 is injective. serde_json and hex are the fields of `Json` in Harness/Receipt, the
-- development node with its balances and receipts those of `Node` in Harness/Node, the processes that
-- the harness starts those of `Tools` in Harness/Shell, what they do those of `World` and `Speaks` in
-- Harness/Session/World, the p256 crate those of `Crate` in
-- Harness/Keys.
--
-- Not modelled: the ABI dispatch and the storage layout that stylus-sdk generates; gas; the contract's
-- balance (a transfer of more than the account holds is one of the ways in which a callee can fail; the
-- node of the harness has balances); in the harness, the reading of the arguments by clap and the
-- progress messages; what cast and cargo do inside, which is a hypothesis on each command's text
-- (Harness/Session/World); the mobile
-- clients and the tooling under sdk/.
pub mod Base
pub mod Bytes
pub mod P256
pub mod Host
pub mod Eip712
pub mod Errors
pub mod Signature
pub mod Validators
pub mod Machine
pub mod Account
pub mod Receivers
pub mod Chain
pub mod Harness
pub mod UnitTests
pub mod Examples
