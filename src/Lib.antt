-- ===== src/Lib.antt =====
-- Ledger Sovereign: the application for the Ledger devices under app/src.
--
-- A host sends commands (APDUs) to the device. handleApdu (app/src/apdu_handler.c) answers three: the
-- version, the address of a key, and the signature of a message that comes in chunks. The chunks of
-- a message are kept by a buffering library through app/src/common/tx.c; when the last one has come,
-- the message is parsed (app/src/parser.c, app/src/parser_impl.c) and shown for approval. The
-- callbacks of the review (app/src/common/actions.h) then sign or reject. Keys, signatures and
-- addresses are made by app/src/crypto.c and app/src/crypto_helper.c.
--
-- The files, each for the code that it names at its top:
--   Base, Base/*       native numbers, lists and C memory: helpers and lemmas
--   Codes, Codes/Code  app/src/coin.h, app/src/crypto_helper.h, the codes of docs/APDUSPEC.md
--   Codes/Path, Codes/Wire
--                      the path of docs/APDUSPEC.md as numbers and as bytes, numbers with the high byte
--                      first, and the status word of a code: what the specifications say them with
--   Platform, Platform/Defs, Platform/Laws
--                      the parameters: the SDK, bech32, the formatting and buffering libraries and the
--                      macros of the build, as records of operations; what the program relies on of
--                      them, as records of laws
--   Parser, Parser/*   app/src/parser.c, app/src/parser_impl.c, app/src/parser_txdef.h and
--                      app/src/common/parser_common.h; parser_getItem is parser_get_item, and so on
--   Tx, Tx/*           app/src/common/tx.c: its statics are the record TxState
--   Crypto, Crypto/*   app/src/crypto.c and app/src/crypto_helper.c: a pointer argument is an Option
--                      of bytes, and a function returns what it points to afterwards, with its secret
--                      locals as they are on return
--   Device, Device/Rules
--                      the globals of the application as the record Device, and computations over it
--                      that return, throw or fault
--   Actions            app/src/common/actions.h
--   AddrView, AddrView/Items
--                      app/src/addr.c
--   Apdu, Apdu/*       app/src/apdu_handler.c: one definition for each handler and for each case of
--                      process_chunk; Apdu/Upload is the specification of the upload, a state machine
--                      over byte strings, and Apdu/Refine relates the code to it
--   Protocol           the specification of the whole application over byte strings: what each
--                      command asks for, from the bytes of its frame and the upload so far
--   Protocol/*         the relation of a device to an answer of the specification (Protocol/Reply),
--                      each handler against it (Chunk, Sign, Found, Address, Commands), and the specified
--                      machine that waits for a command or for the user (Protocol/Machine)
--   Session, Session/* commands and button presses as a step relation, its reachable states, and the
--                      invariant; Session/Approval, Session/Replies and Session/Endings are about
--                      what the callbacks reply, Session/Host and Session/Upload about a host that
--                      sends a message in chunks, Session/Trace about the replies that the device
--                      sends over a sequence of events, and Session/Simulate about device and machine,
--                      and what follows: leftovers in buffers and a locked device (Secrecy), other keys
--                      (Keys), no approvals (Consent), the screen of an address (Screen), the message of
--                      a review, on the screen (Signing) and in the history of the chunks (History,
--                      Explained), and what a device still answers after any session (Answers)
--   Fuzz, Fuzz/Passes  fuzz/parser_parse.cpp, the harness of the parser
--   HostTests, HostTests/*
--                      tests/utils/common.cpp and tests/ui_tests.cpp: the dump of the screens;
--                      HostTests/Listing is the listing that is expected, HostTests/Loops about both
--                      loops, and HostTests/Prints about the test
--   HostTests/Vectors, HostTests/Vectors/*
--                      tests/address_encoding.cpp and .h and tests/parser_impl.cpp: the test of the
--                      address encoder (Wallet) with its vectors (Table), what it means for a device
--                      (Agreement), and toHexString (Hex)
--   Boot               app/src/common/main.c
--   Sr25519, Sr25519/* app/rust/src/lib.rs and app/rust/src/bolos.rs, the signatures of the Rust
--                      library: Sr25519/Interfaces and Sr25519/Laws are the crates it uses and their
--                      laws, Sr25519/Buffers is about buffers in parts, Sr25519/Halves about the
--                      half that phase 2 writes, Sr25519/Verifier is the verification of a
--                      signature, from the crates alone, Sr25519/Verifies about both phases, and
--                      Sr25519/Keypair about a key that is made and signs, as in the tests of lib.rs.
--                      The C code does not call the library
--   Tests, Tests/*     Tests/Sample is a platform with its laws; the others are runs on it and the
--                      theorems at concrete inputs, one file for each of the parts
--
-- Integers are native numbers with the wrap of their C type written out: sub32 for a uint32_t
-- subtraction, `% 2 ^ 16` where a size becomes a uint16_t. A read or write outside of the APDU
-- buffer, a read through NULL and a read past the end of the data are faults and never values. The
-- loop of parser_validate runs on fuel, one more than the number of items, which is enough
-- (Parser/Validate). The loops of the fuzzing harness run on 257 rounds for the pages of an item, of
-- which there are at most 255, and on one more than the number of items (Fuzz/Passes); so do those of
-- dumpUI (HostTests/Loops). Numbers are printed with at most five digits, enough for a uint16_t. A
-- throw leaves what was written before it, as the longjmp of the SDK does.
--
-- Not modelled: the logging; the stack canary, which is taken to pass; the panic handler of the Rust
-- library, a loop without end (a panic is a value of its own); the reading of tests/testcases.json,
-- which is input; the emulator tests under tests_zemu, which are scripts in another language; and the
-- build files, whose values are the fields of a record.
-- The SDK with its main loop, the view, the libraries and the crates are parameters; one field stands
-- for SHA-256, that of the SDK on the device and that of picohash in the host build.
-- While a review is on the screen the device receives no command, as IO_ASYNCH_REPLY asks of the
-- SDK; Session takes that for granted. A session has no empty command: for one, handleApdu reads a byte
-- that an earlier command has left.
pub mod Base
pub mod Codes
pub mod Platform
pub mod Parser
pub mod Tx
pub mod Fuzz
pub mod HostTests
pub mod Sr25519
pub mod Crypto
pub mod Device
pub mod Boot
pub mod AddrView
pub mod Actions
pub mod Apdu
pub mod Protocol
pub mod Session
pub mod Tests
