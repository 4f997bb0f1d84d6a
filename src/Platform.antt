-- ===== src/Platform.antt =====
-- What the program uses and does not contain, as parameters: the build's constants, Ledger's
-- cryptography (cx.h, os.h), and the Zondax library's formatting and buffering.
mod Defs
mod Laws
pub use Defs.*
pub use Laws.*
