-- ===== src/Text.antt =====
-- Texts: the string methods of the program, and what is proved of them.
mod Defs
mod Laws
pub mod Digits
pub mod Decimal
unfoldable pub use Defs.*
pub use Laws.*
