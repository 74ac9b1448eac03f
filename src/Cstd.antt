-- ===== src/Cstd.antt =====
-- What the program uses of the C language and its library: undefined behaviour as a fault, strings
-- in arrays of bytes, and the decimal conversions of sprintf, atoi and sscanf.
mod Fault
mod Text
mod Number
pub mod Laws
pub use Fault.*
unfoldable pub use Text.*
unfoldable pub use Number.*
