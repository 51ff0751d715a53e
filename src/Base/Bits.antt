-- ===== src/Base/Bits.antt =====
-- Laws of `|`, `&` and `^` at variables, by strong induction over the binary digits.
mod Digits
pub mod Fields
pub mod Subset
pub mod Power
