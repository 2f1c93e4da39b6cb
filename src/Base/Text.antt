-- ===== src/Base/Text.antt =====
-- Texts: lists of Unicode code points, with the parts of Rust's `str` that the program calls.
mod Defs
mod Split
mod Trim
pub use Trim.*
pub use Split.*
unfoldable pub use Defs.{
  Text, text, period, comma, dash, at_sign, is_whitespace, contains, split, join, trim_start, trim,
  starts_with, ends_with, strip_prefix, strip_suffix, split_words,
}
