-- ===== src/Text.antt =====
-- Go strings as sequences of bytes, with what the driver uses of the packages `strings` and
-- `strconv`. Case mapping and white space are those of ASCII texts.
mod Bytes
mod Numbers
mod Spaces
mod Counts
unfoldable pub use Bytes.*
unfoldable pub use Numbers.*
pub use Spaces.*
unfoldable pub use Counts.*
