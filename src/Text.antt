-- ===== src/Text.antt =====
-- Go strings as lists of code points, with what the source uses of the package strings. A string
-- that is not valid UTF-8 is not modelled.
mod Space
mod Split
mod Order
unfoldable pub use Space.*
unfoldable pub use Split.*
unfoldable pub use Order.*
