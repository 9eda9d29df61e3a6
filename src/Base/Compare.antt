-- ===== src/Base/Compare.antt =====
-- Three-way comparison. Go's -1, 0 and 1 are `lt`, `eq` and `gt`.
mod Lex
unfoldable pub use Lex.*
