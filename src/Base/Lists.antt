-- ===== src/Base/Lists.antt =====
-- Lists: native lengths, Boolean searches with their meaning over the library's `Memᴰ`, filters.
mod Facts
unfoldable pub use Facts.*
pub use mathlib.Core.List.Memᴰ
pub use mathlib.Core.List.{Memᴰ}
