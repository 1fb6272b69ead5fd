-- ===== src/Domain.antt =====
-- The domain package: domain/*.go. A UUID and a time are numbers, a nil pointer is `none`, and Go's
-- zero values are "" and 0.
mod Dynamic
mod Definition
mod Run
mod Rows
unfoldable pub use Dynamic.*
unfoldable pub use Definition.*
unfoldable pub use Run.*
pub use Rows.*
