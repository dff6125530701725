-- ===== src/Feed.antt =====
-- The body of a subscription: `decodeBody` of subscription-manager/main.go.
pub mod Defs
pub mod Trim
pub mod Lines
pub mod Encoded
unfoldable pub use Defs.*
