-- ===== src/Node.antt =====
-- The parser of node URIs in subscription-manager/main.go (`queryBool`, `tlsFrom`, `transportFrom`,
-- `parseURI`): the definitions, passed on, and the modules that prove things of them.
pub mod Defs
pub mod Options
pub mod Credentials
pub mod Parse
pub mod Kept
pub mod Accepted
pub mod WellFormed
pub mod SameNode
pub mod Reality
unfoldable pub use Defs.*
unfoldable pub use Options.*
unfoldable pub use Credentials.*
unfoldable pub use Parse.*
