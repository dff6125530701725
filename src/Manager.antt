-- ===== src/Manager.antt =====
-- subscription-manager/main.go: the manager and its HTTP service.
pub mod Names
pub mod Defs
pub mod Fetch
pub mod Requests
pub mod Gather
pub mod Gathered
pub mod Tags
pub mod Providers
pub mod Files
pub mod Build
pub mod Update
pub mod Settings
pub mod Writing
pub mod Publish
pub mod Committed
pub mod Recovery
pub mod Untouched
pub mod Base
pub mod Feeds
pub mod Fed
pub mod Refresh
pub mod Transaction
pub mod Service
pub mod Loop
pub mod Running
pub mod Served
pub mod Ready
pub mod Contract
pub mod Handler
pub mod Replies
pub mod Posted
