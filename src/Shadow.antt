-- ===== src/Shadow.antt =====
-- catalog-client/internal/shadow/shadow.go and catalog-client/cmd/catalog-shadow/main.go.
pub mod Defs
pub mod Access
pub mod Given
pub mod Snapshot
pub mod Place
pub mod Alias
pub mod Output
pub mod Candidate
pub mod Chosen
pub mod Sources
pub mod Tags
pub mod Run
pub mod Unharmed
pub mod Moments
pub mod Published
pub mod Cleanup
pub mod Building
pub mod Complete
pub mod Command
pub mod Executed
