-- ===== src/Deploy.antt =====
-- src/api/deploy.rs, src/services/deploy/: a deploy from its trigger to the end of its run.
pub mod Trigger
mod Tests
mod RunTests
mod StrategyTests
pub mod Execute
pub mod DockerBuild
pub mod Compose
pub mod Script
pub mod Strategy
pub mod Center
pub mod Xiaojincut
pub mod Logs
pub mod Queries
pub mod Recover
