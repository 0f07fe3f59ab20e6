-- ===== src/Node.antt =====
-- The parts of the node runtime of src/mycoagent/node/.
pub mod Jobs
pub mod Agent
pub mod Target
pub mod Parent
pub mod Submit
pub mod Mailbox
mod Tests
pub mod Samples
mod ServiceTests
pub mod Executor
pub mod Api
pub mod Host
pub mod Heartbeat
pub mod Names
pub mod Workspace
pub mod Specs
pub mod Providers
pub mod Capabilities
pub mod OpenCode
pub mod LocalConfig
pub mod Planner
