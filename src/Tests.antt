-- ===== src/Tests.antt =====
-- Runs of the model on concrete inputs, and an instance of every property that has hypotheses.
mod Fixture
mod Runs
mod Selection
mod Policies
mod Registries
mod Names
mod Approvals
mod Configurations
mod Conversations
mod Remote
mod Projects
mod Wirings
mod Demonstrations
mod Commands
