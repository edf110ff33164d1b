-- ===== src/Tests.antt =====
-- Runs of the operations on small inputs, and an application of each theorem at concrete arguments.
pub mod Fixtures
mod Calls
mod Files
mod Cache
mod Parser
mod Program
mod Threads
