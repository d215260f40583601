-- ===== src/Tests.antt =====
-- Concrete instances of the external libraries, the theorems at concrete inputs, and runs of the
-- definitions.
mod World
mod Wire
mod Cleared
mod Connections
mod Handlers
mod Calls
mod Interleavings
mod Failures
mod RawCalls
mod Lifetimes
mod Deadlines
mod Servers
mod Pools
mod Texts
mod Types
mod Threads
mod Files
