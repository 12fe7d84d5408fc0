-- ===== src/Sequential.antt =====
-- include/pb/runtime/sequential.hpp: the sequential engine.
pub mod Calls
pub mod Branch
pub mod FanIn
pub mod Engine
pub mod Balanced
pub mod Compose
pub mod Verdict
pub mod Yields
pub mod Slots
pub mod Fresh
pub mod Stateless
pub mod Attribution
pub mod TypedRun
pub mod RunAgrees
pub mod Unwinding
pub mod PlainRuns
pub mod EngineRuns
pub mod NativeRuns
mod Tests
mod RunTests
pub mod Settling
