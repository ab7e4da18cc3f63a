-- ===== src/Pyspec.antt =====
-- The pyspec harnesses, packages/EthCLSpecs/PySpecTests/harness.py and
-- packages/SizzLean/PySpecTests/harness.py: the client of the Lean server, the walk over the cases on
-- disk, and the request lines.
pub mod Archive
pub mod Client
pub mod Walk
pub mod ForkChoice
pub mod Requests
pub mod Tests
