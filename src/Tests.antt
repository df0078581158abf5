-- ===== src/Tests.antt =====
-- Tests: concrete runs of the code, and the theorems at concrete inputs.
pub mod Scenario
mod Transport
mod Components
mod Messages
mod Requests
mod Verbs
mod Cm
