-- ===== src/Tests.antt =====
-- Concrete rooms and states, and the theorems at concrete inputs.
mod Samples
mod Modes
mod Writes
mod Shown
mod Health
mod Schedules
mod Helpers
mod Links
mod Coordination
mod Scheduler
mod Client
mod Issues
