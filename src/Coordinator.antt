-- ===== src/Coordinator.antt =====
-- coordinator.py and room_runtime.py: the scheduler of the poll ticks, the state of the rooms, and
-- the reads and commands that change it.
pub mod Poller
pub mod Unfinished
pub mod State
pub mod Availability
pub mod Resolved
pub mod Readbacks
pub mod Commands
pub mod Requests
pub mod Jobs
pub mod Updates
