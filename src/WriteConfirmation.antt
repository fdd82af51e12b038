-- ===== src/WriteConfirmation.antt =====
-- write_confirmation.py: the outcome of each write, judged by the next readback of its register
-- group. The calls of the issue callback are a list that grows.
pub mod Judging
pub mod Store
pub mod Rounds
pub mod Balanced
