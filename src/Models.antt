-- ===== src/Models.antt =====
-- models.py: the dataclasses that the coordinator, the entities and the client pass around.
pub mod Health
pub mod Config
pub mod Room
pub mod Plan
pub mod Writes
