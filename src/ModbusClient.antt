-- ===== src/ModbusClient.antt =====
-- modbus_client.py: the reads and writes of a unit, with what the client remembers between them.
pub mod Backoff
pub mod Staged
pub mod Health
pub mod Due
pub mod Poll
