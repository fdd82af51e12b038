-- ===== src/Coordinator/Requests/Pending.antt =====
-- coordinator.py: the airflow that the next command of a room builds on after an accepted write.
use meltem_ha.Coordinator.State.{Coordinator}
