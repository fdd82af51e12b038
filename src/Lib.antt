-- ===== src/Lib.antt =====
-- Verification of the Home Assistant integration for MELTEM ventilation units.
--
-- The integration polls units behind a Modbus gateway, decodes their registers into one state per
-- room, plans register writes for user commands and judges by later readbacks whether a command
-- arrived. Its code is under custom_components/meltem_ventilation; the parts and their files:
--
-- custom_components/meltem_ventilation/const.py:
--   Const and its children Modes, Profiles and Groups. The closed sets of texts of the
--   source (modes, presets, read groups, settings) are data types, the tables are functions.
-- custom_components/meltem_ventilation/models.py:
--   Models and its children Health, Config, Room, Plan and Writes. The read health of a
--   room is the sorted list of pairs of the source.
-- custom_components/meltem_ventilation/device/components.py:
--   Device holds the mode block and the mode status.
-- custom_components/meltem_ventilation/mode_codec.py:
--   ModeCodec turns commands into register writes and status reads into values of
--   a room, as operating_mode_writes, preset_mode_writes and apply_mode_read do.
-- custom_components/meltem_ventilation/polling.py:
--   Polling builds the jobs, selects the next one and computes tick and backoff.
-- custom_components/meltem_ventilation/read_health.py:
--   ReadHealth decides how fresh a group is and records how a job fared.
-- custom_components/meltem_ventilation/levels.py:
--   Levels finds targets and reported levels and plans a fan write.
-- custom_components/meltem_ventilation/modbus_helpers.py:
--   ModbusHelpers holds the normalized settings and the supported keys,
--   ModbusHelpers.Discovery the scan for units and ModbusHelpers.Probe the detection of a profile.
--   The replies of the bus are arguments: Reply and ProbeReply name what a request can come to.
-- custom_components/meltem_ventilation/write_confirmation.py:
--   WriteConfirmation.Judging judges one write, Store is the tracker with its
--   operations, Rounds is confirm over all rooms, Balanced decides on the read of register 41121.
-- custom_components/meltem_ventilation/overlay.py:
--   Overlay shows a pending value until a readback confirms it or its window ends.
-- custom_components/meltem_ventilation/device/transport.py:
--   Transport is the policy of every request over one link: run and _attempt
--   on how their attempts went, with quarantine, retry and the recycling of the link.
-- custom_components/meltem_ventilation/gateway_reads.py:
--   GatewayReads is a value that is read only while a consumer needs it, and the
--   time at which a failed read is tried again.
-- custom_components/meltem_ventilation/modbus_client.py:
--   ModbusClient.Due lists the fields and components that a read plan reads, Poll is _poll and
--   _read_mode_block on what the reads come to, Backoff the growing pause of refused reads, Health
--   the errors of a read and the health that it leaves, Staged the mode registers that an
--   interrupted command may have left on a unit.
-- custom_components/meltem_ventilation/coordinator.py and room_runtime.py:
--   Coordinator.Poller is the scheduler of polls, State the cached states, overlays and runtimes of
--   the rooms, Availability what a room and its groups count as, Resolved the levels that are shown
--   and commanded, Readbacks the reads after a command, Commands a write with its confirmation,
--   Requests the commands for levels, modes, presets and settings, Jobs the read of one job over its
--   rooms, Updates a tick from the choice of a job to its end. Unfinished
--   has the lemmas about unfinished writes, Backoff and Startup of Poller those about the scheduler.
-- custom_components/meltem_ventilation/missing_sensors.py and new_units.py:
--   MissingSensors counts the placeholders of a sensor and raises or deletes its issue as record
--   does, NewUnits is update of the issue of units that are not set up. The calls of the issue
--   registry are recorded as lists.
-- Prelude has what these share: dictionaries as association lists, results, rounding, tests.
--
-- How they interact: ReadHealth reads the health lists of Models; Levels asks ReadHealth whether a
-- group is fresh; WriteConfirmation compares with the health at the time of the write and with
-- the levels of Levels; Transport decides which requests reach the bus; Overlay shows its value
-- until ReadHealth finds a read since it was set and the value read matches.
-- The coordinator composes these: a tick asks Polling for a job, records with ReadHealth how it
-- fared and settles overlays and writes; a command goes through Levels and ModeCodec to the client,
-- is recorded by WriteConfirmation and shown by Overlay. What the client answers and the clocks of a
-- step are arguments of the coordinator's functions, requests that it sends are values of
-- ClientWrite in a list, and calls of its listeners are counted.
--
-- Times are whole milliseconds, a Clock record of the monotonic and the wall clock is passed to
-- what reads one; a function that runs without waiting reads its clock once. Registers and levels
-- are natural numbers; a measured float is the bit pattern of its registers, as no modelled code
-- computes with it. An exception is a Result with an Error.
-- Every loop is a structural recursion over the list that the source iterates, the two reads of
-- the probe included; only the whole logarithm of GatewayReads (doublings) runs on fuel, the
-- refresh time, which is enough because the doubled retry time grows by one at least in every step.
--
-- Not modelled: of the coordinator its diagnostic listeners, which units a call of the listeners may
-- skip, the switches of the optional reads, and calls that only pass a request on; of the modbus
-- client the link and the unit objects, the decoding of a component's fields (with the
-- absolute humidity, a computation on floats), and reads that only return a value; how the repair
-- issues of an earlier run are read back from the texts of the registry; the entities
-- and the configuration flows of Home Assistant, the tools, and what only formats values for
-- display or logs.
pub mod Prelude
pub mod Const
pub mod Models
pub mod Device
pub mod ModeCodec
pub mod Polling
pub mod ReadHealth
pub mod Levels
pub mod ModbusHelpers
pub mod WriteConfirmation
pub mod Overlay
pub mod Transport
pub mod GatewayReads
pub mod ModbusClient
pub mod Coordinator
pub mod MissingSensors
pub mod NewUnits
mod Tests
