-- ===== src/Coordinator/Updates.antt =====
-- coordinator.py: the update of a poll tick, around the read job that it selects.
use meltem_ha.Coordinator.Jobs.{TickInput, read_one_job}
use meltem_ha.Coordinator.Poller.{
  Poller, Selection, claim_read_slot, delay_failed_update, move_job, next_interval,
  on_transport_failure, on_transport_success, schedule_next_tick, select_poll_job, start_job,
}
use meltem_ha.Coordinator.Readbacks.{claim_slot, confirm_pending_writes}
use meltem_ha.Coordinator.State.{Coordinator, state_or}
use meltem_ha.Models.Config.{RoomConfig}
use meltem_ha.Models.Room.{RoomState, empty_room_state, has_data}
use meltem_ha.Polling.{PollJob, never_read}
use meltem_ha.Prelude.{
  Bool, List, Option, String, [], any, false, if◌then◌else◌, none, not, some, str_eq, true, ◌&&◌,
  ◌+◌, ◌||◌, ◌∷◌,
}
use meltem_ha.Prelude.Assoc.{lookup, string_discrete}

-- How an update ends: with the states, or with UpdateFailed.
pub data UpdateEnd : Type 0 where
  updated : UpdateEnd
  update_failed : UpdateEnd

abbrev pub is_empty_dict : List (String × RoomState) → Bool
is_empty_dict [] = true
is_empty_dict _ = false

-- `any(state.has_data for state in updated_data.values())`
unfoldable pub any_data : List (String × RoomState) → Bool
any_data states = any (λ e. has_data e.1) states

unfoldable pub with_poller : (Poller → Poller) → Coordinator → Coordinator
with_poller f c = record c { poller = f c.poller }

-- _on_transport_failure or _on_transport_success, by how the job fared
unfoldable pub judge_transport : TickInput → Coordinator → Coordinator
unfolding with_poller
judge_transport x c =
    if c.last_job_link_failure
    then with_poller on_transport_failure c
    else if c.last_job_attempted
    then with_poller (on_transport_success x.later.monotonic x.dues) c
    else c

-- The `except` of the update: before any state arrives, an unsuccessful job is a failure.
unfoldable pub failed_update : TickInput → Coordinator → Coordinator × UpdateEnd
unfolding with_poller
failed_update x c = (with_poller delay_failed_update (judge_transport x c), UpdateEnd.update_failed)

-- The tick without a job
unfoldable pub idle_update : TickInput → Coordinator → Coordinator × UpdateEnd
unfolding with_poller is_empty_dict
idle_update x c = (
  with_poller
      (λ p.
        schedule_next_tick x.later.monotonic x.dues
          (if x.optional_read then claim_read_slot x.later.monotonic p else p))
      c,
  if is_empty_dict c.startup_states then UpdateEnd.updated else UpdateEnd.update_failed,
)

-- The data of a finished job: start-up states, or the data that listeners get.
unfoldable pub take_data :
    TickInput → List (String × RoomState) → Coordinator → Coordinator × UpdateEnd
unfolding any_data with_poller
take_data x states c =
    if not (any_data states)
    then failed_update x (record c { startup_states = states })
    else (let c' = judge_transport x (record c { startup_states = [] }) in
        let c'' = confirm_pending_writes x.later states false c' in
        (
          with_poller (schedule_next_tick x.later.monotonic x.dues)
              (record c'' { safe_data = states }),
          UpdateEnd.updated,
        ))

-- After its read: an optional read when the link did not fail, and a new due time while the job
-- has not been read.
unfoldable pub settle_job :
    TickInput → RoomConfig → PollJob → Bool → List (String × RoomState) → Coordinator → Coordinator
unfolding with_poller
settle_job x room job startup states c =
    let never =
      never_read job room (state_or (lookup string_discrete room.key states) empty_room_state) in
    let c' = if x.optional_read && not c.last_job_link_failure then claim_slot x.later c else c in
    if startup || never
    then with_poller
        (move_job job
          (x.later.monotonic + next_interval x.later.monotonic x.silent_after never job c'.poller))
        c'
    else c'

-- The start of a job: its due time, the claim of the read slot and the flags of the last job
unfoldable pub begin_job : TickInput → Selection → PollJob → Coordinator → Coordinator
begin_job x s job c = record c {
  poller =
      start_job x.clock.monotonic
        (x.clock.monotonic + next_interval x.clock.monotonic x.silent_before false job s.poller) s;
  last_job_error = none;
  last_job_link_failure = false;
  last_job_attempted = false;
}

-- `self.safe_data or self._startup_states`
unfoldable pub states_to_read : Coordinator → List (String × RoomState)
unfolding is_empty_dict
states_to_read c = if is_empty_dict c.safe_data then c.startup_states else c.safe_data

unfoldable pub run_job :
    TickInput → RoomConfig → Selection → PollJob → Coordinator → Coordinator × UpdateEnd
run_job x room s job c =
    let c' = begin_job x s job c in
    let read = read_one_job x room job.refresh_plan (states_to_read c') c' in
    take_data x read.1 (settle_job x room job s.startup read.1 read.0)

-- `self._rooms_by_key[job.room_key]`, which holds the rooms of all jobs
unfoldable pub room_of_job : List RoomConfig → PollJob → Option RoomConfig
room_of_job [] job = none
room_of_job (room ∷ rooms) job =
    let rest = room_of_job rooms job in if str_eq room.key job.room_key then some room else rest

unfoldable pub run_found :
    TickInput → Selection → PollJob → Option RoomConfig → Coordinator → Coordinator × UpdateEnd
unfolding run_job
run_found x s job none c = (record c { poller = s.poller }, UpdateEnd.update_failed)
run_found x s job (some room) c = run_job x room s job c

unfoldable pub update_with :
    TickInput → Selection → Option PollJob → Coordinator → Coordinator × UpdateEnd
unfolding run_found
update_with x s none c = idle_update x (record c { poller = s.poller })
update_with x s (some job) c = run_found x s job (room_of_job c.rooms job) c

-- What DataUpdateCoordinator keeps of an update: whether it succeeded.
unfoldable pub after_update : Coordinator × UpdateEnd → Coordinator × UpdateEnd
after_update (c, UpdateEnd.updated) = (record c { last_update_success = true }, UpdateEnd.updated)
after_update (c, UpdateEnd.update_failed) =
    (record c { last_update_success = false }, UpdateEnd.update_failed)

-- _async_update_data
unfoldable pub update_data : TickInput → Coordinator → Coordinator × UpdateEnd
unfolding update_with is_empty_dict after_update
update_data x c =
    let s = select_poll_job x.clock.monotonic (not (is_empty_dict c.safe_data)) c.poller in
    after_update (update_with x s s.job c)
