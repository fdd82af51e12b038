-- ===== src/Coordinator/Commands.antt =====
-- coordinator.py: the write behind every command of a room: what is checked, written, recorded and
-- shown. The replies of the client are arguments, and the clocks of the write and its readback.
pub mod Judged
pub mod Kept
pub mod ReadBack
pub mod Refused
use meltem_ha.Const.Groups.{ReadGroup, ReadGroup-discrete}
use meltem_ha.Coordinator.Readbacks.{RoomReply, TargetReply, refresh_room_after_write}
use meltem_ha.Coordinator.State.{
  ClientWrite, Coordinator, cached_state, clear_overlay, clear_overlays, group_health, runtime_of,
  send, set_runtime, show_pending, update_listeners,
}
use meltem_ha.ModeCodec.Writes.{read_back}
use meltem_ha.Models.Config.{RoomConfig}
use meltem_ha.Models.Health.{Clock, ReadHealth}
use meltem_ha.Models.Plan.{RefreshPlan}
use meltem_ha.Models.Writes.{WriteKey, WriteStatus, WriteValue}
use meltem_ha.Polling.{airflow_refresh_plan, control_settings_refresh_plan}
use meltem_ha.Prelude.{
  Bool, Error, List, Option, Result, String, [], decb, home_assistant_error, if◌then◌else◌, none,
  ok, raise, some, true, ◌∷◌,
}
use meltem_ha.WriteConfirmation.Judging.{write_group}
use meltem_ha.WriteConfirmation.Store.{
  WriteConfirmations, check_control_level_range, mark_unconfirmed, record_pending, set_status,
  supersede,
}

-- How the client's write method ended: with its result, cancelled, or with an error's text.
pub data WriteReply : Type 0 where
  written : Option WriteValue → WriteReply
  write_cancelled : WriteReply
  write_failed : String → WriteReply

-- What a command gets from its surroundings, in the order of use.
pub record Exchange : Type 0 where
  pub clock : Clock
  pub write : WriteReply
  pub later : Clock
  pub refresh : RoomReply
  pub target : TargetReply

-- How a command ends: it returns, it is cancelled, or it raises a HomeAssistantError or a
-- ServiceValidationError.
pub data CommandEnd : Type 0 where
  returned : CommandEnd
  interrupted : CommandEnd
  raised : Error → CommandEnd

-- _READBACK_PLANS[write_group(write_key)]
unfoldable pub readback_plan : WriteKey → RefreshPlan
readback_plan (WriteKey.control_setting _) = control_settings_refresh_plan
readback_plan _ = airflow_refresh_plan

abbrev pub is_flow_control : WriteKey → Bool
is_flow_control write_key = decb (ReadGroup-discrete (write_group write_key) ReadGroup.flow_control)

-- The keys of `self._overlays` whose group is the mode group.
unfoldable pub flow_overlay_keys : List WriteKey → List WriteKey
flow_overlay_keys [] = []
flow_overlay_keys (write_key ∷ keys) =
    let rest = flow_overlay_keys keys in
    if is_flow_control write_key then write_key ∷ rest else rest

-- The order of `self._overlays`
abbrev pub overlay_keys : List WriteKey
overlay_keys = WriteKey.airflow_levels ∷ WriteKey.preset_mode ∷ WriteKey.intensive ∷ []

-- The outcome of an earlier command that this one finishes, and its own pending outcome
unfoldable pub record_command :
    Clock → String → WriteKey → WriteValue → ReadHealth → WriteConfirmations → WriteConfirmations
record_command clock room_key write_key value baseline w =
    record_pending clock (supersede w room_key write_key).0 room_key write_key value baseline

-- A cancelled write may have reached the unit: its mark and the cleared overlays.
unfoldable pub mark_uncertain : RoomConfig → WriteKey → ReadHealth → Coordinator → Coordinator
unfolding flow_overlay_keys
mark_uncertain room write_key baseline c =
    if is_flow_control write_key
    then clear_overlays (flow_overlay_keys overlay_keys) room.key (
        set_runtime room
          (record (runtime_of c room) {
            uncertain_flow = some (baseline, group_health c room.key ReadGroup.flow);
          })
          c)
    else clear_overlay write_key room.key c

unfoldable pub cancelled_write :
    Clock → RoomConfig → WriteKey → WriteValue → ReadHealth → Coordinator → Coordinator
cancelled_write clock room write_key value baseline c =
    let c' = mark_uncertain room write_key baseline c in
    let w = record_command clock room.key write_key value baseline c'.write_confirmations in
    update_listeners (record c' {
      write_confirmations = (mark_unconfirmed w room.key write_key "Write was cancelled").0;
    })

-- A failed write makes any earlier pending value doubtful.
unfoldable pub failed_write :
    Clock → RoomConfig → WriteKey → WriteValue → ReadHealth → String → Coordinator → Coordinator
failed_write clock room write_key value baseline error c =
    let c' = clear_overlay write_key room.key c in
    let w = record_pending clock c'.write_confirmations room.key write_key value baseline in
    update_listeners (record c' {
      write_confirmations =
          (set_status w room.key write_key WriteStatus.failed (some error) none).0;
    })

-- `write_result if use_write_result and isinstance(write_result, ...) else expected_value`
unfoldable pub confirmed_expected : Bool → Option WriteValue → WriteValue → WriteValue
confirmed_expected true (some result) value = result
confirmed_expected _ _ value = value

-- An accepted write: the outcomes, and what is shown until a readback.
unfoldable pub accepted_write :
    Clock → RoomConfig → WriteKey → WriteValue → WriteValue → ReadHealth → Coordinator → Coordinator
accepted_write clock room write_key value expected baseline c =
    let replaced = supersede c.write_confirmations room.key write_key in
    let c' = record c {
      write_confirmations = record_pending clock replaced.0 room.key write_key expected baseline;
    } in
    show_pending clock write_key room.key value (clear_overlays replaced.1 room.key c')

abbrev pub no_readback : String
no_readback = "No matching device readback was received"

-- The readback of a command with `read_back`, after the unit has settled.
unfoldable pub read_back_write : Exchange → RoomConfig → WriteKey → Coordinator → Coordinator
read_back_write x room write_key c =
    let c' = refresh_room_after_write x.later room (readback_plan write_key) x.refresh x.target c in
    let marked = mark_unconfirmed c'.write_confirmations room.key write_key no_readback in
    let c'' = record c' { write_confirmations = marked.0 } in
    if marked.1 then update_listeners c'' else c''

unfoldable pub write_ended :
    Exchange
    → RoomConfig
    → WriteKey
    → WriteValue
    → Bool
    → Bool
    → ReadHealth
    → WriteReply
    → Coordinator
    → Coordinator × CommandEnd
write_ended x room write_key value read_back use_write_result baseline (WriteReply.written result)
      c =
    let expected = confirmed_expected use_write_result result value in
    let c' = accepted_write x.clock room write_key value expected baseline c in
    ((if read_back then read_back_write x room write_key c' else c'), CommandEnd.returned)
write_ended x room write_key value read_back use_write_result baseline WriteReply.write_cancelled
      c =
    (cancelled_write x.clock room write_key value baseline c, CommandEnd.interrupted)
write_ended x room write_key value read_back use_write_result baseline (WriteReply.write_failed e)
      c =
    (
      refresh_room_after_write x.later room (readback_plan write_key) x.refresh x.target
          (failed_write x.clock room write_key value baseline e c),
      CommandEnd.raised (home_assistant_error "write_failed"),
    )

-- `check_control_level_range`, for an `int` under the key of a control setting
unfoldable pub range_checked : RoomConfig → WriteKey → WriteValue → Coordinator → Result (Unit {0})
range_checked room (WriteKey.control_setting setting) (WriteValue.level value) c =
    check_control_level_range c.write_confirmations room (cached_state c room.key) setting value
range_checked room write_key value c = ok tt

unfoldable pub checked_write :
    Result (Unit {0}) → Coordinator × CommandEnd → Coordinator → Coordinator × CommandEnd
checked_write (raise e) done c = (c, CommandEnd.raised e)
checked_write (ok _) done c = done

-- _async_write_with_confirmation_locked
unfoldable pub write_with_confirmation :
    Exchange
    → RoomConfig
    → WriteKey
    → WriteValue
    → ClientWrite
    → Bool
    → Bool
    → Coordinator
    → Coordinator × CommandEnd
unfolding write_ended range_checked checked_write
write_with_confirmation x room write_key value call read_back use_write_result c =
    checked_write (range_checked room write_key value c)
      (write_ended x room write_key value read_back use_write_result
        (group_health c room.key (write_group write_key)) x.write (send room call c))
      c
