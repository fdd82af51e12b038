-- ===== src/Coordinator/Requests/Sent.antt =====
-- coordinator.py: what a command for one direction sends to the client.
use meltem_ha.Const.Modes.{Direction, LevelSource, LevelWriteFallback}
use meltem_ha.Coordinator.Commands.{
  CommandEnd, Exchange, WriteReply, accepted_write, checked_write, range_checked, write_ended,
  write_with_confirmation,
}
use meltem_ha.Coordinator.Requests.{
  airflow_unknown, command_levels, direction_planned, fallback_after, set_direction_level,
  set_level, set_unbalanced_levels, write_planned,
}
use meltem_ha.Coordinator.Resolved.{
  after_uncertain, apply_level_fallback, flow_write_uncertain, with_fallback,
}
use meltem_ha.Coordinator.State.{
  ClientWrite, Coordinator, RoomRuntime, cached_state, clear_overlay, clear_overlays, runtime_of,
  send, set_runtime, show_levels, show_pending, update_listeners,
}
use meltem_ha.Levels.{DirectionWrite, LevelPair, plan_direction_write}
use meltem_ha.Levels.Plan.{level_in, level_in-plan_direction_write}
use meltem_ha.Models.Config.{RoomConfig}
use meltem_ha.Models.Health.{Clock, ReadHealth}
use meltem_ha.Models.Room.{RoomState}
use meltem_ha.Models.Writes.{WriteKey, WriteValue}
use meltem_ha.Prelude.{
  List, Option, Result, String, [], ap, arith, false, if_both, if◌then◌else◌, is_some, none, ok,
  raise, refl, some, ℕ, ◌++◌, ◌==◌, ◌∙◌, ◌∷◌, ◌≡◌,
}

-- The level that a write gives a direction
abbrev pub sent_level : Direction → ClientWrite → Option ℕ
sent_level d (ClientWrite.write_level n) = some n
sent_level Direction.supply (ClientWrite.write_unbalanced_levels s e) = some s
sent_level Direction.extract (ClientWrite.write_unbalanced_levels s e) = some e
sent_level d _ = none

pub cleared_sent :
    (keys : List WriteKey) (room_key : String) (c : Coordinator)
    → (clear_overlays keys room_key c).sent ≡ c.sent
unfolding clear_overlays clear_overlay
cleared_sent [] room_key c = refl
cleared_sent (WriteKey.airflow_levels ∷ keys) room_key c = cleared_sent keys room_key _
cleared_sent (WriteKey.operation_mode ∷ keys) room_key c = cleared_sent keys room_key _
cleared_sent (WriteKey.preset_mode ∷ keys) room_key c = cleared_sent keys room_key _
cleared_sent (WriteKey.intensive ∷ keys) room_key c = cleared_sent keys room_key _
cleared_sent (WriteKey.control_setting s ∷ keys) room_key c = cleared_sent keys room_key _

shown_sent :
    (clock : Clock) (room_key : String) (s e : ℕ) (c : Coordinator)
    → (show_pending clock WriteKey.airflow_levels room_key (WriteValue.pair s e) c).sent ≡ c.sent
unfolding show_pending show_levels
shown_sent clock room_key s e c = refl

accepted_sent :
    (x : Exchange) (room : RoomConfig) (s e : ℕ) (baseline : ReadHealth) (reply : WriteReply)
    (c : Coordinator)
    → let r =
        write_ended x room WriteKey.airflow_levels
          (WriteValue.pair s e)
          false
          false
          baseline
          reply
          c in
      r.1 ≡ CommandEnd.returned → r.0.sent ≡ c.sent
unfolding write_ended accepted_write
accepted_sent x room s e baseline (WriteReply.written result) c h =
    shown_sent x.clock room.key s e _ ∙ cleared_sent _ room.key _
accepted_sent x room s e baseline WriteReply.write_cancelled c h = absurd (ground arith)
accepted_sent x room s e baseline (WriteReply.write_failed error) c h = absurd (ground arith)

sent_send :
    (room : RoomConfig) (call : ClientWrite) (c : Coordinator)
    → (send room call c).sent ≡ c.sent ++ (room.key, call) ∷ []
unfolding send
sent_send room call c = refl

airflow_sent :
    (x : Exchange) (room : RoomConfig) (s e : ℕ) (call : ClientWrite) (c : Coordinator)
    → let r =
        write_with_confirmation x room WriteKey.airflow_levels
          (WriteValue.pair s e)
          call
          false
          false
          c in
      r.1 ≡ CommandEnd.returned → r.0.sent ≡ c.sent ++ (room.key, call) ∷ []
unfolding write_with_confirmation checked_write range_checked
airflow_sent x room s e call c h =
    accepted_sent x room s e _ x.write (send room call c) h ∙ sent_send room call c

set_level_sent :
    (x : Exchange) (room : RoomConfig) (n : ℕ) (c : Coordinator)
    → (set_level x room n c).1 ≡ CommandEnd.returned
    → (set_level x room n c).0.sent ≡ c.sent ++ (room.key, ClientWrite.write_level n) ∷ []
unfolding set_level clear_overlay
set_level_sent x room n c h =
    let c' = clear_overlay WriteKey.preset_mode room.key c in
    let off = clear_overlay WriteKey.intensive room.key c' in
    airflow_sent x room n n (ClientWrite.write_level n) (if n == 0 then off else c') h
    ∙ ap (λ (l : List (String × ClientWrite)). l ++ (room.key, ClientWrite.write_level n) ∷ [])
        (if_both (λ (d : Coordinator). d.sent ≡ c.sent) (n == 0) off c' (λ _. refl) (λ _. refl))

-- What a command sends, when it sends the one write.
abbrev Sends : RoomConfig → Direction → ℕ → Coordinator → Coordinator → Type 0
Sends room d n c c' =
    (call : ClientWrite) × ((c'.sent ≡ c.sent ++ (room.key, call) ∷ [])
      × (sent_level d call ≡ some n))

write_planned-Sends :
    (x : Exchange) (room : RoomConfig) (d : Direction) (n : ℕ) (w : DirectionWrite)
    (c : Coordinator)
    → level_in d w ≡ n
    → (write_planned x room w c).1 ≡ CommandEnd.returned
    → Sends room d n c (write_planned x room w c).0
unfolding write_planned set_unbalanced_levels clear_overlay
write_planned-Sends x room Direction.supply n (DirectionWrite.balanced m) c k h =
    (ClientWrite.write_level m, (set_level_sent x room m c h, ap some k))
write_planned-Sends x room Direction.extract n (DirectionWrite.balanced m) c k h =
    (ClientWrite.write_level m, (set_level_sent x room m c h, ap some k))
write_planned-Sends x room Direction.supply n (DirectionWrite.pair s e) c k h =
    (ClientWrite.write_unbalanced_levels s e, (airflow_sent x room s e _ _ h, ap some k))
write_planned-Sends x room Direction.extract n (DirectionWrite.pair s e) c k h =
    (ClientWrite.write_unbalanced_levels s e, (airflow_sent x room s e _ _ h, ap some k))

fallback_sent :
    (room : RoomConfig) (fallback : Option LevelWriteFallback) (r : RoomRuntime) (c : Coordinator)
    → (with_fallback room fallback r c).sent ≡ c.sent
unfolding with_fallback update_listeners set_runtime
fallback_sent room none r c =
    if_both (λ (d : Coordinator). d.sent ≡ c.sent) (is_some r.level_fallback)
      (update_listeners (set_runtime room (record r { level_fallback = none }) c)) c (λ _. refl)
      (λ _. refl)
fallback_sent room (some f) r c = refl

fallback_after-Sends :
    (room : RoomConfig) (d : Direction) (n : ℕ) (fallback : Option LevelWriteFallback)
    (c : Coordinator) (done : Coordinator × CommandEnd)
    → (done.1 ≡ CommandEnd.returned → Sends room d n c done.0)
    → (fallback_after room fallback done).1 ≡ CommandEnd.returned
    → Sends room d n c (fallback_after room fallback done).0
unfolding fallback_after apply_level_fallback
fallback_after-Sends room d n fallback c (c', CommandEnd.returned) f h =
    let (call, (e, k)) = f refl in
    (call, (fallback_sent room fallback (runtime_of c' room) c' ∙ e, k))
fallback_after-Sends room d n fallback c (c', CommandEnd.interrupted) f h = f h
fallback_after-Sends room d n fallback c (c', CommandEnd.raised e) f h = f h

direction_planned-Sends :
    (x : Exchange) (room : RoomConfig) (state : RoomState) (levels : LevelPair)
    (source : Option LevelSource) (d : Direction) (n : ℕ) (c : Coordinator)
    (planned : Result (DirectionWrite × Option LevelWriteFallback))
    → plan_direction_write state levels source d n ≡ planned
    → (direction_planned x room planned c).1 ≡ CommandEnd.returned
    → Sends room d n c (direction_planned x room planned c).0
unfolding direction_planned
direction_planned-Sends x room state levels source d n c (raise e) p h = absurd (ground arith)
direction_planned-Sends x room state levels source d n c (ok (w, fallback)) p h =
    fallback_after-Sends room d n fallback c (write_planned x room w c)
      (write_planned-Sends x room d n w c
        (level_in-plan_direction_write state levels source d n w fallback p))
      h

uncertain_sent :
    (clock : Clock) (room : RoomConfig) (c : Coordinator)
    → (after_uncertain clock room c).sent ≡ c.sent
unfolding after_uncertain set_runtime
uncertain_sent clock room c =
    if_both (λ (d : Coordinator). d.sent ≡ c.sent) (flow_write_uncertain clock room c) c
      (set_runtime room (record (runtime_of c room) { uncertain_flow = none }) c) (λ _. refl)
      (λ _. refl)

-- A command for one direction that returns has sent one write to the client, which gives that
-- direction exactly the level of the command, whatever is known of the other direction.
pub set_direction_level-Sends :
    (x : Exchange) (room : RoomConfig) (d : Direction) (n : ℕ) (c : Coordinator)
    → (set_direction_level x room d n c).1 ≡ CommandEnd.returned
    → (call : ClientWrite) × (((set_direction_level x room d n c).0.sent
          ≡ c.sent ++ (room.key, call) ∷ [])
        × (sent_level d call ≡ some n))
unfolding set_direction_level
set_direction_level-Sends x room d n c =
    let c' = after_uncertain x.clock room c in
    let levels = command_levels x.clock room c' in
    let planned = plan_direction_write (cached_state c' room.key) levels.0 levels.1 d n in
    if_both (λ (r : Coordinator × CommandEnd). r.1 ≡ CommandEnd.returned → Sends room d n c r.0)
      (flow_write_uncertain x.clock room c) (c', airflow_unknown)
      (direction_planned x room planned c') (λ _ h. absurd (ground arith))
      (λ _ h.
        let (call, (e, k)) =
          direction_planned-Sends x room (cached_state c' room.key) levels.0 levels.1 d n c' planned
            refl h in
        (
          call,
          (
            e
                ∙ ap (λ (l : List (String × ClientWrite)). l ++ (room.key, call) ∷ [])
                    (uncertain_sent x.clock room c),
            k,
          ),
        ))
