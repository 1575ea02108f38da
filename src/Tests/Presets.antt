-- ===== src/Tests/Presets.antt =====
-- Runs of WaitForPreset and FetchSitStandTime, and instances of their theorems.
use yaasa_go.Prelude.{List, [], ◌∷◌, ◌++◌, ◌≡◌, ◌≢◌, refl, arith, some}
use yaasa_go.Prelude.Int.{ℤ, pos, pos_part}
use yaasa_go.Result.{Result, ok}
use yaasa_go.Fetch.Ending.{fetches-return}
use yaasa_go.WaitPreset.Ending.{wait_for_preset-returns}
use yaasa_go.Float.Whole.{whole}
use yaasa_go.Packet.{decode_responses}
use yaasa_go.Packet.Frame.{frame}
use yaasa_go.Desk.{
  add_height_listener, cancel_height_listener, add_sit_stand_listener, cancel_sit_stand_listener,
  decode_height_payload, handle_notification,
}
use yaasa_go.Commands.{wake, stop, go_preset, request_height_limits, request_sit_stand_time}
use yaasa_go.Stats.{SitStandTime, decode_sit_stand_time}
use yaasa_go.Schedule.{
  own, Event, elapse, notify, proceed, received, quiet, tick, timed_out, ctx_done, IsReturned,
  selecting, returned, Among, reported,
}
use yaasa_go.WaitHeight.Stopping.{EndsWithStop}
use yaasa_go.WaitPreset.{Aim, Wait, run, wait_for_preset, quiet_time}
use yaasa_go.WaitPreset.Stopping.{run-EndsWithStop_of_preset}
use yaasa_go.WaitPreset.Quiescence.{passed, received-not_ok}
use yaasa_go.WaitPreset.Movement.{wait_for_preset-moved}
use yaasa_go.Fetch.{current_height, fetch_sit_stand_time, effective_wait}
use yaasa_go.Tests.{fresh, report_720}

-- Preset 2, within 30 s, with the default quiescence time.
abbrev second_preset : Aim
second_preset = record { preset = pos 2; timeout = pos 30_000_000_000; quiescence = pos 0 }

abbrev settling : List Event
settling =
    proceed
    ∷ proceed
    ∷ tick
    ∷ notify (frame report_720)
    ∷ received
    ∷ elapse 500_000_000
    ∷ quiet
    ∷ []

settles : (wait_for_preset second_preset 1 settling fresh).phase ≡ returned (ok tt)
unfolding wait_for_preset wake stop go_preset handle_notification decode_responses own quiet_time
    decode_height_payload decode_sit_stand_time add_height_listener cancel_height_listener
settles = refl

wait_for_preset-moved_example : Among {A = ℤ} (λ _. Unit {0}) (reported settling)
wait_for_preset-moved_example = wait_for_preset-moved second_preset 1 settling fresh settles

abbrev looping_of_preset : Wait ℤ
looping_of_preset = record {
  desk = record fresh { listeners = 1 ∷ [] };
  me = 1;
  idx = 0;
  seen = [];
  queued = 1;
  quiet_at = some 10;
  now = 0;
  deadline = 30;
  phase = selecting;
}

abbrev leaving : List Event
leaving = elapse 20 ∷ quiet ∷ []

leaves_preset : (run second_preset leaving looping_of_preset).phase ≡ returned (ok tt)
unfolding run stop
leaves_preset = refl

run-EndsWithStop_of_preset_example :
    EndsWithStop (run second_preset leaving looping_of_preset).desk.conn.log
run-EndsWithStop_of_preset_example =
    run-EndsWithStop_of_preset second_preset leaving looping_of_preset (ok tt) refl leaves_preset

short : passed leaving ≡ 20
unfolding passed
short = refl

half_second : quiet_time second_preset ≡ 500_000_000
unfolding quiet_time
half_second = refl

received-not_ok_example :
    (run second_preset (received ∷ leaving) looping_of_preset).phase ≢ returned (ok tt)
received-not_ok_example =
    received-not_ok second_preset leaving looping_of_preset refl (omega arith)
      (rw (short, half_second) (omega arith))

-- An answer with the counters 1:2:3 and 4:5:6.
abbrev counting : List Event
counting =
    proceed
    ∷ notify
        (frame (record { opcode = 0xA2; payload = 1 ∷ 2 ∷ 3 ∷ 4 ∷ 5 ∷ 6 ∷ []; checksum = 189 }))
    ∷ received
    ∷ []

counts :
    (fetch_sit_stand_time (pos 0) 1 counting fresh).0
    ≡ some (ok (record { stand_h = 1; stand_m = 2; stand_s = 3; sit_h = 4; sit_m = 5; sit_s = 6 }))
unfolding fetch_sit_stand_time handle_notification decode_responses own request_sit_stand_time
    effective_wait decode_height_payload decode_sit_stand_time add_sit_stand_listener
    cancel_sit_stand_listener
counts = refl

abbrev measuring : List Event
measuring = proceed ∷ notify (frame report_720) ∷ received ∷ []

measures : (current_height (pos 0) 1 measuring fresh).0 ≡ some (ok (pos 720))
unfolding current_height handle_notification decode_responses own request_height_limits
    effective_wait decode_height_payload decode_sit_stand_time add_height_listener
    cancel_height_listener
measures = refl

-- The thirty seconds pass in two pieces, with a pulse between them.
abbrev thirty_seconds : List Event
thirty_seconds = elapse 15_000_000_000 ∷ tick ∷ elapse 15_000_000_000 ∷ []

wait_for_preset-returns_example :
    IsReturned
      (wait_for_preset second_preset 1
        (proceed ∷ proceed ∷ (thirty_seconds ++ (timed_out ∷ tick ∷ [])))
        fresh).phase
    × IsReturned
        (wait_for_preset second_preset 1
          (proceed ∷ proceed ∷ ((tick ∷ []) ++ (ctx_done ∷ tick ∷ [])))
          fresh).phase
wait_for_preset-returns_example =
    wait_for_preset-returns second_preset 1 [] [] thirty_seconds (tick ∷ []) (tick ∷ []) fresh
      (omega arith)

at_least_five : pos_part (effective_wait (pos 0)) ≡ 5_000_000_000
unfolding effective_wait
at_least_five = refl

abbrev five_seconds : List Event
five_seconds = elapse 2_000_000_000 ∷ notify [] ∷ elapse 3_000_000_000 ∷ []

fetches-return_example :
    ((r : Result ℤ) × ((current_height
          (pos 0)
          1
          (proceed ∷ (five_seconds ++ (timed_out ∷ [])))
          fresh).0
        ≡ some r))
    × ((r : Result SitStandTime) × ((fetch_sit_stand_time
            (pos 0)
            1
            (proceed ∷ (five_seconds ++ (timed_out ∷ [])))
            fresh).0
          ≡ some r))
fetches-return_example =
    fetches-return (pos 0) 1 [] five_seconds [] fresh (rw at_least_five (omega arith))
