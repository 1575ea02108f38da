-- ===== src/Tests/Heights.antt =====
-- A run of WaitForHeight, and instances of its theorems.
use yaasa_go.Prelude.{ℕ, ◌≢◌, All, List, [], ◌∷◌, ◌++◌, ◌≡◌, refl, arith, true}
use yaasa_go.Prelude.Int.{ℤ, pos}
use yaasa_go.Result.{ok}
use yaasa_go.Float.Whole.{whole}
use yaasa_go.Height.{near}
use yaasa_go.Packet.{decode_responses}
use yaasa_go.Packet.Frame.{frame}
use yaasa_go.Desk.{
  add_height_listener, cancel_height_listener, decode_height_payload, handle_notification,
}
use yaasa_go.Commands.{wake, stop, move_to_height}
use yaasa_go.Stats.{decode_sit_stand_time}
use yaasa_go.Schedule.{
  own, Event, elapse, notify, proceed, received, timed_out, ctx_done, tick, selecting, returned,
  IsReturned, Among, reported,
}
use yaasa_go.WaitHeight.{Aim, Wait, run, wait_for_height}
use yaasa_go.WaitHeight.Arrival.{wait_for_height-arrived}
use yaasa_go.WaitHeight.Stopping.{EndsWithStop, run-EndsWithStop}
use yaasa_go.WaitHeight.Ending.{wait_for_height-returns}
use yaasa_go.WaitHeight.Listeners.{
  Doing, by_call, registers, cancels, wait_among, wait_among-listeners,
}
use yaasa_go.Tests.{fresh, report_720}

-- To 721 mm, within 2 mm, in 30 s.
abbrev aim : Aim ℤ
aim = record { target = pos 721; tolerance = pos 2; timeout = pos 30_000_000_000 }

abbrev arriving : List Event
arriving = proceed ∷ proceed ∷ tick ∷ notify (frame report_720) ∷ received ∷ []

arrives : (wait_for_height aim 1 arriving fresh).phase ≡ returned (ok tt)
unfolding wait_for_height wake stop move_to_height handle_notification decode_responses near own
    decode_height_payload decode_sit_stand_time add_height_listener cancel_height_listener
arrives = refl

wait_for_height-arrived_example : Among (λ h. near h (pos 721) (pos 2) ≡ true) (reported arriving)
wait_for_height-arrived_example = wait_for_height-arrived aim 1 arriving fresh arrives

abbrev looping : Wait ℤ
looping = record {
  desk = record fresh { listeners = 1 ∷ [] };
  me = 1;
  idx = 0;
  seen = [];
  arrived = true;
  now = 0;
  deadline = 30;
  phase = selecting;
}

leaves : (run aim (received ∷ []) looping).phase ≡ returned (ok tt)
unfolding run stop
leaves = refl

run-EndsWithStop_example : EndsWithStop (run aim (received ∷ []) looping).desk.conn.log
run-EndsWithStop_example = run-EndsWithStop aim (received ∷ []) looping (ok tt) refl leaves

-- The thirty seconds pass in two pieces, with a pulse between them.
abbrev thirty_seconds : List Event
thirty_seconds = elapse 15_000_000_000 ∷ tick ∷ elapse 15_000_000_000 ∷ []

wait_for_height-returns_example :
    IsReturned
      (wait_for_height aim 1
        (proceed ∷ proceed ∷ (thirty_seconds ++ (timed_out ∷ tick ∷ [])))
        fresh).phase
    × IsReturned
        (wait_for_height aim 1
          (proceed ∷ proceed ∷ ((tick ∷ []) ++ (ctx_done ∷ tick ∷ [])))
          fresh).phase
wait_for_height-returns_example =
    wait_for_height-returns aim 1 [] [] thirty_seconds (tick ∷ []) (tick ∷ []) fresh (omega arith)

-- Others add two listeners meanwhile, and cancel the first of these.
abbrev shared : List Doing
shared =
    registers 7
    ∷ by_call proceed
    ∷ by_call proceed
    ∷ registers 8
    ∷ by_call (notify (frame report_720))
    ∷ cancels 1
    ∷ by_call received
    ∷ []

shared_arrives : (wait_among aim 1 shared fresh).phase ≡ returned (ok tt)
unfolding wait_among wake stop move_to_height handle_notification decode_responses near own
    decode_height_payload decode_sit_stand_time add_height_listener cancel_height_listener
shared_arrives = refl

wait_among-listeners_example :
    (later : List ℕ) × (All (λ l. l ≢ 1) later
      × ((wait_among aim 1 shared fresh).desk.listeners ≡ [] ++ later))
wait_among-listeners_example =
    wait_among-listeners aim 1 shared fresh (ok tt)
      (
        (λ h. absurd (omega arith)),
        (tt, (tt, ((λ h. absurd (omega arith)), (tt, (omega arith, (tt, tt)))))),
      )
      shared_arrives
