-- ===== src/Tests/Requests.antt =====
-- Runs of the daemon, and instances of its theorems.
use yaasa_go.Prelude.{
  ℕ, ◌+◌, ◌*◌, ◌≤◌, ◌<◌, List, [], ◌∷◌, ◌++◌, ◌≡◌, refl, arith, true, false, some, none, ◌⊎◌, inl,
  ◌↔◌,
}
use yaasa_go.Prelude.Int.{ℤ, pos, scale64}
use yaasa_go.Result.{Result, ok, err, Error}
use yaasa_go.Float.Whole.{whole}
use yaasa_go.Commands
use yaasa_go.Schedule.{Event, elapse, tick, timed_out}
use yaasa_go.WaitHeight.Stopping.{EndsWithStop}
use yaasa_go.Ipc.{Request, ok_r}
use yaasa_go.Ipc.Controller.{Controller, desk_controller}
use yaasa_go.Ipc.Server.{command_of, up, pulsing, dispatch}
use yaasa_go.Ipc.Pulsing.Ending.{pulsing-answers}
use yaasa_go.Ipc.Replies.{dispatch-EndsWithStop}
use yaasa_go.Ipc.Client.{deadline_of, deadline_of-bounds, up_request, stop_request}
use yaasa_go.Ipc.Preemption.{
  State, waiting, dispatching, preempted, initial, register, bail, enter, answer, Step, registers,
  bails, enters, Reachable, begin, onward,
}
use yaasa_go.Ipc.Preemption.Latest.{
  Action, arrived, started, Allowed, History, empty, longer, view, History-Allowed,
}
use yaasa_go.Ipc.Preemption.Outcome.{one_dispatch, dispatching-cancelled, waiting-Step}
use yaasa_go.Tests.{fresh}

-- A controller whose state counts the calls.
abbrev pub counter : Controller ℤ ℕ
counter = record {
  wake = λ n. (ok tt, n + 1);
  move_up = λ n. (ok tt, n + 10);
  move_down = λ n. (ok tt, n + 10);
  stop = λ n. (ok tt, n + 1000);
  wait_for_height = λ h tol t es n. (some (ok tt), n);
  wait_for_preset = λ p t q es n. (some (ok tt), n);
  fetch_sit_stand_time = λ t es n. (none, n);
  current_height = λ t es n. (some (ok (pos 720)), n);
  save_preset = λ p n. (ok tt, n);
  device_info = λ n. fresh.info;
  device_address = λ n. "";
  notifications_available = λ n. true;
  happens = λ e n. n;
}

abbrev pub going : List Event
going = tick ∷ elapse 500_000_000 ∷ timed_out ∷ []

goes : (pulsing counter counter.move_up 500_000_000 going 0).0 ≡ some (ok tt)
unfolding pulsing
goes = refl

-- The half second passes in pieces, with pulses between them.
abbrev half_second : List Event
half_second = elapse 200_000_000 ∷ tick ∷ elapse 200_000_000 ∷ tick ∷ elapse 100_000_000 ∷ []

pulsing-answers_example :
    (r : Result (Unit {0})) × ((pulsing counter counter.move_up 500_000_000
        (half_second ++ (timed_out ∷ tick ∷ []))
        0).0
      ≡ some r)
pulsing-answers_example =
    pulsing-answers counter counter.move_up 500_000_000 half_second (tick ∷ []) 0 (omega arith)

is_up : command_of "up" ≡ up
unfolding command_of
is_up = refl

abbrev nothing : Request ℤ
nothing = stop_request

stops : (dispatch counter [] nothing 0).0 ≡ some ok_r
unfolding dispatch
stops = refl

abbrev half_a_second : Request ℤ
half_a_second = up_request (pos 500)

moves : (dispatch (desk_controller 1) going half_a_second fresh).0 ≡ some ok_r
unfolding dispatch desk_controller Commands.wake Commands.move_up Commands.stop scale64
moves = refl

dispatch-EndsWithStop_example :
    ((e : Error) × ((Commands.wake fresh).0 ≡ err e))
    ⊎ EndsWithStop (dispatch (desk_controller 1) going half_a_second fresh).1.conn.log
dispatch-EndsWithStop_example =
    dispatch-EndsWithStop 1 going half_a_second fresh ok_r (inl is_up) moves

-- One request, two, and the first in `dispatch`.
abbrev one : State
one = register false initial

abbrev two : State
two = register false one

abbrev entered : State
entered = enter 0 one

abbrev overtaken : State
overtaken = register false entered

one-Reachable : Reachable one
one-Reachable = onward initial one begin (registers false initial)

first_waits : one.stage 0 ≡ waiting
unfolding register initial
first_waits = refl

entered-Reachable : Reachable entered
unfolding register initial
entered-Reachable = onward one entered one-Reachable (enters 0 one refl refl refl)

first_runs : entered.stage 0 ≡ dispatching
unfolding enter register initial
first_runs = refl

one_dispatch_example : ◌≡◌ {A = ℕ} 0 0
one_dispatch_example = one_dispatch entered entered-Reachable 0 0 first_runs first_runs

two-Reachable : Reachable two
two-Reachable = onward one two one-Reachable (registers false one)

bailed-Reachable : Reachable (bail 0 two)
unfolding register initial
bailed-Reachable = onward two (bail 0 two) two-Reachable (bails 0 two refl refl refl)

first_preempted : (bail 0 two).stage 0 ≡ preempted
unfolding bail
first_preempted = refl

overtaken-Reachable : Reachable overtaken
overtaken-Reachable = onward entered overtaken entered-Reachable (registers false entered)

first_runs_still : overtaken.stage 0 ≡ dispatching
unfolding enter register initial
first_runs_still = refl

dispatching-cancelled_example : (overtaken.cancelled 0 ≡ true) ↔ (1 < overtaken.next)
dispatching-cancelled_example =
    dispatching-cancelled overtaken overtaken-Reachable 0 first_runs_still

waiting-Step_example :
    (Step one (bail 0 one) ⊎ Step one (enter 0 one)) ⊎ ((j : ℕ) × Step one (answer j one))
waiting-Step_example = waiting-Step one one-Reachable 0 first_waits

-- A "quit" that is answered.
abbrev quitting : State
quitting = enter 0 (register true initial)

abbrev quitted : State
quitted = answer 0 quitting

abbrev overtaking : List Action
overtaking = arrived 1 ∷ started 0 ∷ arrived 0 ∷ []

overtaken-History : History overtaking overtaken
unfolding register initial enter
overtaken-History =
    longer (arrived 1) (started 0 ∷ arrived 0 ∷ []) entered overtaken
      (longer (started 0) (arrived 0 ∷ []) one entered
        (longer (arrived 0) [] initial one empty (registers false initial) refl)
        (enters 0 one refl refl refl) refl)
      (registers false entered) refl

History-Allowed_example : Allowed overtaking (view overtaken)
History-Allowed_example = History-Allowed overtaking overtaken overtaken-History

abbrev two_minutes : Request ℤ
two_minutes = up_request (pos 120_000)

deadline_of-bounds_example :
    (n : ℕ) × ((deadline_of two_minutes ≡ pos n)
      × ((60_000_000_000 ≤ n)
          × ((0 < 0 → 0 * 1_000_000 + 5_000_000_000 ≤ n)
              × (0 < 120_000 → 120_000 * 1_000_000 + 5_000_000_000 ≤ n))))
deadline_of-bounds_example =
    deadline_of-bounds two_minutes 0 120_000 refl refl (omega arith) (omega arith)
