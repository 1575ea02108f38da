-- ===== src/Ipc/Frames.antt =====
-- internal/ipc/server.go: what the daemon sends to the desk while it serves a request.
use yaasa_go.Prelude.{ℕ, List, [], ◌∷◌, Option, none, some, Bool-cases, inl, inr, leb}
use yaasa_go.Result.{Result, ok, err, M, ignore}
use yaasa_go.Float.{FloatOps}
use yaasa_go.Desk.{Desk}
use yaasa_go.Desk.Notify.{handle_notification-Handled}
use yaasa_go.Schedule.{Event, elapse, notify, ctx_done, timed_out, tick, Phase, selecting, returned}
use yaasa_go.Commands
use yaasa_go.Commands.Wrote.{Wrote-trans, Wrote-conn, Wrote-refl}
use yaasa_go.Commands.Frames.{
  IsFramed, Framed, Frames, wake-Frames, move_up-Frames, move_down-Frames, stop-Frames,
  save_preset-Frames,
}
use yaasa_go.WaitHeight.Frames.{wait_for_height-Framed}
use yaasa_go.WaitPreset.Frames.{wait_for_preset-Framed}
use yaasa_go.Fetch.Frames.{current_height-Framed, fetch_sit_stand_time-Framed}
use yaasa_go.Ipc.{Request, Response, reply}
use yaasa_go.Ipc.Controller.{desk_controller}
use yaasa_go.Ipc.Server.{
  Command, command_of, up, down, stop, move, preset, stats, height, info, status, quit, other, Loop,
  after_pulse, turn, turns, after_loop, first_pulse, woken, pulsing, answer, stats_reply,
  height_reply, serve, dispatch,
}

module _ {F : Type 0} ⦃o : FloatOps F⦄ (me : ℕ) (pulse : M (Desk F) (Unit {0}))
    (frames : Frames pulse) (d : Desk F) where
  stopped-Framed : (e : Desk F) → Framed d e → Framed d (ignore Commands.stop e).1
  stopped-Framed e h = Wrote-trans IsFramed d e _ h (stop-Frames e)

  after_pulse-Framed :
      (l : Loop (Desk F)) (x : Result (Unit {0}) × Desk F)
      → Framed d x.1
      → Framed d (after_pulse (desk_controller me) pulse l x).state
  unfolding desk_controller
  after_pulse-Framed l (ok _, e) h = h
  after_pulse-Framed l (err r, e) h = stopped-Framed e h

  turn-Framed :
      (p : Phase (Unit {0})) (e : Event) (l : Loop (Desk F))
      → Framed d l.state
      → Framed d (turn (desk_controller me) pulse p e l).state
  unfolding turn desk_controller
  turn-Framed selecting ctx_done l h = h
  turn-Framed selecting timed_out l h = elim (Bool-cases (leb l.deadline l.now)) [
    | inl b ↦ rw b h
    | inr b ↦ rw b h
  ]
  turn-Framed selecting tick l h =
      after_pulse-Framed l (pulse l.state) (Wrote-trans IsFramed d l.state _ h (frames l.state))
  turn-Framed selecting (elapse n) l h = h
  turn-Framed selecting (notify buf) l h =
      Wrote-conn IsFramed d l.state _ (handle_notification-Handled buf l.state).conn_kept h
  turn-Framed _ e l h = h

  turns-Framed :
      (es : List Event) (l : Loop (Desk F))
      → Framed d l.state
      → Framed d (turns (desk_controller me) pulse es l).state
  unfolding turns
  turns-Framed [] l h = h
  turns-Framed (e ∷ es) l h =
      turns-Framed es (turn (desk_controller me) pulse l.phase e l) (turn-Framed l.phase e l h)

  after_loop-Framed :
      (p : Phase (Unit {0})) (e : Desk F)
      → Framed d e
      → Framed d (after_loop (desk_controller me) pulse p e).1
  unfolding desk_controller
  after_loop-Framed (returned (ok _)) e h = stopped-Framed e h
  after_loop-Framed (returned (err r)) e h = h
  after_loop-Framed _ e h = h

  first_pulse-Framed :
      (dur : ℕ) (es : List Event) (x : Result (Unit {0}) × Desk F)
      → Framed d x.1
      → Framed d (first_pulse (desk_controller me) pulse dur es x).1
  unfolding desk_controller
  first_pulse-Framed dur es (ok _, e) h =
      let l : Loop (Desk F) = record { state = e; now = 0; deadline = dur; phase = selecting } in
      after_loop-Framed (turns (desk_controller me) pulse es l).phase _ (turns-Framed es l h)
  first_pulse-Framed dur es (err r, e) h = stopped-Framed e h

  woken-Framed :
      (dur : ℕ) (es : List Event) (x : Result (Unit {0}) × Desk F)
      → Framed d x.1
      → Framed d (woken (desk_controller me) pulse dur es x).1
  woken-Framed dur es (ok _, e) h =
      first_pulse-Framed dur es (pulse e) (Wrote-trans IsFramed d e _ h (frames e))
  woken-Framed dur es (err r, e) h = h

  pulsing-Framed :
      (dur : ℕ) (es : List Event) → Framed d (pulsing (desk_controller me) pulse dur es d).1
  unfolding pulsing desk_controller
  pulsing-Framed dur es = woken-Framed dur es (Commands.wake d) (wake-Frames d)

module _ {F : Type 0} ⦃o : FloatOps F⦄ (me : ℕ) (es : List Event) (d : Desk F) where
  answer-Framed :
      {A : Type 0} (f : Result A → Response F) (x : Option (Result A) × Desk F)
      → Framed d x.1
      → Framed d (answer (desk_controller me) es f x).1
  answer-Framed f (none, e) h = h
  answer-Framed f (some r, e) h = h

  serve-Framed : (k : Command) (q : Request F) → Framed d (serve (desk_controller me) es k q d).1
  unfolding serve desk_controller
  serve-Framed up q =
      answer-Framed reply _ (pulsing-Framed me Commands.move_up move_up-Frames d _ es)
  serve-Framed down q =
      answer-Framed reply _ (pulsing-Framed me Commands.move_down move_down-Frames d _ es)
  serve-Framed stop q = stop-Frames d
  serve-Framed move q = answer-Framed reply _ (wait_for_height-Framed _ me es d)
  serve-Framed preset q = elim (Bool-cases q.save) [
    | inl b ↦ rw b (save_preset-Frames q.preset d)
    | inr b ↦ rw b (answer-Framed reply _ (wait_for_preset-Framed _ me es d))
  ]
  serve-Framed stats q =
      answer-Framed (stats_reply (desk_controller me) es) _ (fetch_sit_stand_time-Framed _ me es d)
  serve-Framed height q =
      answer-Framed (height_reply (desk_controller me) es) _ (current_height-Framed _ me es d)
  serve-Framed info q = Wrote-refl IsFramed d
  serve-Framed status q = Wrote-refl IsFramed d
  serve-Framed quit q = Wrote-refl IsFramed d
  serve-Framed (other w) q = Wrote-refl IsFramed d

  -- Whatever a client asks for, and under every schedule, the daemon sends the desk nothing but
  -- commands that the program knows, in their frames, with the two bytes of a height behind "move to"
  -- and no payload behind the others; it pauses in between, and neither subscribes anew, nor reads,
  -- nor disconnects.
  pub dispatch-Framed : (q : Request F) → Framed d (dispatch (desk_controller me) es q d).1
  unfolding dispatch
  dispatch-Framed q = serve-Framed (command_of q.cmd) q
