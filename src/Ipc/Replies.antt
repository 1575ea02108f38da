-- ===== src/Ipc/Replies.antt =====
-- internal/ipc/server.go: what `dispatch` answers, and the desk behind it.
use yaasa_go.Prelude.{
  some-inj, ℕ, List, Option, none, some, true, false, ◌≡◌, refl, ap, subst, ◌⊎◌, inl, inr,
  Bool-cases,
}
use yaasa_go.Prelude.Int.{pos_part}
use yaasa_go.Result.{Result, ok, err, Error, unknown_command, M}
use yaasa_go.Float.{FloatOps}
use yaasa_go.Desk.{Desk}
use yaasa_go.Commands
use yaasa_go.Stats.{SitStandTime}
use yaasa_go.Schedule.{Event}
use yaasa_go.WaitHeight.Stopping.{EndsWithStop}
use yaasa_go.Ipc.{Request, Response, reply}
use yaasa_go.Ipc.Controller.{Controller, desk_controller}
use yaasa_go.Ipc.Server.{
  Command, command_of, up, down, stop, move, preset, stats, height, info, status, quit, other,
  answer, stats_reply, height_reply, serve, dispatch, duration_or, pulsing,
}
use yaasa_go.Ipc.Pulsing.{IsStopped, pulsing-IsStopped}

-- `ok` and `error` agree.
abbrev pub IsConsistent : {F : Type 0} → Response F → Type 0
IsConsistent r =
    ((r.is_ok ≡ true) × (r.error ≡ none)) ⊎ ((r.is_ok ≡ false) × ((e : Error) × (r.error ≡ some e)))

module _ {F S : Type 0} ⦃o : FloatOps F⦄ (c : Controller F S) (es : List Event) where
  answer-IsConsistent :
      {A : Type 0} (f : Result A → Response F) (x : Option (Result A) × S) (r : Response F)
      → ((y : Result A) → IsConsistent (f y))
      → (answer c es f x).0 ≡ some r
      → IsConsistent r
  answer-IsConsistent f (none, s) r h e = cc
  answer-IsConsistent f (some y, s) r h e = subst IsConsistent (some-inj (f y) r e) (h y)

  reply-IsConsistent : (x : Result (Unit {0})) → IsConsistent {F = F} (reply x)
  reply-IsConsistent (ok _) = inl (refl, refl)
  reply-IsConsistent (err e) = inr (refl, (e, refl))

  stats_reply-IsConsistent : (x : Result SitStandTime) → IsConsistent (stats_reply c es x)
  stats_reply-IsConsistent (ok _) = inl (refl, refl)
  stats_reply-IsConsistent (err e) = inr (refl, (e, refl))

  height_reply-IsConsistent : (x : Result F) → IsConsistent (height_reply c es x)
  height_reply-IsConsistent (ok _) = inl (refl, refl)
  height_reply-IsConsistent (err e) = inr (refl, (e, refl))

  serve-IsConsistent :
      (k : Command) (q : Request F) (s : S) (r : Response F)
      → (serve c es k q s).0 ≡ some r
      → IsConsistent r
  unfolding serve
  serve-IsConsistent up q s r e = answer-IsConsistent reply _ r reply-IsConsistent e
  serve-IsConsistent down q s r e = answer-IsConsistent reply _ r reply-IsConsistent e
  serve-IsConsistent move q s r e = answer-IsConsistent reply _ r reply-IsConsistent e
  serve-IsConsistent stats q s r e =
      answer-IsConsistent (stats_reply c es) _ r stats_reply-IsConsistent e
  serve-IsConsistent height q s r e =
      answer-IsConsistent (height_reply c es) _ r height_reply-IsConsistent e
  serve-IsConsistent stop q s r e =
      subst IsConsistent (some-inj _ r e) (reply-IsConsistent (c.stop s).0)
  serve-IsConsistent preset q s r e = elim (Bool-cases q.save) [
    | inl b ↦
        subst IsConsistent (some-inj _ r (rw b at e))
          (reply-IsConsistent (c.save_preset q.preset s).0)
    | inr b ↦ answer-IsConsistent reply _ r reply-IsConsistent (rw b at e)
  ]
  serve-IsConsistent info q s r e = subst IsConsistent (some-inj _ r e) (inl (refl, refl))
  serve-IsConsistent status q s r e = subst IsConsistent (some-inj _ r e) (inl (refl, refl))
  serve-IsConsistent quit q s r e = subst IsConsistent (some-inj _ r e) (inl (refl, refl))
  serve-IsConsistent (other w) q s r e =
      subst IsConsistent (some-inj _ r e) (inr (refl, (unknown_command w, refl)))

  -- Every answer of `dispatch`, to every request, says either that all went well, without an error,
  -- or that it did not, with one.
  pub dispatch-IsConsistent :
      (q : Request F) (s : S) (r : Response F) → (dispatch c es q s).0 ≡ some r → IsConsistent r
  unfolding dispatch
  dispatch-IsConsistent q s r = serve-IsConsistent (command_of q.cmd) q s r

module _ {F : Type 0} ⦃o : FloatOps F⦄ where
  IsStopped-EndsWithStop :
      (me : ℕ) (d : Desk F) → IsStopped (desk_controller me) d → EndsWithStop d.conn.log
  unfolding desk_controller Commands.stop
  IsStopped-EndsWithStop me d (before, e) = (before.conn.log, ap (λ x. x.conn.log) e)

  answer-keeps :
      {A S : Type 0} (Q : S → Type 0) (c : Controller F S) (es : List Event)
      (f : Result A → Response F) (x : Option (Result A) × S) (r : Response F)
      → ((y : Result A) → x.0 ≡ some y → Q x.1)
      → (answer c es f x).0 ≡ some r
      → Q (answer c es f x).1
  answer-keeps Q c es f (none, s) r h e = cc
  answer-keeps Q c es f (some y, s) r h e = h y refl

  abbrev WokenAndStopped : Desk F → Desk F → Type 0
  WokenAndStopped d d' = ((e : Error) × ((Commands.wake d).0 ≡ err e)) ⊎ EndsWithStop d'.conn.log

  pulsing-EndsWithStop :
      (me : ℕ) (pulse : M (Desk F) (Unit {0})) (dur : ℕ) (es : List Event) (d : Desk F)
      (y : Result (Unit {0}))
      → (pulsing (desk_controller me) pulse dur es d).0 ≡ some y
      → WokenAndStopped d (pulsing (desk_controller me) pulse dur es d).1
  unfolding desk_controller
  pulsing-EndsWithStop me pulse dur es d y e =
      elim (pulsing-IsStopped (desk_controller me) pulse dur es d y e) [
        | inl failed ↦ inl failed
        | inr stopped ↦
            inr (IsStopped-EndsWithStop me (pulsing (desk_controller me) pulse dur es d).1 stopped)
      ]

  serve-EndsWithStop :
      (me : ℕ) (es : List Event) (k : Command) (q : Request F) (d : Desk F) (r : Response F)
      → (k ≡ up) ⊎ (k ≡ down)
      → (serve (desk_controller me) es k q d).0 ≡ some r
      → WokenAndStopped d (serve (desk_controller me) es k q d).1
  unfolding serve
  serve-EndsWithStop me es up q d r h e =
      answer-keeps (WokenAndStopped d) (desk_controller me) es reply _ r
        (pulsing-EndsWithStop me (desk_controller me).move_up
          (pos_part (duration_or 500_000_000 q.duration_ms)) es d)
        e
  serve-EndsWithStop me es down q d r h e =
      answer-keeps (WokenAndStopped d) (desk_controller me) es reply _ r
        (pulsing-EndsWithStop me (desk_controller me).move_down
          (pos_part (duration_or 500_000_000 q.duration_ms)) es d)
        e
  serve-EndsWithStop me es _ q d r (inl h) e = cc
  serve-EndsWithStop me es _ q d r (inr h) e = cc

  -- The daemon on a desk, under every schedule: when an "up" or "down" request is answered, the
  -- wake failed, or the last frame that was sent to the desk is the stop frame.
  pub dispatch-EndsWithStop :
      (me : ℕ) (es : List Event) (q : Request F) (d : Desk F) (r : Response F)
      → (command_of q.cmd ≡ up) ⊎ (command_of q.cmd ≡ down)
      → (dispatch (desk_controller me) es q d).0 ≡ some r
      → ((e : Error) × ((Commands.wake d).0 ≡ err e))
        ⊎ EndsWithStop (dispatch (desk_controller me) es q d).1.conn.log
  unfolding dispatch
  dispatch-EndsWithStop me es q d r = serve-EndsWithStop me es (command_of q.cmd) q d r
