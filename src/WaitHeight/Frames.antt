-- ===== src/WaitHeight/Frames.antt =====
-- WaitForHeight of desk/monitor.go: the commands that it sends.
use yaasa_go.Prelude.{ℕ, List, [], inl, inr, refl, sym, subst}
use yaasa_go.Float.{FloatOps}
use yaasa_go.Desk.{Desk, Action}
use yaasa_go.Schedule.{Event}
use yaasa_go.Commands.{op_move_to, op_stop}
use yaasa_go.Commands.Wrote.{Wrote-mono}
use yaasa_go.Commands.Frames.{IsFramed, Framed, waking-IsFramed, target-IsCommand, plain_stop}
use yaasa_go.WaitHeight.{Aim, wait_for_height}
use yaasa_go.WaitHeight.Effects.{IsOfMove, wait_for_height-Wrote}

module _ {F : Type 0} ⦃o : FloatOps F⦄ where
  of_move-IsFramed : (target : F) (b : Action) → IsOfMove target b → IsFramed b
  of_move-IsFramed target b (inl e) = waking-IsFramed b e
  of_move-IsFramed target b (inr (inl e)) =
      subst IsFramed (sym e) (op_move_to, _, target-IsCommand target, refl)
  of_move-IsFramed target b (inr (inr e)) = subst IsFramed (sym e) (op_stop, [], plain_stop, refl)

  pub wait_for_height-Framed :
      (a : Aim F) (me : ℕ) (es : List Event) (d : Desk F)
      → Framed d (wait_for_height a me es d).desk
  wait_for_height-Framed a me es d =
      Wrote-mono (IsOfMove a.target) IsFramed d _ (of_move-IsFramed a.target)
        (wait_for_height-Wrote a me es d)
