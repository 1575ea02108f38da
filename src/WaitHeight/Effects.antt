-- ===== src/WaitHeight/Effects.antt =====
-- WaitForHeight of desk/monitor.go: its listener, and the frames that it writes.
use yaasa_go.Prelude.{
  ℕ, ◌+◌, List, [], ◌∷◌, ◌++◌, ◌≡◌, refl, ap, sym, ◌∙◌, ◌⊎◌, inl, inr, append-nil, length, get_or,
}
use yaasa_go.Prelude.Int.{ℤ}
use yaasa_go.Result.{Result, ok, err, wrap, ignore}
use yaasa_go.Float.{FloatOps}
use yaasa_go.Height.{millimetre_bytes}
use yaasa_go.Packet.{make_command}
use yaasa_go.Desk.{
  Desk, Action, tx, handle_notification, cancel_height_listener, add_height_listener,
}
use yaasa_go.Desk.Notify.{handle_notification-Handled}
use yaasa_go.Desk.Listeners.{remove_at-append, new_index}
use yaasa_go.Commands.{wake, stop, move_to_height, op_stop, op_move_to}
use yaasa_go.Commands.Wrote.{Wrote, Wrote-Effect, Wrote-conn, stop-Effect, Effect-mono}
use yaasa_go.Commands.Motion.{Effect, write-Effect, wrap-Effect, wake-Effect, IsWaking}
use yaasa_go.Schedule.{Event, Phase, waking, moving, selecting, returned}
use yaasa_go.WaitHeight.Steps.{AllSteps, run_inv}
use yaasa_go.WaitHeight.{
  Wait, Aim, start, finish, stop_and_finish, after_wake, after_first, after_pulse, deliver,
  wait_for_height,
}

-- The actions of a move to one target.
abbrev pub IsOfMove : {F : Type 0} ⦃o : FloatOps F⦄ → F → Action → Type 0
IsOfMove target b =
    IsWaking b
    ⊎ (let p = millimetre_bytes target in
        b ≡ tx (make_command op_move_to (get_or p 0 0 ∷ get_or p 1 0 ∷ [])))
    ⊎ (b ≡ tx (make_command op_stop []))

module _ {F : Type 0} where
  abbrev pub Attached : List ℕ → List ℕ → Desk F → ℕ → ℕ → Type 0
  Attached ls later e me idx = (e.listeners ≡ ls ++ me ∷ later) × (idx ≡ length ls)

  -- The listeners are those of the start, the own one until the return, and later ones.
  abbrev pub Listens : List ℕ → List ℕ → Phase (Unit {0}) → Wait F → Type 0
  Listens ls later (returned r) w = w.desk.listeners ≡ ls ++ later
  Listens ls later _ w = Attached ls later w.desk w.me w.idx

  abbrev pub Inv : (Action → Type 0) → Desk F → List ℕ → Wait F → Type 0
  Inv P d later w = Wrote P d w.desk × Listens d.listeners later w.phase w

  Attached-Effect :
      (P : Action → Type 0) (ls later : List ℕ) (e f : Desk F) (me idx : ℕ)
      → Effect P e f
      → Attached ls later e me idx
      → Attached ls later f me idx
  Attached-Effect P ls later e f me idx x (h, k) =
      (ap (λ (g : Desk F). g.listeners) x.rest_kept ∙ h, k)

  finish-Inv :
      (P : Action → Type 0) (later : List ℕ) (d e : Desk F) (r : Result (Unit {0})) (w : Wait F)
      → Wrote P d w.desk
      → Attached d.listeners later w.desk w.me w.idx
      → Effect P w.desk e
      → Inv P d later (finish r e w)
  unfolding finish cancel_height_listener
  finish-Inv P later d e r w v at_end x =
      let (h, k) = Attached-Effect P d.listeners later w.desk e w.me w.idx x at_end in
      (
        Wrote-conn P d e _ refl (Wrote-Effect P d w.desk e v x),
        rw (h, k) (remove_at-append d.listeners later w.me),
      )

  after_wake-Inv :
      (P : Action → Type 0) (later : List ℕ) (d : Desk F) (w : Wait F)
      (x : Result (Unit {0}) × Desk F)
      → Wrote P d w.desk
      → Attached d.listeners later w.desk w.me w.idx
      → Effect P w.desk x.1
      → Inv P d later (after_wake w x)
  after_wake-Inv P later d w (ok _, e) v l x =
      (Wrote-Effect P d w.desk e v x, Attached-Effect P d.listeners later w.desk e w.me w.idx x l)
  after_wake-Inv P later d w (err r, e) v l x = finish-Inv P later d e (err r) w v l x

  after_first-Inv :
      (P : Action → Type 0) (later : List ℕ) (t : ℤ) (d : Desk F) (w : Wait F)
      (x : Result (Unit {0}) × Desk F)
      → Wrote P d w.desk
      → Attached d.listeners later w.desk w.me w.idx
      → Effect P w.desk x.1
      → Inv P d later (after_first t w x)
  after_first-Inv P later t d w (ok _, e) v l x =
      (Wrote-Effect P d w.desk e v x, Attached-Effect P d.listeners later w.desk e w.me w.idx x l)
  after_first-Inv P later t d w (err r, e) v l x = finish-Inv P later d e (err r) w v l x

  stop_and_finish-Inv :
      (P : Action → Type 0) (later : List ℕ) (d : Desk F) (r : Result (Unit {0})) (w : Wait F)
      → P (tx (make_command op_stop []))
      → Wrote P d w.desk
      → Attached d.listeners later w.desk w.me w.idx
      → Inv P d later (stop_and_finish r w)
  unfolding stop_and_finish
  stop_and_finish-Inv P later d r w h v l =
      finish-Inv P later d (ignore stop w.desk).1 r w v l (stop-Effect P w.desk h)

  after_pulse-Inv :
      (P : Action → Type 0) (later : List ℕ) (d : Desk F) (w : Wait F)
      (x : Result (Unit {0}) × Desk F)
      → P (tx (make_command op_stop []))
      → w.phase ≡ selecting
      → Wrote P d w.desk
      → Attached d.listeners later w.desk w.me w.idx
      → Effect P w.desk x.1
      → Inv P d later (after_pulse w x)
  after_pulse-Inv P later d w (ok _, e) h s v l x = (
    Wrote-Effect P d w.desk e v x,
    rw s (Attached-Effect P d.listeners later w.desk e w.me w.idx x l),
  )
  after_pulse-Inv P later d w (err r, e) h s v l x =
      stop_and_finish-Inv P later d (err r) (record w { desk = e }) h
        (Wrote-Effect P d w.desk e v x)
        (Attached-Effect P d.listeners later w.desk e w.me w.idx x l)

  Listens-kept :
      (ls later : List ℕ) (p : Phase (Unit {0})) (w w' : Wait F)
      → w'.desk.listeners ≡ w.desk.listeners
      → w'.me ≡ w.me
      → w'.idx ≡ w.idx
      → Listens ls later p w
      → Listens ls later p w'
  Listens-kept ls later (returned r) w w' h hm hi l = h ∙ l
  Listens-kept ls later waking w w' h hm hi l = (h ∙ rw hm l.0, hi ∙ l.1)
  Listens-kept ls later moving w w' h hm hi l = (h ∙ rw hm l.0, hi ∙ l.1)
  Listens-kept ls later selecting w w' h hm hi l = (h ∙ rw hm l.0, hi ∙ l.1)

module _ {F : Type 0} ⦃o : FloatOps F⦄ (a : Aim F) where
  move_to_height-Effect : (e : Desk F) → Effect (IsOfMove a.target) e (move_to_height a.target e).1
  unfolding move_to_height
  move_to_height-Effect e = write-Effect (IsOfMove a.target) _ e (inr (inl refl))

  wake-Effect-IsOfMove : (e : Desk F) → Effect (IsOfMove a.target) e (wake e).1
  wake-Effect-IsOfMove e =
      Effect-mono IsWaking (IsOfMove a.target) e (wake e).1 (λ b h. inl h) (wake-Effect e)

  pub Inv-AllSteps :
      (d : Desk F) (later : List ℕ) (w : Wait F)
      → Inv (IsOfMove a.target) d later w
      → AllSteps a (Inv (IsOfMove a.target) d later) w
  unfolding deliver
  Inv-AllSteps d later w (v, l) = record {
    none_taken = (v, l);
    elapsed = λ n. (
      v,
      Listens-kept d.listeners later w.phase w (record w { now = w.now + n }) refl refl refl l,
    );
    delivered = λ buf.
        let kept = handle_notification-Handled buf w.desk in
        (
          Wrote-conn (IsOfMove a.target) d w.desk (handle_notification buf w.desk).0 kept.conn_kept
              v,
          Listens-kept d.listeners later w.phase w (deliver a buf w) kept.listeners_kept refl refl
              l,
        );
    woken = λ h.
        after_wake-Inv (IsOfMove a.target) later d w (wrap "wake" wake w.desk) v (rw h at l) (
          wrap-Effect (IsOfMove a.target) "wake" (wake w.desk) w.desk
            (wake-Effect-IsOfMove w.desk));
    first_sent = λ h.
        after_first-Inv (IsOfMove a.target) later a.timeout d w
          (wrap "move to height" (move_to_height a.target) w.desk) v (rw h at l)
          (wrap-Effect (IsOfMove a.target) "move to height" (move_to_height a.target w.desk) w.desk
            (move_to_height-Effect w.desk));
    pulsed = λ h.
        after_pulse-Inv (IsOfMove a.target) later d w
          (wrap "move to height" (move_to_height a.target) w.desk) (inr (inr refl)) h v (rw h at l)
          (wrap-Effect (IsOfMove a.target) "move to height" (move_to_height a.target w.desk) w.desk
            (move_to_height-Effect w.desk));
    left = λ r b h.
        stop_and_finish-Inv (IsOfMove a.target) later d r (record w { arrived = b })
          (inr (inr refl)) v (rw h at l);
  }

  pub start-Inv : (me : ℕ) (d : Desk F) → Inv (IsOfMove a.target) d [] (start me d)
  unfolding start add_height_listener
  start-Inv me d = (
    record { added = []; log_is = sym (append-nil d.conn.log); added_all = tt },
    (refl, new_index d.listeners me),
  )

  -- Under every schedule, all that `WaitForHeight` does at the connection is to send wake frames
  -- with their pauses, move frames to its target and stop frames.
  pub wait_for_height-Wrote :
      (me : ℕ) (es : List Event) (d : Desk F)
      → Wrote (IsOfMove a.target) d (wait_for_height a me es d).desk
  unfolding wait_for_height
  wait_for_height-Wrote me es d =
      (run_inv a (Inv (IsOfMove a.target) d []) (Inv-AllSteps d []) es (start me d)
        (start-Inv me d)).0
