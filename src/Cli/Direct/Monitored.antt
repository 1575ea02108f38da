-- ===== src/Cli/Direct/Monitored.antt =====
-- cmd/yaasa/main.go: the heights that "monitor" prints.
use yaasa_go.Prelude.{
  ℕ, List, [], ◌∷◌, ◌++◌, ◌≡◌, refl, ap, sym, ◌∙◌, subst, append_assoc, append-nil, ==_iff,
  Bool-cases, inl, inr,
}
use yaasa_go.Prelude.Int.{ℤ, is_nonpos}
use yaasa_go.Result.{Result, ok, err}
use yaasa_go.Float.{FloatOps}
use yaasa_go.Packet.{decode_responses}
use yaasa_go.Schedule.{selecting, returned, own, IsReturned}
use yaasa_go.Desk.{Desk, add_height_listener, handle_notification}
use yaasa_go.Desk.Notify.{height_calls, heights_of, fan_out, handle_notification-Handled}
use yaasa_go.Commands.{request_height_limits}
use yaasa_go.Cli.Direct.{
  Watching, notified, interrupted, polled, Watch, watch_turn, watch_run, asked_first, after_poll,
  heard, monitor,
}

module _ {F : Type 0} where
  own-fan_out_one : (me : ℕ) (as' : List F) → own me (fan_out (me ∷ []) as') ≡ as'
  unfolding own
  own-fan_out_one me [] = refl
  own-fan_out_one me (a ∷ as') = rw ((==_iff me me).1 refl) (ap (◌∷◌ a) (own-fan_out_one me as'))

  request_height_limits-listeners :
      (d : Desk F) → (request_height_limits d).1.listeners ≡ d.listeners
  unfolding request_height_limits
  request_height_limits-listeners d = refl

module _ {F : Type 0} ⦃o : FloatOps F⦄ (interval : ℤ) (me : ℕ) where
  -- The heights that the desk reports.
  abbrev pub reported : List Watching → List F
  reported [] = []
  reported (notified buf ∷ es) = heights_of (decode_responses buf) ++ reported es
  reported (_ ∷ es) = reported es

  run-IsReturned :
      (es : List Watching) (w : Watch F)
      → IsReturned w.phase
      → IsReturned (watch_run interval me es w).phase
  unfolding watch_run watch_turn
  run-IsReturned [] w r = r
  run-IsReturned (e ∷ es) w (r, q) =
      subst (λ p. IsReturned (watch_run interval me es (watch_turn interval me p e w)).phase)
        (sym q) (run-IsReturned es w (r, q))

  -- The rest of a run prints what is then reported, if it goes on waiting.
  abbrev Prints : List Watching → List F → Watch F → Type 0
  Prints es as' w =
      (watch_run interval me es w).phase ≡ selecting
      → (watch_run interval me es w).shown ≡ as' ++ reported es

  stopped-Prints :
      (es : List Watching) (as' : List F) (w : Watch F) → IsReturned w.phase → Prints es as' w
  stopped-Prints es as' w r h = let (x, q) = run-IsReturned es w r in cc

  after_poll-Prints :
      (es : List Watching) (w : Watch F) (x : Result (Unit {0}) × Desk F)
      → w.phase ≡ selecting
      → x.1.listeners ≡ me ∷ []
      → ((v : Watch F) → v.phase ≡ selecting → v.desk.listeners ≡ me ∷ [] → Prints es v.shown v)
      → Prints es w.shown (after_poll interval me x w)
  after_poll-Prints es w (ok _, d) s l f = f (record w { desk = d }) s l
  after_poll-Prints es w (err e, d) s l f = stopped-Prints es w.shown _ (_, refl)

  -- One event, before a rest that is as it should be.
  turn-Prints :
      (e : Watching) (es : List Watching) (w : Watch F)
      → w.phase ≡ selecting
      → w.desk.listeners ≡ me ∷ []
      → ((v : Watch F) → v.phase ≡ selecting → v.desk.listeners ≡ me ∷ [] → Prints es v.shown v)
      → (watch_run interval me es (watch_turn interval me selecting e w)).phase ≡ selecting
      → (watch_run interval me es (watch_turn interval me selecting e w)).shown
        ≡ w.shown ++ reported (e ∷ es)
  unfolding watch_turn
  turn-Prints (notified buf) es w s l f = λ h.
      let k = handle_notification-Handled buf w.desk in
      let called : own me (height_calls (handle_notification buf w.desk).1)
          ≡ heights_of (decode_responses buf) =
        ap (own me) (k.height_called ∙ ap (λ ls. fan_out ls (heights_of (decode_responses buf))) l)
        ∙ own-fan_out_one me (heights_of (decode_responses buf)) in
      f (heard interval me (handle_notification buf w.desk) w) s (k.listeners_kept ∙ l) h
      ∙ ap (λ x. (w.shown ++ x) ++ reported es) called
      ∙ append_assoc w.shown (heights_of (decode_responses buf)) (reported es)
  turn-Prints interrupted es w s l f =
      stopped-Prints es w.shown (record w { phase = returned (ok tt) }) (_, refl)
  turn-Prints polled es w s l f = elim (Bool-cases (is_nonpos interval)) [
    | inl b ↦ rw b (f w s l)
    | inr b ↦ rw b (
        after_poll-Prints es w (request_height_limits w.desk) s
          (request_height_limits-listeners w.desk ∙ l) f)
  ]

  run-Prints :
      (es : List Watching) (w : Watch F)
      → w.phase ≡ selecting
      → w.desk.listeners ≡ me ∷ []
      → Prints es w.shown w
  unfolding watch_run
  run-Prints [] w s l = λ h. sym (append-nil w.shown)
  run-Prints (e ∷ es) w s l =
      subst
        (λ p.
          (watch_run interval me es (watch_turn interval me p e w)).phase ≡ selecting
          → (watch_run interval me es (watch_turn interval me p e w)).shown
            ≡ w.shown ++ reported (e ∷ es))
        (sym s) (turn-Prints e es w s l (run-Prints es))

  asked_first-Prints :
      (es : List Watching) (x : Result (Unit {0}) × Desk F)
      → x.1.listeners ≡ me ∷ []
      → Prints es [] (asked_first interval me x)
  asked_first-Prints es (ok _, d) l =
      run-Prints es (record { desk = d; shown = []; phase = selecting }) refl l
  asked_first-Prints es (err e, d) l = stopped-Prints es [] _ (_, refl)

  -- While "monitor" waits on a desk without another listener, it has printed all heights that the desk
  -- has reported, in order, and nothing else.
  pub monitor-shown :
      (es : List Watching) (d : Desk F)
      → d.listeners ≡ []
      → (monitor interval me es d).phase ≡ selecting
      → (monitor interval me es d).shown ≡ reported es
  unfolding monitor add_height_listener
  monitor-shown es d l h =
      asked_first-Prints es (request_height_limits (add_height_listener me d).1)
        (request_height_limits-listeners (add_height_listener me d).1 ∙ ap (λ ls. ls ++ me ∷ []) l)
        h
