-- ===== src/WaitPreset/Movement.antt =====
-- WaitForPreset of desk/monitor.go: the heights that reach its loop.
use yaasa_go.Prelude.{
  ℕ, List, [], ◌∷◌, none, ◌≡◌, ◌≢◌, refl, sym, ◌∙◌, subst, ◌⊎◌, inl, inr, arith, Bytes, append-nil,
}
use yaasa_go.Result.{Result, ok, err, wrap, Error}
use yaasa_go.Float.{FloatOps}
use yaasa_go.Packet.{decode_responses}
use yaasa_go.Desk.{Desk, handle_notification}
use yaasa_go.Desk.Notify.{height_calls, heights_of}
use yaasa_go.Commands.{wake, go_preset}
use yaasa_go.Schedule.{
  Event, notify, returned, own, own-reported, Among, Among-append_left, Among-append_right,
  reported,
}
use yaasa_go.WaitPreset.Steps.{AllSteps, take_step_cases}
use yaasa_go.WaitPreset.{
  Wait, Aim, start, finish, stop_and_finish, after_wake, after_first, after_pulse, deliver, fill,
  count, take_step, run, wait_for_preset,
}

-- No height has reached the loop.
record Silent {F : Type 0} (w : Wait F) : Type 0 where
  no_height : w.queued ≡ 0
  no_timer : w.quiet_at ≡ none
  no_success : w.phase ≢ returned (ok tt)

module _ {F : Type 0} where
  after_wake-Silent :
      (w : Wait F) (x : Result (Unit {0}) × Desk F) → Silent w → Silent (after_wake w x)
  unfolding finish
  after_wake-Silent w (ok _, d) h = record {
    no_height = h.no_height;
    no_timer = h.no_timer;
    no_success = λ e. cc;
  }
  after_wake-Silent w (err x, d) h = record {
    no_height = h.no_height;
    no_timer = h.no_timer;
    no_success = λ e. cc;
  }

  after_first-Silent :
      (t : _) (w : Wait F) (x : Result (Unit {0}) × Desk F) → Silent w → Silent (after_first t w x)
  unfolding finish
  after_first-Silent t w (ok _, d) h = record {
    no_height = h.no_height;
    no_timer = h.no_timer;
    no_success = λ e. cc;
  }
  after_first-Silent t w (err x, d) h = record {
    no_height = h.no_height;
    no_timer = h.no_timer;
    no_success = λ e. cc;
  }

  stop_and_finish-Silent : (e : Error) (w : Wait F) → Silent w → Silent (stop_and_finish (err e) w)
  unfolding stop_and_finish finish
  stop_and_finish-Silent e w h = record {
    no_height = h.no_height;
    no_timer = h.no_timer;
    no_success = λ q. cc;
  }

  after_pulse-Silent :
      (w : Wait F) (x : Result (Unit {0}) × Desk F) → Silent w → Silent (after_pulse w x)
  after_pulse-Silent w (ok _, d) h = record {
    no_height = h.no_height;
    no_timer = h.no_timer;
    no_success = h.no_success;
  }
  after_pulse-Silent w (err x, d) h =
      stop_and_finish-Silent x (record w { desk = d })
        (record { no_height = h.no_height; no_timer = h.no_timer; no_success = h.no_success })

  -- An empty burst leaves the channel alone; in another one a height is heard.
  fill-cases : (hs : List F) (q : ℕ) → (fill (count hs) q ≡ q) ⊎ Among (λ _. Unit {0}) hs
  unfolding fill
  fill-cases [] q = inl refl
  fill-cases (h ∷ hs) q = inr (inl tt)

module _ (F : Type 0) ⦃o : FloatOps F⦄ where
  reported-first :
      (e : Event) (es : List Event)
      → Among {A = F} (λ _. Unit {0}) (reported (e ∷ []))
      → Among {A = F} (λ _. Unit {0}) (reported (e ∷ es))
  reported-first (notify buf) es h =
      Among-append_left (λ _. Unit {0}) (heights_of (decode_responses buf)) (reported es)
        (subst (Among (λ _. Unit {0})) (append-nil (heights_of (decode_responses buf))) h)
  reported-first _ es h = absurd h

  reported-later :
      (e : Event) (es : List Event)
      → Among {A = F} (λ _. Unit {0}) (reported es)
      → Among {A = F} (λ _. Unit {0}) (reported (e ∷ es))
  reported-later (notify buf) es h =
      Among-append_right (λ _. Unit {0}) (heights_of (decode_responses buf)) (reported es) h
  reported-later _ es h = h

module _ {F : Type 0} ⦃o : FloatOps F⦄ (a : Aim) where
  Silent-AllSteps : (R : Type 0) (w : Wait F) → Silent w → AllSteps a (λ v. Silent v ⊎ R) w
  Silent-AllSteps R w h = record {
    none_taken = inl h;
    woken = λ e. inl (after_wake-Silent w (wrap "wake" wake w.desk) h);
    first_sent =
        λ e. inl (after_first-Silent a.timeout w (wrap "go preset" (go_preset a.preset) w.desk) h);
    pulsed = λ e. inl (after_pulse-Silent w (wrap "go preset" (go_preset a.preset) w.desk) h);
    took = λ s q. absurd (let e = h.no_height in omega arith);
    settled = λ t s q k. absurd (let e = h.no_timer in cc);
    failed = λ e s. inl (stop_and_finish-Silent e w h);
  }

  -- A delivery is silent, or the desk reports a height in it.
  deliver-Silent :
      (buf : Bytes) (w : Wait F)
      → Silent w
      → Silent (deliver buf w) ⊎ Among {A = F} (λ _. Unit {0}) (reported (notify buf ∷ []))
  unfolding deliver
  deliver-Silent buf w h =
      elim (fill-cases (own w.me (height_calls (handle_notification buf w.desk).1)) w.queued) [
        | inl e ↦ inl (record {
          no_height = e ∙ h.no_height;
          no_timer = h.no_timer;
          no_success = h.no_success;
        })
        | inr heard ↦ inr (
            Among-append_left (λ _. Unit {0}) (heights_of (decode_responses buf)) []
              (own-reported (λ _. Unit {0}) w.me buf w.desk heard))
      ]

  step-Silent :
      (e : Event) (w : Wait F)
      → Silent w
      → Silent (take_step a e w) ⊎ Among {A = F} (λ _. Unit {0}) (reported (e ∷ []))
  step-Silent e w h =
      take_step_cases a (λ v. Silent v ⊎ Among {A = F} (λ _. Unit {0}) (reported (e ∷ []))) e w
        (λ n q.
          inl
            (record { no_height = h.no_height; no_timer = h.no_timer; no_success = h.no_success }))
        (λ buf q.
          subst (λ x. Silent (deliver buf w) ⊎ Among {A = F} (λ _. Unit {0}) (reported (x ∷ [])))
            (sym q) (deliver-Silent buf w h))
        (Silent-AllSteps (Among {A = F} (λ _. Unit {0}) (reported (e ∷ []))) w h)

  run-Silent :
      (es : List Event) (w : Wait F)
      → Silent w
      → (run a es w).phase ≡ returned (ok tt)
      → Among {A = F} (λ _. Unit {0}) (reported es)
  unfolding run
  run-Silent [] w h e = absurd (h.no_success e)
  run-Silent (x ∷ es) w h e = elim (step-Silent x w h) [
    | inl k ↦ reported-later F x es (run-Silent es (take_step a x w) k e)
    | inr k ↦ reported-first F x es k
  ]

  -- Under every schedule, `WaitForPreset` reports success only if the desk reported a height while
  -- it ran: a desk that is slow to start is not taken for one that has stopped.
  pub wait_for_preset-moved :
      (me : ℕ) (es : List Event) (d : Desk F)
      → (wait_for_preset a me es d).phase ≡ returned (ok tt)
      → Among {A = F} (λ _. Unit {0}) (reported es)
  unfolding wait_for_preset
  wait_for_preset-moved me es d e =
      run-Silent es (start me d)
        (record { no_height = refl; no_timer = refl; no_success = λ q. cc }) e
