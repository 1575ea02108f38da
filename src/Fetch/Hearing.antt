-- ===== src/Fetch/Hearing.antt =====
-- CurrentHeight of desk/monitor.go and FetchSitStandTime of desk/stats.go: where the value of a call
-- comes from, for both.
use yaasa_go.Prelude.{
  ℕ, List, [], ◌∷◌, ◌++◌, Option, none, some, ◌≡◌, refl, subst, ◌⊎◌, inl, inr, Bytes, append-nil,
  Bool-cases, leb,
}
use yaasa_go.Prelude.Int.{ℤ}
use yaasa_go.Result.{Result, ok, err}
use yaasa_go.Float.{FloatOps}
use yaasa_go.Packet.{Notification, decode_responses}
use yaasa_go.Desk.{Desk, handle_notification}
use yaasa_go.Schedule.{
  Event, elapse, notify, proceed, received, timed_out, Phase, waking, selecting, moving, returned,
  own, Among, Among-append_left, Among-append_right,
}
use yaasa_go.Fetch.{
  Wait, Query, offered, start, after_request, ask, taken, take, expire, deliver, step, run,
  returned_of,
}

-- The values that the notifications of a schedule carry.
abbrev pub carried : {A : Type 0} → (List Notification → List A) → List Event → List A
carried f [] = []
carried f (notify buf ∷ es) = f (decode_responses buf) ++ carried f es
carried f (_ ∷ es) = carried f es

returned-inj : {A : Type 0} (x y : A) → returned (ok x) ≡ returned (ok y) → x ≡ y
returned-inj x y h = cc

pub returned_of-returned :
    {A : Type 0} (p : Phase A) (r : Result A) → returned_of p ≡ some r → p ≡ returned r
returned_of-returned (returned s) r e = cc
returned_of-returned waking r e = cc
returned_of-returned moving r e = cc
returned_of-returned selecting r e = cc

module _ {F A : Type 0} (q : Query F A) (P : A → Type 0) where
  -- What the call has so far: values in its channel and its result have the property.
  record Good (w : Wait F A) : Type 0 where
    channel : (x : A) → w.got ≡ some x → P x
    result : (x : A) → w.phase ≡ returned (ok x) → P x

  after_request-Good :
      (t : ℤ) (w : Wait F A) (x : Result (Unit {0}) × Desk F)
      → Good w
      → Good (after_request q t w x)
  after_request-Good t w (ok _, d) g = record { channel = g.channel; result = λ x e. cc }
  after_request-Good t w (err e, d) g = record { channel = g.channel; result = λ x e. cc }

  ask-Good : (t : ℤ) (p : Phase A) (w : Wait F A) → Good w → Good (ask q t p w)
  unfolding ask
  ask-Good t waking w g = after_request-Good t w (q.request w.desk) g
  ask-Good t _ w g = g

  taken-Good : (o : Option A) (w : Wait F A) → w.got ≡ o → Good w → Good (taken q o w)
  taken-Good none w e g = g
  taken-Good (some x) w e g = record {
    channel = g.channel;
    result = λ y h. subst P (returned-inj x y h) (g.channel x e);
  }

  take-Good : (p : Phase A) (w : Wait F A) → Good w → Good (take q p w)
  unfolding take
  take-Good selecting w g = taken-Good w.got w refl g
  take-Good _ w g = g

  expire-Good : (t : ℤ) (p : Phase A) (w : Wait F A) → Good w → Good (expire q t p w)
  unfolding expire
  expire-Good t selecting w g = elim (Bool-cases (leb w.deadline w.now)) [
    | inl e ↦ rw e (record { channel = g.channel; result = λ x h. cc })
    | inr e ↦ rw e g
  ]
  expire-Good t _ w g = g

  -- A non-blocking send to a channel of one place.
  offered-cases :
      (o : Option A) (xs : List A) (x : A)
      → offered q o xs ≡ some x
      → (o ≡ some x) ⊎ Among (λ y. y ≡ x) xs
  offered-cases (some y) xs x e = inl e
  offered-cases none [] x e = cc
  offered-cases none (y ∷ ys) x e = inr (inl cc)

module _ {F A : Type 0} ⦃o : FloatOps F⦄ (q : Query F A) (f : List Notification → List A) where
  -- What the callback of the query hears is carried by the notification.
  abbrev pub Hears : Type 0
  Hears =
      (buf : Bytes) (d : Desk F) (me : ℕ) (x : A)
      → Among (λ y. y ≡ x) (own me (q.calls (handle_notification buf d).1))
      → Among (λ y. y ≡ x) (f (decode_responses buf))

  Good-map : (P Q : A → Type 0) (w : Wait F A) → ((x : A) → P x → Q x) → Good q P w → Good q Q w
  Good-map P Q w h g = record {
    channel = λ x e. h x (g.channel x e);
    result = λ x e. h x (g.result x e);
  }

  deliver-Good :
      (P : A → Type 0) (buf : Bytes) (w : Wait F A)
      → Hears
      → Good q P w
      → Good q (λ x. P x ⊎ Among (λ y. y ≡ x) (f (decode_responses buf))) (deliver q buf w)
  unfolding deliver
  deliver-Good P buf w hears g = record {
    channel = λ x e. elim (offered-cases q P w.got _ x e) [
      | inl old ↦ inl (g.channel x old)
      | inr new ↦ inr (hears buf w.desk w.me x new)
    ];
    result = λ x e. inl (g.result x e);
  }

  step-Good :
      (P : A → Type 0) (t : ℤ) (e : Event) (w : Wait F A)
      → Hears
      → Good q P w
      → Good q (λ x. P x ⊎ Among (λ y. y ≡ x) (carried f (e ∷ []))) (step q t e w)
  unfolding step
  step-Good P t (notify buf) w hears g =
      Good-map _ _ (deliver q buf w)
        (λ x h. elim h [
          | inl p ↦ inl p
          | inr a ↦ inr (Among-append_left (λ y. y ≡ x) (f (decode_responses buf)) [] a)
        ])
        (deliver-Good P buf w hears g)
  step-Good P t (elapse n) w hears g = record {
    channel = λ x e. inl (g.channel x e);
    result = λ x e. inl (g.result x e);
  }
  step-Good P t proceed w hears g = Good-map P _ _ (λ x. inl) (ask-Good q P t w.phase w g)
  step-Good P t received w hears g = Good-map P _ _ (λ x. inl) (take-Good q P w.phase w g)
  step-Good P t timed_out w hears g = Good-map P _ _ (λ x. inl) (expire-Good q P t w.phase w g)
  step-Good P t _ w hears g = Good-map P _ w (λ x. inl) g

  carried-one :
      (e : Event) (es : List Event) (x : A)
      → Among (λ y. y ≡ x) (carried f (e ∷ [])) ⊎ Among (λ y. y ≡ x) (carried f es)
      → Among (λ y. y ≡ x) (carried f (e ∷ es))
  carried-one (notify buf) es x (inl h) =
      Among-append_left (λ y. y ≡ x) (f (decode_responses buf)) (carried f es)
        (subst (Among (λ y. y ≡ x)) (append-nil (f (decode_responses buf))) h)
  carried-one (notify buf) es x (inr h) =
      Among-append_right (λ y. y ≡ x) (f (decode_responses buf)) (carried f es) h
  carried-one _ es x (inl h) = absurd h
  carried-one _ es x (inr h) = h

  run-Good :
      (t : ℤ) (es : List Event) (P : A → Type 0) (w : Wait F A)
      → Hears
      → Good q P w
      → Good q (λ x. P x ⊎ Among (λ y. y ≡ x) (carried f es)) (run q t es w)
  unfolding run
  run-Good t [] P w hears g = Good-map P _ w (λ x. inl) g
  run-Good t (e ∷ es) P w hears g =
      Good-map _ _ (run q t es (step q t e w))
        (λ x h. elim h [
          | inl (inl p) ↦ inl p
          | inl (inr a) ↦ inr (carried-one e es x (inl a))
          | inr a ↦ inr (carried-one e es x (inr a))
        ])
        (run-Good t es (λ x. P x ⊎ Among (λ y. y ≡ x) (carried f (e ∷ []))) (step q t e w) hears
          (step-Good P t e w hears g))

  -- A call that starts with nothing returns what was carried in the meantime.
  pub start-carried :
      (t : ℤ) (me : ℕ) (es : List Event) (d : Desk F) (x : A)
      → Hears
      → (run q t es (start q me d)).phase ≡ returned (ok x)
      → Among (λ y. y ≡ x) (carried f es)
  start-carried t me es d x hears e =
      elim ((run-Good t es (λ y. ⊥) (start q me d) hears
          (record { channel = λ y h. cc; result = λ y h. cc })).result
        x e) [ inl h ↦ absurd h | inr h ↦ h ]
