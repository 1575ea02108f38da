-- ===== src/Schedule.antt =====
-- The waiting functions of desk/monitor.go and desk/stats.go run beside the BLE callbacks. A
-- schedule says in which order the steps of one call, the notifications and the timers come, and how
-- much time passes between them; what is not possible at its place in a schedule does not happen. Time
-- is in nanoseconds. What other goroutines do meanwhile with the same desk is not part of a schedule:
-- the writes of the keep-alive of cmd/yaasa/main.go, and the listeners that others add or cancel, which
-- WaitHeight.Listeners puts between the steps.
use yaasa_go.Prelude.{
  ℕ, ◌+◌, ◌≡◌, refl, List, [], ◌∷◌, ◌++◌, Bytes, Option, none, some, ◌==◌, if◌then◌else◌, ◌⊎◌, inl,
  inr, map, Bool-cases, ap, sym, ◌∙◌, append_assoc,
}
use yaasa_go.Prelude.Int.{ℤ}
use yaasa_go.Result.{Result, Error, after, hinted}
use yaasa_go.Float.{FloatOps}
use yaasa_go.Packet.{decode_responses}
use yaasa_go.Desk.{Desk, handle_notification}
use yaasa_go.Desk.Notify.{heights_of, height_calls, fan_out, handle_notification-Handled}

pub data Event : Type 0 where
  -- time passes
  elapse : ℕ → Event
  -- the BLE stack delivers a buffer
  notify : Bytes → Event
  -- the function goes on to its next call, before its loop
  proceed : Event
  -- the cases of its `select`
  ctx_done received quiet timed_out tick : Event

-- How much time passes in an event, and in a schedule.
abbrev pub spent : Event → ℕ
spent (elapse n) = n
spent _ = 0

abbrev pub time_of : List Event → ℕ
time_of [] = 0
time_of (e ∷ es) = spent e + time_of es

-- Where a function stands.
pub data Phase (A : Type 0) : Type 0 where
  waking moving selecting : Phase A
  returned : Result A → Phase A

abbrev pub IsReturned : {A : Type 0} → Phase A → Type 0
IsReturned {A} p = (r : Result A) × (p ≡ returned r)

-- `fmt.Errorf` of `heightTimeoutError`, whose hint names the error of the subscription.
abbrev hint : Option Error → Error → Error
hint none e = e
hint (some cause) e = hinted e cause

abbrev pub height_timeout_error : {F : Type 0} → Error → ℤ → Desk F → Error
height_timeout_error prefix timeout d = hint d.notify_err (after prefix timeout)

-- Some element of the list has the property.
abbrev pub Among {ℓ} : {A : Type ℓ} → (A → Type 0) → List A → Type 0
Among P [] = ⊥
Among P (x ∷ xs) = P x ⊎ Among P xs

module _ {ℓ} {A : Type ℓ} (P : A → Type 0) where
  pub Among-append : (xs ys : List A) → Among P (xs ++ ys) → Among P xs ⊎ Among P ys
  Among-append [] ys h = inr h
  Among-append (x ∷ xs) ys (inl p) = inl (inl p)
  Among-append (x ∷ xs) ys (inr h) = elim (Among-append xs ys h) [
    | inl q ↦ inl (inr q)
    | inr q ↦ inr q
  ]

  pub Among-append_left : (xs ys : List A) → Among P xs → Among P (xs ++ ys)
  Among-append_left [] ys h = elim h [ ]
  Among-append_left (x ∷ xs) ys (inl p) = inl p
  Among-append_left (x ∷ xs) ys (inr h) = inr (Among-append_left xs ys h)

  pub Among-append_right : (xs ys : List A) → Among P ys → Among P (xs ++ ys)
  Among-append_right [] ys h = h
  Among-append_right (x ∷ xs) ys h = inr (Among-append_right xs ys h)

module _ {A : Type 0} where
  -- The values with which the callback `me` is called.
  unfoldable pub own : ℕ → List (ℕ × A) → List A
  own me [] = []
  own me ((l, a) ∷ cs) = (if l == me then a ∷ [] else []) ++ own me cs

  own-append : (me : ℕ) (xs ys : List (ℕ × A)) → own me (xs ++ ys) ≡ own me xs ++ own me ys
  unfolding own
  own-append me [] ys = refl
  own-append me ((l, a) ∷ cs) ys =
      ap (◌++◌ (if l == me then a ∷ [] else [])) (own-append me cs ys)
      ∙ sym (append_assoc (if l == me then a ∷ [] else []) (own me cs) (own me ys))

  own-one :
      (P : A → Type 0) (me : ℕ) (a : A) (ls : List ℕ)
      → Among P (own me (map (λ l. (l, a)) ls))
      → P a
  unfolding own
  own-one P me a [] h = elim h [ ]
  own-one P me a (l ∷ ls) h = elim (Bool-cases (l == me)) [
    | inl e ↦ elim (rw e at h) [ inl p ↦ p | inr later ↦ own-one P me a ls later ]
    | inr e ↦ own-one P me a ls (rw e at h)
  ]

  pub own-fan_out :
      (P : A → Type 0) (me : ℕ) (ls : List ℕ) (as' : List A)
      → Among P (own me (fan_out ls as'))
      → Among P as'
  own-fan_out P me ls [] h = unfold own in h
  own-fan_out P me ls (a ∷ as') h =
      elim (Among-append P (own me (map (λ l. (l, a)) ls)) (own me (fan_out ls as'))
        (rw (own-append me (map (λ l. (l, a)) ls) (fan_out ls as')) at h)) [
          | inl p ↦ inl (own-one P me a ls p)
          | inr p ↦ inr (own-fan_out P me ls as' p)
        ]

module _ {F : Type 0} ⦃o : FloatOps F⦄ where
  -- The heights that the desk reports in a schedule.
  abbrev pub reported : List Event → List F
  reported [] = []
  reported (notify buf ∷ es) = heights_of (decode_responses buf) ++ reported es
  reported (_ ∷ es) = reported es

  -- A callback is called with reported heights only.
  pub own-reported :
      (P : F → Type 0) (me : ℕ) (buf : Bytes) (d : Desk F)
      → Among P (own me (height_calls (handle_notification buf d).1))
      → Among P (heights_of (decode_responses buf))
  own-reported P me buf d h =
      own-fan_out P me d.listeners (heights_of (decode_responses buf))
        (rw (handle_notification-Handled buf d).height_called at h)
