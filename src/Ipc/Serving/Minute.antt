-- ===== src/Ipc/Serving/Minute.antt =====
-- internal/ipc/server.go: timed moves of more than a minute.
use yaasa_go.Prelude.{
  some-inj, ℕ, ◌+◌, ◌*◌, ◌^◌, ◌≤◌, ◌<◌, List, Option, none, some, Bool, true, false, ◌≡◌, ◌≢◌, refl,
  ap, sym, subst, ◌∙◌, arith, leb, leb→le, Bool-cases, inl, inr, if◌then◌else◌, All,
}
use yaasa_go.Prelude.Int.{ℤ, pos, pos_part, scale64-pos}
use yaasa_go.Result.{Result, ok, err, M, message}
use yaasa_go.Float.{FloatOps}
use yaasa_go.Schedule.{Event, ctx_done}
use yaasa_go.Ipc.{Request, Response, reply, err_r}
use yaasa_go.Ipc.Controller.{Controller}
use yaasa_go.Ipc.Server.{pulsing, dispatch, serve, command_of, is_word, answer, duration_or}
use yaasa_go.Ipc.Client.{up_request, down_request}
use yaasa_go.Ipc.Serving.Late.{pulsing-late}
use yaasa_go.Ipc.Serving.{Visit, spent, written, encoded, handle, handle_request, conn_deadline}

pub written-same :
    {F : Type 0} (now : ℕ) (a r : Response F)
    → written now a ≡ some r
    → (a ≡ r) × (now ≤ conn_deadline)
unfolding written
written-same now a r h = elim (Bool-cases (leb now conn_deadline)) [
  | inl b ↦
      (some-inj a r (sym (ap (λ z. if z then some a else none) b) ∙ h), leb→le now conn_deadline b)
  | inr b ↦ let e : none ≡ some r = sym (ap (λ z. if z then some a else none) b) ∙ h in cc
]

module _ {F S : Type 0} ⦃o : FloatOps F⦄ (c : Controller F S) (es : List Event) where
  -- An operation that succeeds only after the deadline of the connection reports no success.
  encoded-refused :
      (dur at : ℕ) (x : Option (Result (Unit {0})) × S) (r : Response F)
      → conn_deadline < dur
      → (x.0 ≡ some (ok tt) → dur ≤ spent es)
      → (encoded c (at + spent es) (answer c es reply x)).0 ≡ some (some r)
      → r.is_ok ≡ false
  encoded-refused dur at (none, s) r d k h = cc
  encoded-refused dur at (some (err e), s) r d k h =
      let (same, _) = written-same (at + spent es) (reply (err e)) r (some-inj _ _ h) in
      ap (λ z. z.is_ok) (sym same)
  encoded-refused dur at (some (ok _), s) r d k h =
      let (_, early) = written-same (at + spent es) (reply (ok tt)) r (some-inj _ _ h) in
      let late = k refl in absurd (omega arith)

  -- The two requests that move the desk for a length of time.
  pub data Timed (ms : ℤ) : Request F → Type 0 where
    upwards : Timed ms (up_request ms)
    downwards : Timed ms (down_request ms)

  module _ (ms : ℕ) (h : ms * 1_000_000 < 2 ^ 63) (p : 60_000 < ms) where
    timed-dur : pos_part (duration_or 500_000_000 (pos ms)) ≡ ms * 1_000_000
    unfolding duration_or
    timed-dur = rw (scale64-pos 1_000_000 ms h) (ground arith)

    pulsing-refused :
        (pulse : M S (Unit {0})) (at : ℕ) (s : S) (r : Response F)
        → All (λ e. e ≢ ctx_done) es
        → (encoded c (at + spent es) (
            answer c es reply
              (pulsing c pulse (pos_part (duration_or 500_000_000 (pos ms))) es s))).0
          ≡ some (some r)
        → r.is_ok ≡ false
    pulsing-refused pulse at s r n e =
        let d = timed-dur in
        encoded-refused (pos_part (duration_or 500_000_000 (pos ms))) at
          (pulsing c pulse (pos_part (duration_or 500_000_000 (pos ms))) es s) r (omega arith)
          (pulsing-late c pulse (pos_part (duration_or 500_000_000 (pos ms))) es s n) e

    dispatch-refused :
        (q : Request F) (at : ℕ) (s : S) (r : Response F)
        → Timed (pos ms) q
        → All (λ e. e ≢ ctx_done) es
        → (encoded c (at + spent es) (dispatch c es q s)).0 ≡ some (some r)
        → r.is_ok ≡ false
    unfolding dispatch serve command_of is_word
    dispatch-refused q at s r upwards n e = pulsing-refused c.move_up at s r n e
    dispatch-refused q at s r downwards n e = pulsing-refused c.move_down at s r n e

  admitted-refused :
      (cancelled : Bool) (at : ℕ) (x : Option (Response F) × S) (s : S) (r : Response F)
      → ((encoded c (at + spent es) x).0 ≡ some (some r) → r.is_ok ≡ false)
      → (if cancelled
          then (some (written at (err_r (message "preempted by newer command"))), s)
          else encoded c (at + spent es) x).0
        ≡ some (some r)
      → r.is_ok ≡ false
  admitted-refused false at x s r k a = k a
  admitted-refused true at x s r k a =
      let (same, _) =
        written-same at (err_r (message "preempted by newer command")) r (some-inj _ _ a) in
      ap (λ z. z.is_ok) (sym same)

  -- "up" or "down" for more than a minute, on a connection whose turn is not cancelled from outside:
  -- whatever the daemon then writes reports no success, although the desk moves the whole time.
  pub handle-refused :
      (ms : ℕ) (q : Request F) (v : Visit F) (s : S) (r : Response F)
      → ms * 1_000_000 < 2 ^ 63
      → 60_000 < ms
      → v.request ≡ some q
      → Timed (pos ms) q
      → All (λ e. e ≢ ctx_done) es
      → (handle c v es s).0 ≡ some (some r)
      → r.is_ok ≡ false
  unfolding handle
  handle-refused ms q v s r h p e t n a =
      admitted-refused v.cancelled v.at_lock (dispatch c es q s) s r
        (dispatch-refused ms h p q v.at_lock s r t n)
        (subst (λ z. (handle_request c v es s z).0 ≡ some (some r)) e a)
