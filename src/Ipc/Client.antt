-- ===== src/Ipc/Client.antt =====
-- internal/ipc/client.go: a request to the daemon and its deadline.
use yaasa_go.Prelude.{
  ℕ, ◌+◌, ◌*◌, ◌≤◌, ◌<◌, ◌^◌, Bool, false, ◌&&◌, Option, none, some, if◌then◌else◌, ◌≡◌, refl,
  arith, Bool-cases, inl, inr, not, String, ap, ◌∙◌, leb, leb→le,
}
use yaasa_go.Prelude.Int.{ℤ, pos, is_nonpos, ltb_ℤ, scale64, scale64-pos, add64, add64-pos}
use yaasa_go.Result.{Result, ok, err, Error, wrapped, message}
use yaasa_go.Float.{FloatOps}
use yaasa_go.Ipc.{Request, Response}
use yaasa_go.Ipc.Server.{millisecond}

-- `d + 5*time.Second` of `d := time.Duration(ms) * time.Millisecond`
abbrev grace : ℕ
grace = 5_000_000_000

abbrev with_grace : ℤ → ℤ
with_grace ms = add64 (scale64 millisecond ms) grace

-- One of the two tests of `Do`: `ms > 0 && d + 5*time.Second > deadline`.
unfoldable pub extend : ℤ → ℤ → ℤ
extend ms deadline =
    if not (is_nonpos ms) && ltb_ℤ deadline (with_grace ms) then with_grace ms else deadline

abbrev sixty_seconds : ℤ
sixty_seconds = pos 60_000_000_000

unfoldable pub deadline_of : {F : Type 0} → Request F → ℤ
unfolding extend
deadline_of q = extend q.duration_ms (extend q.timeout_ms sixty_seconds)

-- The connection: what its encoder and decoder return, for a deadline.
pub record Link (F : Type 0) : Type 0 where
  pub send : ℤ → Request F → Result (Unit {0})
  pub receive : ℤ → Request F → Result (Response F)

-- `Do` returns a response and an error, each of which may be missing.
abbrev no_error : Error
no_error = message ""

abbrev pub error_of : Option Error → Error
error_of none = no_error
error_of (some e) = e

abbrev pub checked : {F : Type 0} → Response F → Option (Response F) × Option Error
checked r = (some r, if r.is_ok then none else some (error_of r.error))

abbrev pub after_receive : {F : Type 0} → Result (Response F) → Option (Response F) × Option Error
after_receive (ok r) = checked r
after_receive (err e) = (none, some (wrapped "recv from daemon" e))

abbrev pub after_send :
    {F : Type 0} → Result (Response F) → Result (Unit {0}) → Option (Response F) × Option Error
after_send received (ok _) = after_receive received
after_send received (err e) = (none, some (wrapped "send to daemon" e))

unfoldable pub do_request : {F : Type 0} → Link F → Request F → Option (Response F) × Option Error
unfolding deadline_of
do_request l q = after_send (l.receive (deadline_of q) q) (l.send (deadline_of q) q)

module _ {F : Type 0} ⦃o : FloatOps F⦄ where
  -- `Request{Cmd: word}`
  abbrev plain : String → Request F
  plain word = record {
    cmd = word;
    duration_ms = pos 0;
    height_mm = o.of_nat 0;
    tolerance_mm = o.of_nat 0;
    timeout_ms = pos 0;
    preset = pos 0;
    save = false;
  }

  -- The requests of the convenience wrappers.
  abbrev pub up_request : ℤ → Request F
  up_request ms = record (plain "up") { duration_ms = ms }

  abbrev pub down_request : ℤ → Request F
  down_request ms = record (plain "down") { duration_ms = ms }

  abbrev pub stop_request : Request F
  stop_request = plain "stop"

  abbrev pub height_request : Request F
  height_request = plain "height"

  abbrev pub stats_request : Request F
  stats_request = plain "stats"

  abbrev pub info_request : Request F
  info_request = plain "info"

  abbrev pub status_request : Request F
  status_request = plain "status"

  abbrev pub quit_request : Request F
  quit_request = plain "quit"

  abbrev pub preset_request : ℤ → Bool → ℤ → Request F
  preset_request n save timeout_ms = record (plain "preset") {
    preset = n;
    save = save;
    timeout_ms = timeout_ms;
  }

  abbrev pub move_request : F → F → ℤ → Request F
  move_request height_mm tolerance_mm timeout_ms = record (plain "move") {
    height_mm = height_mm;
    tolerance_mm = tolerance_mm;
    timeout_ms = timeout_ms;
  }

with_grace-pos :
    (t : ℕ) → t * millisecond + grace < 2 ^ 63 → with_grace (pos t) ≡ pos (t * millisecond + grace)
with_grace-pos t h =
    ap (λ z. add64 z grace) (scale64-pos millisecond t (omega arith))
    ∙ add64-pos (t * millisecond) grace h

-- A test of `Do` does not shorten the deadline, and makes it long enough.
record Extended (t d : ℕ) (z : ℤ) : Type 0 where
  result : ℕ
  is_result : z ≡ pos result
  longer : d ≤ result
  enough : 0 < t → t * millisecond + grace ≤ result

extend-Extended :
    (t d : ℕ) → t * millisecond + grace < 2 ^ 63 → Extended t d (extend (pos t) (pos d))
unfolding extend
extend-Extended t d h = elim (Bool-cases (leb t 0)) [
  | inl z ↦ rw z (record {
    result = d;
    is_result = refl;
    longer = omega arith;
    enough = λ k. let l = leb→le t 0 z in absurd (omega arith);
  })
  | inr p ↦ elim (Bool-cases (ltb_ℤ (pos d) (pos (t * millisecond + grace)))) [
    | inl b ↦
        rw (p, with_grace-pos t h, b)
          (record {
            result = t * millisecond + grace;
            is_result = refl;
            longer = ground arith;
            enough = λ k. omega arith;
          })
    | inr b ↦
        rw (p, with_grace-pos t h, b)
          (record {
            result = d;
            is_result = refl;
            longer = omega arith;
            enough = λ k. ground arith;
          })
  ]
]

-- The client waits for at least a minute, and for at least five seconds longer than the times in its
-- request, if these are below the range of `time.Duration`.
pub deadline_of-bounds :
    {F : Type 0} (q : Request F) (t u : ℕ)
    → q.timeout_ms ≡ pos t
    → q.duration_ms ≡ pos u
    → t * millisecond + grace < 2 ^ 63
    → u * millisecond + grace < 2 ^ 63
    → (n : ℕ) × ((deadline_of q ≡ pos n)
        × ((60_000_000_000 ≤ n)
            × (((0 < t → t * millisecond + grace ≤ n)) × ((0 < u → u * millisecond + grace ≤ n)))))
unfolding deadline_of
deadline_of-bounds q t u et eu ht hu =
    let first = extend-Extended t 60_000_000_000 ht in
    let last = extend-Extended u first.result hu in
    (
      last.result,
      (
        rw (et, eu, first.is_result) last.is_result,
        (
          (let a = first.longer in let b = last.longer in omega arith),
          ((λ k. let a = first.enough k in let b = last.longer in omega arith), last.enough),
        ),
      ),
    )
