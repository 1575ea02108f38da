-- ===== src/Cli/Verbs/Served.antt =====
-- cmd/yaasa/main.go with internal/ipc/client.go and internal/ipc/server.go: the requests of "up"
-- and "move", and how the daemon serves them.
use yaasa_go.Prelude.{
  ℕ, ◌*◌, ◌/◌, ◌<◌, ◌^◌, List, [], ◌∷◌, Option, some, true, Text, ◌≡◌, refl, All, ◌⊎◌, inl, inr,
  if◌then◌else◌, ltb, subst, sym, arith, ap, ◌∙◌,
}
use yaasa_go.Prelude.Int.{ℤ, pos, scale64-pos, pos_part}
use yaasa_go.Result.{Result, ok}
use yaasa_go.Float.{FloatOps}
use yaasa_go.Schedule.{Event}
use yaasa_go.Ipc.{Request, Response, reply}
use yaasa_go.Ipc.Controller.{Controller}
use yaasa_go.Ipc.Client.{stop_request, up_request, move_request}
use yaasa_go.Ipc.Server.{
  dispatch, serve, command_of, is_word, answer, pulsing, duration_or, tolerance_of,
}
use yaasa_go.Cli.{split_optional_address_value, move_duration}
use yaasa_go.Cli.Session.{Host, Trail, Cmd, Line, arrived, ◌>>=◌, give, show, ask, Signal}
use yaasa_go.Cli.Session.Logs.{
  Asks, AsksOnly, then-AsksOnly, show-AsksOnly, ask-AsksOnly, with_client-AsksOnly,
  interruptible-AsksOnly,
}
use yaasa_go.Cli.Verbs.{
  Motion, Travel, operation, up_cmd, move_cmd, move_on, parsed_move, milliseconds, motion_ms,
  parsed, arguments, target_of,
}

-- A length of time at the daemon: whole milliseconds, and the default below one.
duration_or-milliseconds :
    (k d : ℕ)
    → d < 2 ^ 63
    → duration_or k (milliseconds (pos d))
      ≡ pos (if ltb d 1_000_000 then k else d / 1_000_000 * 1_000_000)
unfolding duration_or
duration_or-milliseconds k d h =
    rw (scale64-pos 1_000_000 (d / 1_000_000) (omega arith)) (ground arith)

module _ {F S : Type 0} ⦃o : FloatOps F⦄ (h : Host F) (c : Controller F S) (es : List Event) where
  pub operation-AsksOnly :
      (P : Request F → Type 0) (s : Signal) (q : Request F) (lines : List (Line F))
      (args : List Text)
      → P stop_request
      → P q
      → AsksOnly P (operation h s q lines args)
  operation-AsksOnly P s q lines args p k = with_client-AsksOnly P h args _ (
      interruptible-AsksOnly P p s _ (
        then-AsksOnly P (ask h q) (λ r. show lines) (ask-AsksOnly P h q k)
          (λ r. show-AsksOnly P lines)))

  -- A stop, or a request that the daemon serves as `f` says.
  abbrev pub ServedAs : (S → Option (Response F) × S) → Request F → Type 0
  ServedAs f q = (q ≡ stop_request) ⊎ (dispatch c es q ≡ f)

  pub up-dispatch :
      (ms : ℤ)
      → dispatch c es (up_request ms) ≡ λ st.
          answer c es reply (pulsing c c.move_up (pos_part (duration_or 500_000_000 ms)) es st)
  unfolding dispatch serve command_of is_word
  up-dispatch ms = refl

  pub motion_ms-dur :
      (m : Motion F) → o.le m.distance (o.of_nat 0) ≡ true → motion_ms h m ≡ milliseconds m.dur
  unfolding move_duration
  motion_ms-dur m z = rw z refl

  -- "up" for `d` nanoseconds without a distance asks the daemon for nothing but to move up for as many
  -- whole milliseconds, or for half a second if it is less than one millisecond, and for stops.
  pub up_cmd-ServedAs :
      (s : Signal) (m : Motion F) (d : ℕ) (args : List Text) (t : Trail F)
      → m.dur ≡ pos d
      → d < 2 ^ 63
      → o.le m.distance (o.of_nat 0) ≡ true
      → t.log ≡ []
      → All
          (Asks (
            ServedAs (λ st. answer c es reply (
              pulsing c c.move_up
                (if ltb d 1_000_000 then 500_000_000 else d / 1_000_000 * 1_000_000)
                es
                st))))
          (up_cmd h s m args t).1.log
  unfolding up_cmd
  up_cmd-ServedAs s m d args t e l z k =
      operation-AsksOnly _ s (up_request (motion_ms h m)) [] args (inl refl)
        (inr (
          up-dispatch (motion_ms h m)
          ∙ ap (λ n st. answer c es reply (pulsing c c.move_up (pos_part n) es st))
              (ap (λ y. duration_or 500_000_000 y) (motion_ms-dur m z ∙ ap milliseconds e)
                ∙ duration_or-milliseconds 500_000_000 d l)))
        t (rw k tt)

  move-dispatch :
      (x tol : F) (ms : ℤ)
      → dispatch c es (move_request x tol ms) ≡ λ st.
          answer c es reply
            (c.wait_for_height x (tolerance_of c es tol) (duration_or 30_000_000_000 ms) es st)
  unfolding dispatch serve command_of is_word
  move-dispatch x tol ms = refl

  given-AsksOnly :
      {A B : Type 0} (P : Request F → Type 0) (r : Result A) (a : A) (f : A → Cmd F B)
      → r ≡ ok a
      → AsksOnly P (f a)
      → AsksOnly P (give r >>= f)
  given-AsksOnly P r a f e v = subst (λ x. AsksOnly P (give x >>= f)) (sym e) v

  pub arguments-ok :
      (args : List Text) (p : List Text × Text)
      → split_optional_address_value args ≡ some p
      → arguments h args ≡ ok p
  arguments-ok args p e = rw (e, arguments) refl

  move_on-AsksOnly :
      (s : Signal) (flags : Travel F) (args : List Text) (target : F)
      → AsksOnly
          (ServedAs (λ st. answer c es reply (
            c.wait_for_height target
              (tolerance_of c es flags.tolerance)
              (duration_or 30_000_000_000 (milliseconds flags.move_timeout))
              es
              st)))
          (move_on h s flags args target)
  move_on-AsksOnly s flags args target =
      operation-AsksOnly _ s (move_request target flags.tolerance (milliseconds flags.move_timeout))
        (arrived target ∷ []) args (inl refl)
        (inr (move-dispatch target flags.tolerance (milliseconds flags.move_timeout)))

  parsed_move-AsksOnly :
      (P : Request F → Type 0) (s : Signal) (flags : Travel F) (p : List Text × Text) (val : F)
      → h.parse_float p.1 ≡ ok val
      → AsksOnly P (move_on h s flags p.0 (target_of h flags.in_inches val))
      → AsksOnly P (parsed_move h s flags p)
  parsed_move-AsksOnly P s flags p val e v =
      subst
        (λ r.
          AsksOnly P (parsed h r >>= λ x. move_on h s flags p.0 (target_of h flags.in_inches x)))
        (sym e) v

  -- "move" to a height that is parsed as `val` asks the daemon for nothing but to wait for that height,
  -- in inches or in millimetres as the flag says, with the tolerance of its flag, and for stops.
  pub move_cmd-ServedAs :
      (s : Signal) (flags : Travel F) (args addr : List Text) (text : Text) (val : F) (t : Trail F)
      → split_optional_address_value args ≡ some (addr, text)
      → h.parse_float text ≡ ok val
      → t.log ≡ []
      → All
          (Asks (
            ServedAs (λ st. answer c es reply (
              c.wait_for_height
                (target_of h flags.in_inches val)
                (tolerance_of c es flags.tolerance)
                (duration_or 30_000_000_000 (milliseconds flags.move_timeout))
                es
                st))))
          (move_cmd h s flags args t).1.log
  unfolding move_cmd
  move_cmd-ServedAs s flags args addr text val t e p k =
      given-AsksOnly _ (arguments h args) (addr, text) (parsed_move h s flags)
        (arguments-ok args (addr, text) e)
        (parsed_move-AsksOnly _ s flags (addr, text) val p
          (move_on-AsksOnly s flags addr (target_of h flags.in_inches val)))
        t (rw k tt)
