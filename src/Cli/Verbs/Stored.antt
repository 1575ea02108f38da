-- ===== src/Cli/Verbs/Stored.antt =====
-- cmd/yaasa/main.go with internal/ipc/client.go and internal/ipc/server.go: the requests of
-- "preset", and how the daemon serves them.
use yaasa_go.Prelude.{
  List, [], Option, none, some, Bool, true, false, Text, ◌≡◌, refl, All, ◌⊎◌, inl, inr, ◌||◌, ◌==◌,
  ==_iff, if◌then◌else◌, subst, arith, ap, Bool-cases,
}
use yaasa_go.Prelude.Int.{ℤ, pos, negsuc, ltb_ℤ}
use yaasa_go.Result.{Result, ok, err}
use yaasa_go.Float.{FloatOps}
use yaasa_go.Schedule.{Event}
use yaasa_go.Ipc.{Request, Response, reply}
use yaasa_go.Ipc.Controller.{Controller}
use yaasa_go.Ipc.Client.{stop_request, preset_request}
use yaasa_go.Ipc.Server.{dispatch, serve, command_of, is_word, answer, at_once, duration_or}
use yaasa_go.Cli.Session.{Host, Trail, Cmd, ◌>>=◌, give, show, ask, Signal}
use yaasa_go.Cli.Session.Logs.{
  Asks, AsksOnly, then-AsksOnly, give-AsksOnly, show-AsksOnly, ask-AsksOnly, with_client-AsksOnly,
}
use yaasa_go.Cli.Verbs.{Storing, preset_cmd, preset_on, preset_number, milliseconds, arguments}
use yaasa_go.Cli.Verbs.Served.{operation-AsksOnly}

module _ {F S : Type 0} ⦃o : FloatOps F⦄ (h : Host F) (c : Controller F S) (es : List Event) where
  -- The presets of a desk.
  abbrev pub IsStored : ℤ → Type 0
  IsStored n = (n ≡ pos 1) ⊎ (n ≡ pos 2)

  in_range-IsStored : (n : ℤ) → (ltb_ℤ n (pos 1) || ltb_ℤ (pos 2) n) ≡ false → IsStored n
  in_range-IsStored (pos k) e = elim (Bool-cases (k == 1)) [
    | inl q ↦ inl (ap pos ((==_iff k 1).0 q))
    | inr q ↦ inr (ap pos (ground arith))
  ]
  in_range-IsStored (negsuc k) e = absurd (ground arith)

  preset_number-IsStored : (r : Option ℤ) (n : ℤ) → preset_number r ≡ ok n → IsStored n
  preset_number-IsStored none n e = cc
  preset_number-IsStored (some m) n e = elim (Bool-cases (ltb_ℤ m (pos 1) || ltb_ℤ (pos 2) m)) [
    | inl b ↦ absurd (let k = rw b at e in cc)
    | inr b ↦ let k = rw b at e in let q : m ≡ n = cc in subst IsStored q (in_range-IsStored m b)
  ]

  -- How the daemon serves "preset" for the preset `n`.
  abbrev pub serve_preset : Storing → ℤ → S → Option (Response F) × S
  serve_preset flags n st =
      if flags.saves
      then at_once c es reply (c.save_preset n st)
      else answer c es reply (
          c.wait_for_preset n (duration_or 30_000_000_000 (milliseconds flags.move_timeout)) (pos 0)
            es st)

  abbrev pub ServedPreset : Storing → Request F → Type 0
  ServedPreset flags q =
      (q ≡ stop_request)
      ⊎ ((n : ℤ) × (IsStored n × (dispatch c es q ≡ λ st. serve_preset flags n st)))

  preset_on-AsksOnly :
      (s : Signal) (flags : Storing) (args : List Text) (n : ℤ)
      → IsStored n
      → AsksOnly (ServedPreset flags) (preset_on h s flags args n)
  unfolding dispatch serve command_of is_word
  preset_on-AsksOnly s flags args n v = choice flags.saves refl
    where
      choice :
          (b : Bool) → flags.saves ≡ b → AsksOnly (ServedPreset flags) (preset_on h s flags args n)
      choice true e = rw e (
          with_client-AsksOnly (ServedPreset (record flags { saves = true })) h args _ (
            then-AsksOnly _ (ask h (preset_request n true (milliseconds flags.move_timeout)))
              (λ r. show [])
              (ask-AsksOnly _ h (preset_request n true (milliseconds flags.move_timeout))
                (inr (n, (v, refl))))
              (λ r. show-AsksOnly _ [])))
      choice false e = rw e (
          operation-AsksOnly h c es (ServedPreset (record flags { saves = false })) s
            (preset_request n false (milliseconds flags.move_timeout)) [] args (inl refl)
            (inr (n, (v, refl))))

  numbered-AsksOnly :
      (P : Request F → Type 0) (r : Option ℤ) (f : ℤ → Cmd F (Unit {0}))
      → ((n : ℤ) → IsStored n → AsksOnly P (f n))
      → AsksOnly P (give (preset_number r) >>= f)
  numbered-AsksOnly P r f v = go (preset_number r) (preset_number-IsStored r)
    where
      go : (x : Result ℤ) → ((n : ℤ) → x ≡ ok n → IsStored n) → AsksOnly P (give x >>= f)
      go (ok n) w = v n (w n refl)
      go (err e) w = λ t l. l

  -- Whatever the arguments of "preset" are, it asks the daemon for nothing but to save the preset 1 or
  -- 2, or to go to it, as its flag says, and for stops.
  pub preset_cmd-ServedPreset :
      (s : Signal) (flags : Storing) (args : List Text) (t : Trail F)
      → t.log ≡ []
      → All (Asks (ServedPreset flags)) (preset_cmd h s flags args t).1.log
  unfolding preset_cmd
  preset_cmd-ServedPreset s flags args t k =
      then-AsksOnly (ServedPreset flags) (give (arguments h args)) _
        (give-AsksOnly (ServedPreset flags) (arguments h args))
        (λ p.
          numbered-AsksOnly (ServedPreset flags) (h.atoi p.1) _
            (λ n v. preset_on-AsksOnly s flags p.0 n v))
        t (rw k tt)
