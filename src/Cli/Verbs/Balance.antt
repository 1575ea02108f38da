-- ===== src/Cli/Verbs/Balance.antt =====
-- cmd/yaasa/main.go: the connections that the commands open to the daemon.
use yaasa_go.Prelude.{
  List, [], ◌∷◌, Option, none, some, Bool, true, false, Text, ◌≡◌, arith, if◌then◌else◌,
}
use yaasa_go.Prelude.Int.{ℤ}
use yaasa_go.Result.{Result, ok, err, message}
use yaasa_go.Float.{FloatOps}
use yaasa_go.Height.{mm}
use yaasa_go.Ipc.{Request, Response}
use yaasa_go.Ipc.Client.{
  up_request, down_request, stop_request, height_request, stats_request, info_request,
  status_request, quit_request, preset_request, move_request,
}
use yaasa_go.Cli.{resolve_address}
use yaasa_go.Cli.Session.{
  Host, Trail, Cmd, Line, opened, arrived, running, stopped, connected, notifications, not_running,
  ◌>>=◌, give, does, show, ignore, ask, Signal, interruptible,
}
use yaasa_go.Cli.Verbs.{
  Travel, Storing, query, operation, info_cmd, height_cmd, stats_cmd, stop_cmd, up_cmd, down_cmd,
  move_cmd, preset_cmd, preset_on, move_on, preset_number, status_cmd, quit_cmd, dial, resolve,
  milliseconds, print_info, stats_lines, height_lines, motion_ms, arguments, parsed, target_of,
  Verb, info, stats, stop, status, quit, height, up, down, move, preset, run_verb,
}
use yaasa_go.Cli.Session.Balance.{
  opens, closes, Open, Ends, IsEven, some-Ends, then-IsEven, give-IsEven, show-IsEven, closing-Ends,
  ignore-IsEven, interruptible-IsEven, ask-IsEven, with_client-IsEven, does-opened,
}

module _ {F : Type 0} ⦃o : FloatOps F⦄ (h : Host F) where
  query-IsEven :
      (q : Request F) (lines : Response F → List (Line F)) (args : List Text)
      → IsEven (query h q lines args)
  query-IsEven q lines args =
      with_client-IsEven h args (ask h q >>= λ r. show (lines r))
        (then-IsEven (ask h q) (λ r. show (lines r)) (ask-IsEven h q) (λ r. show-IsEven (lines r)))

  operation-IsEven :
      (s : Signal) (q : Request F) (lines : List (Line F)) (args : List Text)
      → IsEven (operation h s q lines args)
  operation-IsEven s q lines args =
      with_client-IsEven h args (interruptible s (ask h q >>= λ r. show lines)) (
        interruptible-IsEven s (ask h q >>= λ r. show lines)
          (then-IsEven (ask h q) (λ r. show lines) (ask-IsEven h q) (λ r. show-IsEven lines)))

  move_on-IsEven :
      (s : Signal) (flags : Travel F) (args : List Text) (target : F)
      → IsEven (move_on h s flags args target)
  move_on-IsEven s flags args target =
      operation-IsEven s
        (move_request (mm target) flags.tolerance (milliseconds flags.move_timeout))
        (arrived target ∷ []) args

  parsed-IsEven : (r : Result F) → IsEven (parsed h r)
  parsed-IsEven (ok v) n t w = w
  parsed-IsEven (err e) n t w = w

  preset_on-IsEven :
      (s : Signal) (flags : Storing) (args : List Text) (n : ℤ)
      → IsEven (preset_on h s flags args n)
  preset_on-IsEven s flags args n =
      if_IsEven _ _ flags.saves
        (query-IsEven (preset_request n true (milliseconds flags.move_timeout)) (λ r. []) args)
        (operation-IsEven s (preset_request n false (milliseconds flags.move_timeout)) [] args)
    where
      if_IsEven :
          (x y : Cmd F (Unit {0})) (b : Bool) → IsEven x → IsEven y → IsEven (if b then x else y)
      if_IsEven x y true v w = v
      if_IsEven x y false v w = w

  dial-IsEven :
      (b : Bool) (m otherwise : Cmd F (Unit {0}))
      → IsEven m
      → IsEven otherwise
      → IsEven (dial h b m otherwise)
  dial-IsEven true m otherwise v w n t k = closing-Ends m n (does opened t) v (does-opened n t k)
  dial-IsEven false m otherwise v w n t k = w n t k

  resolve-IsEven : (args : List Text) → IsEven (resolve h args)
  resolve-IsEven args n t v = some-Ends n (resolve_address args t.world) t v

  run_verb-IsEven : (v : Verb F) (args : List Text) → IsEven (run_verb h v args)
  unfolding run_verb info_cmd stats_cmd stop_cmd status_cmd quit_cmd height_cmd up_cmd down_cmd
      move_cmd preset_cmd
  run_verb-IsEven info args = query-IsEven info_request print_info args
  run_verb-IsEven stats args = query-IsEven stats_request (stats_lines h) args
  run_verb-IsEven stop args = query-IsEven stop_request (λ r. []) args
  run_verb-IsEven (height inches) args = query-IsEven height_request (height_lines h inches) args
  run_verb-IsEven (up s m) args = operation-IsEven s (up_request (motion_ms h m)) [] args
  run_verb-IsEven (down s m) args = operation-IsEven s (down_request (motion_ms h m)) [] args
  run_verb-IsEven (move s flags) args =
      then-IsEven (give (arguments h args)) _ (give-IsEven (arguments h args)) (λ p.
        then-IsEven (parsed h (h.parse_float p.1)) _ (parsed-IsEven (h.parse_float p.1))
          (λ val. move_on-IsEven s flags p.0 (target_of h flags.in_inches val)))
  run_verb-IsEven (preset s flags) args =
      then-IsEven (give (arguments h args)) _ (give-IsEven (arguments h args)) (λ p.
        then-IsEven (give (preset_number (h.atoi p.1))) _ (give-IsEven (preset_number (h.atoi p.1)))
          (λ n. preset_on-IsEven s flags p.0 n))
  run_verb-IsEven status args = then-IsEven (resolve h args) _ (resolve-IsEven args) (λ addr.
      dial-IsEven (h.answers addr) _ _
        (then-IsEven (ask h status_request) _ (ask-IsEven h status_request) (λ r.
          show-IsEven (running addr ∷ connected r.connected ∷ notifications r.notifications ∷ [])))
        (show-IsEven (not_running addr ∷ [])))
  run_verb-IsEven quit args = then-IsEven (resolve h args) _ (resolve-IsEven args) (λ addr.
      dial-IsEven (h.answers addr) _ _
        (then-IsEven (ignore (ask h quit_request)) _
          (ignore-IsEven (ask h quit_request) (ask-IsEven h quit_request))
          (λ r. show-IsEven (stopped addr ∷ [])))
        (give-IsEven {A = Unit {0}} (err (message "no daemon running"))))

  ended-Open :
      (x : Option (Result (Unit {0})) × Trail F) (r : Result (Unit {0}))
      → Ends 0 0 x
      → x.0 ≡ some r
      → Open 0 x.1
  ended-Open (none, t) r v e = cc
  ended-Open (some (ok a), t) r v e = v
  ended-Open (some (err z), t) r v e = v

  -- However a command that speaks to the daemon returns, also when a signal interrupts it, it has
  -- closed as many connections as it has opened.
  pub run_verb-closes :
      (v : Verb F) (args : List Text) (t : Trail F) (r : Result (Unit {0}))
      → t.log ≡ []
      → (run_verb h v args t).0 ≡ some r
      → opens (run_verb h v args t).1.log ≡ closes (run_verb h v args t).1.log
  unfolding opens closes
  run_verb-closes v args t r l e =
      let k =
        ended-Open (run_verb h v args t) r (run_verb-IsEven v args 0 t (rw l (omega arith))) e in
      omega arith
