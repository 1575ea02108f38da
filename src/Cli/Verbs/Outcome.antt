-- ===== src/Cli/Verbs/Outcome.antt =====
-- cmd/yaasa/main.go: "move", "preset", "up" and "down" as seen at the command line, over the client
-- and the daemon that serves the desk.
use yaasa_go.Prelude.{
  ℕ, ◌*◌, ◌/◌, ◌<◌, ◌≤◌, ◌^◌, List, [], ◌∷◌, some, true, false, Text, if◌then◌else◌, ◌≡◌, ◌≢◌, refl,
  sym, subst, ap, ◌∙◌, arith, All,
}
use yaasa_go.Prelude.Int.{ℤ, pos}
use yaasa_go.Result.{ok}
use yaasa_go.Float.{FloatOps}
use yaasa_go.Desk.{Desk}
use yaasa_go.Schedule.{Event, ctx_done, Among, reported}
use yaasa_go.Ipc.{Request, Response}
use yaasa_go.Ipc.Controller.{Controller, desk_controller}
use yaasa_go.Ipc.Client.{deadline_of, move_request, preset_request, up_request, down_request}
use yaasa_go.Ipc.Serving.{daemon_link}
use yaasa_go.Ipc.Serving.Success.{
  received-dispatched, received-handled, dispatch-arrived, SeenNear, dispatch-moved,
}
use yaasa_go.Ipc.Serving.Minute.{handle-refused, Timed, upwards, downwards}
use yaasa_go.Cli.{split_optional_address_value}
use yaasa_go.Cli.Session.{
  Host, Trail, Line, ◌>>=◌, arrived, show, ask, give, auto_daemon_client, never,
}
use yaasa_go.Cli.Session.Success.{
  Implies, then-Implies, first-Implies, closing-Implies, given-Implies, interruptible-Implies,
  ask-Implies,
}
use yaasa_go.Cli.Verbs.Served.{arguments-ok, motion_ms-dur}
use yaasa_go.Cli.Verbs.{
  Motion, Travel, Storing, operation, move_cmd, move_on, parsed_move, parsed, arguments, target_of,
  milliseconds, up_cmd, down_cmd, query, preset_cmd, preset_on, preset_number,
}

module _ {F S : Type 0} ⦃o : FloatOps F⦄ (h : Host F) (c : Controller F S) (at : ℕ)
    (es : List Event) (st : S) (served : h.link ≡ daemon_link c at es st) where
  -- What the daemon's answer of success implies, the success of the command does.
  operation-Implies :
      (P : Type 0) (q : Request F) (lines : List (Line F)) (args : List Text)
      → ((r : Response F)
          → (daemon_link c at es st).receive (deadline_of q) q ≡ ok r
          → r.is_ok ≡ true
          → P)
      → Implies P (operation h never q lines args)
  operation-Implies P q lines args v = then-Implies P (auto_daemon_client h args) _ (λ addr.
      closing-Implies P _ (
        interruptible-Implies P _ (
          first-Implies P (ask h q) (λ r. show lines)
            (ask-Implies h P q
              (λ r e. v r (subst (λ l. l.receive (deadline_of q) q ≡ ok r) served e))))))

module _ {F : Type 0} ⦃o : FloatOps F⦄ (h : Host F) (me at : ℕ) (es : List Event) (d : Desk F)
    (served : h.link ≡ daemon_link (desk_controller me) at es d) where
  -- "move", when no signal comes: its success means that the desk reported a height within the
  -- tolerance of the target that was typed, 2 mm if the flag is not positive.
  pub move_cmd-arrived :
      (flags : Travel F) (args addr : List Text) (text : Text) (val : F) (t : Trail F)
      → split_optional_address_value args ≡ some (addr, text)
      → h.parse_float text ≡ ok val
      → (move_cmd h never flags args t).0 ≡ some (ok tt)
      → SeenNear me es (target_of h flags.in_inches val) flags.tolerance
  unfolding move_cmd
  move_cmd-arrived flags args addr text val t e p =
      given-Implies _ (arguments h args) (addr, text) (parsed_move h never flags)
        (arguments-ok h (desk_controller me) es args (addr, text) e)
        (subst
          (λ r.
            Implies (SeenNear me es (target_of h flags.in_inches val) flags.tolerance)
              (parsed h r >>= λ x. move_on h never flags addr (target_of h flags.in_inches x)))
          (sym p)
          (operation-Implies h (desk_controller me) at es d served _
            (move_request (target_of h flags.in_inches val) flags.tolerance
              (milliseconds flags.move_timeout))
            (arrived (target_of h flags.in_inches val) ∷ []) addr
            (λ r a b.
              dispatch-arrived me es d (target_of h flags.in_inches val) flags.tolerance
                (milliseconds flags.move_timeout) r
                (received-dispatched (desk_controller me) es at d _ _ r a) b)))
        t tt

  -- "preset" to move there, when no signal comes: its success means that the desk reported a height
  -- while the daemon served the request.
  pub preset_cmd-moved :
      (flags : Storing) (args addr : List Text) (text : Text) (n : ℤ) (t : Trail F)
      → flags.saves ≡ false
      → split_optional_address_value args ≡ some (addr, text)
      → preset_number (h.atoi text) ≡ ok n
      → (preset_cmd h never flags args t).0 ≡ some (ok tt)
      → Among {A = F} (λ _. Unit {0}) (reported es)
  unfolding preset_cmd
  preset_cmd-moved flags args addr text n t f e p =
      given-Implies _ (arguments h args) (addr, text)
        (λ p. give (preset_number (h.atoi p.1)) >>= λ n. preset_on h never flags p.0 n)
        (arguments-ok h (desk_controller me) es args (addr, text) e)
        (given-Implies _ (preset_number (h.atoi text)) n (preset_on h never flags addr) p (
          subst
            (λ b. Implies (Among {A = F} (λ _. Unit {0}) (reported es)) (
              if b
              then query h (preset_request n true (milliseconds flags.move_timeout)) (λ r. []) addr
              else operation h never (preset_request n false (milliseconds flags.move_timeout)) []
                  addr))
            (sym f)
            (operation-Implies h (desk_controller me) at es d served _
              (preset_request n false (milliseconds flags.move_timeout)) [] addr
              (λ r a b.
                dispatch-moved me es d n (milliseconds flags.move_timeout) r
                  (received-dispatched (desk_controller me) es at d _ _ r a) b))))
        t tt

module _ {F S : Type 0} ⦃o : FloatOps F⦄ (h : Host F) (c : Controller F S) (at : ℕ)
    (es : List Event) (st : S) (served : h.link ≡ daemon_link c at es st) where
  operation-refused :
      (ms : ℕ) (q : Request F) (args : List Text)
      → ms * 1_000_000 < 2 ^ 63
      → 60_000 < ms
      → Timed c es (pos ms) q
      → All (λ e. e ≢ ctx_done) es
      → Implies ⊥ (operation h never q [] args)
  operation-refused ms q args k p t n = operation-Implies h c at es st served ⊥ q [] args (λ r a b.
      let f =
        handle-refused c es ms q (record { request = some q; at_lock = at; cancelled = false }) st r
          k p refl t n (received-handled c es at st _ q r a) in
      cc)

  -- "up" and "down" for more than a minute of whole milliseconds, without a distance, over a daemon
  -- that serves the desk: when neither a signal nor another command comes in between, they never
  -- succeed.
  pub up_cmd-refused :
      (m : Motion F) (n : ℕ) (args : List Text) (t : Trail F)
      → m.dur ≡ pos n
      → o.le m.distance (o.of_nat 0) ≡ true
      → 60_001_000_000 ≤ n
      → n < 2 ^ 63
      → All (λ e. e ≢ ctx_done) es
      → ¬ ((up_cmd h never m args t).0 ≡ some (ok tt))
        × ¬ ((down_cmd h never m args t).0 ≡ some (ok tt))
  unfolding up_cmd down_cmd
  up_cmd-refused m n args t e z l k v =
      let ms = motion_ms-dur h c es m z ∙ ap milliseconds e in
      (
        subst (λ x. Implies ⊥ (operation h never (up_request x) [] args)) (sym ms)
            (operation-refused (n / 1_000_000) (up_request (pos (n / 1_000_000))) args (omega arith)
              (omega arith) upwards v)
            t tt,
        subst (λ x. Implies ⊥ (operation h never (down_request x) [] args)) (sym ms)
            (operation-refused (n / 1_000_000) (down_request (pos (n / 1_000_000))) args
              (omega arith) (omega arith) downwards v)
            t tt,
      )
