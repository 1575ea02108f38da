-- ===== src/Ipc/Serving/Success.antt =====
-- internal/ipc/server.go: the answers to "move" and "preset" that reach the client.
use yaasa_go.Prelude.{some-inj, ℕ, ◌+◌, List, Option, none, some, true, false, ◌≡◌, refl, ap}
use yaasa_go.Prelude.Int.{ℤ}
use yaasa_go.Result.{ok-inj, Result, ok, err}
use yaasa_go.Float.{FloatOps}
use yaasa_go.Height.{near}
use yaasa_go.Desk.{Desk}
use yaasa_go.Schedule.{Event, Among, reported}
use yaasa_go.Fetch.Hearing.{returned_of-returned}
use yaasa_go.WaitHeight.Arrival.{wait_for_height-arrived}
use yaasa_go.WaitPreset.Movement.{wait_for_preset-moved}
use yaasa_go.Ipc.{Request, Response, reply}
use yaasa_go.Ipc.Controller.{Controller, desk_controller}
use yaasa_go.Ipc.Server.{dispatch, serve, command_of, is_word, answer, tolerance_of}
use yaasa_go.Ipc.Client.{move_request, preset_request}
use yaasa_go.Ipc.Serving.{spent, written, encoded, handle, received_of, daemon_link}
use yaasa_go.Ipc.Serving.Minute.{written-same}

module _ {F S : Type 0} ⦃o : FloatOps F⦄ (c : Controller F S) (es : List Event) where
  received_of-handled :
      (w : Option (Option (Response F))) (r : Response F)
      → received_of c w ≡ ok r
      → w ≡ some (some r)
  received_of-handled (some (some a)) r h = ap (λ y. some (some y)) (ok-inj a r h)
  received_of-handled (some none) r h = cc
  received_of-handled none r h = cc

  -- What the client receives is what is written to the connection.
  pub received-handled :
      (at : ℕ) (s : S) (deadline : ℤ) (q : Request F) (r : Response F)
      → (daemon_link c at es s).receive deadline q ≡ ok r
      → (handle c (record { request = some q; at_lock = at; cancelled = false }) es s).0
        ≡ some (some r)
  unfolding daemon_link
  received-handled at s deadline q r h =
      received_of-handled
        (handle c (record { request = some q; at_lock = at; cancelled = false }) es s).0 r h

  encoded-dispatched :
      (at : ℕ) (x : Option (Response F) × S) (r : Response F)
      → received_of c (encoded c (at + spent es) x).0 ≡ ok r
      → x.0 ≡ some r
  encoded-dispatched at (none, s) r h = cc
  encoded-dispatched at (some a, s) r h = written-received (written (at + spent es) a) refl h
    where
      written-received :
          (w : Option (Response F))
          → written (at + spent es) a ≡ w
          → received_of c (some w) ≡ ok r
          → some a ≡ some r
      written-received none e k = cc
      written-received (some b) e k = let (same, _) = written-same (at + spent es) a b e in cc

  -- What the client receives is what the daemon has answered.
  pub received-dispatched :
      (at : ℕ) (s : S) (deadline : ℤ) (q : Request F) (r : Response F)
      → (daemon_link c at es s).receive deadline q ≡ ok r
      → (dispatch c es q s).0 ≡ some r
  unfolding daemon_link handle
  received-dispatched at s deadline q r h = encoded-dispatched at (dispatch c es q s) r h

  answer-success :
      (x : Option (Result (Unit {0})) × S) (r : Response F)
      → (answer c es reply x).0 ≡ some r
      → r.is_ok ≡ true
      → x.0 ≡ some (ok tt)
  answer-success (none, s) r h k = cc
  answer-success (some (ok _), s) r h k = refl
  answer-success (some (err e), s) r h k =
      let same = some-inj (reply (err e)) r h in let b = ap (λ z. z.is_ok) same in cc

module _ {F : Type 0} ⦃o : FloatOps F⦄ (me : ℕ) (es : List Event) where
  -- The desk reported a height that `near` takes for the one asked for.
  abbrev pub SeenNear : F → F → Type 0
  SeenNear height tolerance =
      Among (λ x. near x height (tolerance_of (desk_controller me) es tolerance) ≡ true)
        (reported es)

module _ {F : Type 0} ⦃o : FloatOps F⦄ (me : ℕ) (es : List Event) (d : Desk F) where
  -- The daemon answers "move" with success only if the desk reported a height within the tolerance of
  -- the one asked for while it ran, 2 mm if the request has no positive tolerance.
  pub dispatch-arrived :
      (height tolerance : F) (ms : ℤ) (r : Response F)
      → (dispatch (desk_controller me) es (move_request height tolerance ms) d).0 ≡ some r
      → r.is_ok ≡ true
      → SeenNear me es height tolerance
  unfolding dispatch serve command_of is_word desk_controller
  dispatch-arrived height tolerance ms r h k =
      wait_for_height-arrived _ me es d
        (returned_of-returned _ (ok tt) (answer-success (desk_controller me) es _ r h k))

  -- The daemon answers the move to a preset with success only if the desk reported a height while
  -- it ran.
  pub dispatch-moved :
      (n ms : ℤ) (r : Response F)
      → (dispatch (desk_controller me) es (preset_request n false ms) d).0 ≡ some r
      → r.is_ok ≡ true
      → Among {A = F} (λ _. Unit {0}) (reported es)
  unfolding dispatch serve command_of is_word desk_controller
  dispatch-moved n ms r h k =
      wait_for_preset-moved _ me es d
        (returned_of-returned _ (ok tt) (answer-success (desk_controller me) es _ r h k))
