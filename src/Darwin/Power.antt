-- ===== src/Darwin/Power.antt =====
-- desk/adapter_darwin.go: the power state of the central manager, and the wait for it.
use yaasa_go.Prelude.{
  ℕ, ◌+◌, List, [], ◌∷◌, Bool, true, false, leb, if◌then◌else◌, ◌≡◌, refl, sym, subst,
}
use yaasa_go.Result.{Result, ok, err, message}
use yaasa_go.Schedule.{Phase, selecting, returned}

-- The state of the manager, whether `poweredCh` is closed, and the time.
pub record Power : Type 0 where
  pub is_on : Bool
  pub powered : Bool
  pub now : ℕ

pub data Event : Type 0 where
  -- time passes
  elapse : ℕ → Event
  -- the manager's state changes, and the delegate is told
  switched : Bool → Event
  -- the cases of the `select` of `ensureEnabled`
  received expired : Event

-- `CentralManagerDidUpdateState`: the channel is closed once and stays closed.
unfoldable pub did_update_state : Bool → Power → Power
did_update_state on p = record p { is_on = on; powered = if on then true else p.powered }

-- A call of `ensureEnabled`: the manager, the time at which it gives up, and whether it waits.
pub record Enabling : Type 0 where
  pub power : Power
  pub due : ℕ
  pub phase : Phase (Unit {0})

abbrev ten_seconds : ℕ
ten_seconds = 10_000_000_000

abbrev with_power : (Power → Power) → Enabling → Enabling
with_power f a = record a { power = f a.power }

abbrev ended : Bool → Result (Unit {0}) → Enabling → Enabling
ended b r a = if b then record a { phase = returned r } else a

unfoldable pub turn : Phase (Unit {0}) → Event → Enabling → Enabling
unfolding did_update_state
turn p (elapse n) a = with_power (λ q. record q { now = q.now + n }) a
turn p (switched on) a = with_power (did_update_state on) a
turn selecting received a = ended a.power.powered (ok tt) a
turn selecting expired a =
    ended (leb a.due a.power.now) (err (message "timeout enabling CentralManager")) a
turn _ e a = a

unfoldable pub run : List Event → Enabling → Enabling
unfolding turn
run [] a = a
run (e ∷ es) a = run es (turn a.phase e a)

-- `ensureEnabled`
unfoldable pub ensure_enabled : List Event → Power → Enabling
unfolding run
ensure_enabled es p = run es (record {
  power = p;
  due = p.now + ten_seconds;
  phase = if p.is_on then returned (ok tt) else selecting;
})

-- A turn does not matter to a call that has returned.
turn-returned_phase :
    (r : Result (Unit {0})) (e : Event) (a : Enabling)
    → a.phase ≡ returned r
    → (turn (returned r) e a).phase ≡ returned r
unfolding turn
turn-returned_phase r (elapse n) a q = q
turn-returned_phase r (switched on) a q = q
turn-returned_phase r received a q = q
turn-returned_phase r expired a q = q

run-returned_phase :
    (es : List Event) (a : Enabling) (r : Result (Unit {0}))
    → a.phase ≡ returned r
    → (run es a).phase ≡ returned r
unfolding run
run-returned_phase [] a r q = q
run-returned_phase (e ∷ es) a r q =
    subst (λ p. (run es (turn p e a)).phase ≡ returned r) (sym q)
      (run-returned_phase es (turn (returned r) e a) r (turn-returned_phase r e a q))

-- When the manager was switched on and then off again, `ensureEnabled` succeeds at once if its channel
-- is looked at first: the manager is still off.
pub ensure_enabled-off :
    (es : List Event) (p : Power)
    → ((ensure_enabled (received ∷ es) (did_update_state false (did_update_state true p))).phase
        ≡ returned (ok tt))
      × ((did_update_state false (did_update_state true p)).is_on ≡ false)
unfolding ensure_enabled run turn did_update_state
ensure_enabled-off es p = (run-returned_phase es _ (ok tt) refl, refl)
