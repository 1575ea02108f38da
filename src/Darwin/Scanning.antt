-- ===== src/Darwin/Scanning.antt =====
-- desk/adapter_darwin.go: the life cycle of a scan. A callback is a number, a service the number of
-- its UUID.
use yaasa_go.Prelude.{
  ℕ, List, [], ◌∷◌, ◌++◌, map, Option, none, some, Bool, true, false, ◌||◌, ◌==◌, if◌then◌else◌,
  ◌≡◌, refl, ap, String,
}
use yaasa_go.Prelude.Int.{ℤ}
use yaasa_go.Result.{Result, ok, err, message, wrapped}

-- `scanCB` and `scanFilter` of the manager.
pub record Scans : Type 0 where
  pub callback : Option ℕ
  pub filter : Option ℕ

-- 0xFE60, as `cbServiceDesk`
abbrev pub desk_service : ℕ
desk_service = 0xFE60

-- A peripheral that was discovered: identifier, local name, signal strength, advertised services.
pub record Discovery : Type 0 where
  pub addr : String
  pub name : String
  pub rssi : ℤ
  pub services : List ℕ

-- What reaches a callback.
pub record Sighting : Type 0 where
  pub addr : String
  pub name : String
  pub rssi : ℤ

abbrev pub sighting : Discovery → Sighting
sighting d = record { addr = d.addr; name = d.name; rssi = d.rssi }

-- The search of `DidDiscoverPeripheral` through the advertised services.
unfoldable pub advertises : ℕ → List ℕ → Bool
advertises u [] = false
advertises u (v ∷ vs) = v == u || advertises u vs

abbrev passes : Option ℕ → List ℕ → Bool
passes none vs = true
passes (some u) vs = advertises u vs

abbrev call_if : Bool → ℕ → Sighting → List (ℕ × Sighting)
call_if b cb x = if b then (cb, x) ∷ [] else []

abbrev only : {A : Type 0} → Bool → A → List A
only b x = if b then x ∷ [] else []

abbrev call_of : Option ℕ → Option ℕ → Discovery → List (ℕ × Sighting)
call_of none filter d = []
call_of (some cb) filter d = call_if (passes filter d.services) cb (sighting d)

-- `DidDiscoverPeripheral`: the callback that runs, if one does.
unfoldable pub did_discover : Discovery → Scans → List (ℕ × Sighting)
unfolding advertises
did_discover d s = call_of s.callback s.filter d

abbrev begun : Option ℕ → ℕ → Scans → Result (Unit {0}) × Scans
begun (some other) cb s = (err (message "scan already in progress"), s)
begun none cb s = (ok tt, record { callback = some cb; filter = some desk_service })

abbrev enabled_then : Result (Unit {0}) → ℕ → Scans → Result (Unit {0}) × Scans
enabled_then (err e) cb s = (err (wrapped "enable BLE adapter" e), s)
enabled_then (ok _) cb s = begun s.callback cb s

-- `Scan` up to its sleep, with what `ensureEnabled` returns.
unfoldable pub begin_scan : Result (Unit {0}) → ℕ → Scans → Result (Unit {0}) × Scans
begin_scan enabled cb s = enabled_then enabled cb s

-- The deferred function of `Scan`.
unfoldable pub end_scan : Scans → Scans
end_scan s = record { callback = none; filter = none }

-- What can happen while a scan sleeps: a discovery, or another call of `Scan`.
pub data Happening : Type 0 where
  discovered : Discovery → Happening
  scans_too : Result (Unit {0}) → ℕ → Happening

abbrev pub happens : Happening → Scans → List (ℕ × Sighting) × Scans
happens (discovered d) s = (did_discover d s, s)
happens (scans_too enabled cb) s = ([], (begin_scan enabled cb s).1)

unfoldable pub sleeps : List Happening → Scans → List (ℕ × Sighting) × Scans
unfolding did_discover begin_scan
sleeps [] s = ([], s)
sleeps (h ∷ hs) s =
    let (calls, s') = happens h s in let (later, s'') = sleeps hs s' in (calls ++ later, s'')

abbrev after_begin :
    List Happening → Result (Unit {0}) × Scans → Result (Unit {0}) × (List (ℕ × Sighting) × Scans)
after_begin hs (err e, s) = (err e, ([], s))
after_begin hs (ok _, s) = let (calls, s') = sleeps hs s in (ok tt, (calls, end_scan s'))

-- `Scan` as a whole.
unfoldable pub scan :
    Result (Unit {0})
    → ℕ
    → List Happening
    → Scans
    → Result (Unit {0}) × (List (ℕ × Sighting) × Scans)
unfolding begin_scan sleeps end_scan
scan enabled cb hs s = after_begin hs (begin_scan enabled cb s)

-- The desks among what happens.
abbrev pub desks : List Happening → List Sighting
desks [] = []
desks (discovered d ∷ hs) = only (advertises desk_service d.services) (sighting d) ++ desks hs
desks (scans_too enabled cb ∷ hs) = desks hs

abbrev scanning : ℕ → Scans
scanning cb = record { callback = some cb; filter = some desk_service }

refused :
    (enabled : Result (Unit {0})) (cb other : ℕ)
    → (begin_scan enabled other (scanning cb)).1 ≡ scanning cb
unfolding begin_scan
refused (ok _) cb other = refl
refused (err e) cb other = refl

one_call :
    (b : Bool) (cb : ℕ) (x : Sighting) (rest : List Sighting)
    → call_if b cb x ++ map (λ y. (cb, y)) rest ≡ map (λ y. (cb, y)) (only b x ++ rest)
one_call true cb x rest = refl
one_call false cb x rest = refl

sleeps_lem :
    (cb : ℕ) (hs : List Happening)
    → sleeps hs (scanning cb) ≡ (map (λ x. (cb, x)) (desks hs), scanning cb)
unfolding sleeps
sleeps_lem cb [] = refl
sleeps_lem cb (discovered d ∷ hs) = rw (sleeps_lem cb hs) (
    ap (λ l. (l, scanning cb))
      (one_call (advertises desk_service d.services) cb (sighting d) (desks hs)))
sleeps_lem cb (scans_too enabled other ∷ hs) = rw (refused enabled cb other) (sleeps_lem cb hs)

-- A scan on an enabled manager without another scan: its callback gets each discovered desk once, in
-- order, and nothing else, also when other scans are tried in the meantime; afterwards no callback is
-- set.
pub scan-desks :
    (cb : ℕ) (hs : List Happening) (s : Scans)
    → s.callback ≡ none
    → scan (ok tt) cb hs s
      ≡ (ok tt, (map (λ x. (cb, x)) (desks hs), record { callback = none; filter = none }))
unfolding scan
scan-desks cb hs s e = rw (e, sleeps_lem cb hs) refl
