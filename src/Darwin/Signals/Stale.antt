-- ===== src/Darwin/Signals/Stale.antt =====
-- desk/adapter_darwin.go: signals that nothing waited for.
use yaasa_go.Prelude.{List, ◌∷◌, none, some, true, ◌≡◌, refl, Bytes}
use yaasa_go.Result.{ok}
use yaasa_go.Darwin.Signals.{Channels, Event, received, did_update_value, read_response}

-- A notification that arrives while no read waits is taken for the answer to the next read: this
-- returns the value of that notification at once, whatever the desk answers to the read later.
pub read_response-stale :
    (v : Bytes) (es : List Event) (c : Channels)
    → c.have_resp ≡ true
    → c.read_ch ≡ none
    → (read_response (received ∷ es) (did_update_value true v none c)).0 ≡ some (ok v)
unfolding read_response did_update_value
read_response-stale v es c h e = rw (h, e) refl
