-- ===== src/Fetch/Answers.antt =====
-- CurrentHeight of desk/monitor.go and FetchSitStandTime of desk/stats.go: where their answers come
-- from.
use yaasa_go.Prelude.{ℕ, List, some, Bool, true, false, ◌≡◌, refl, ◌⊎◌, inl, inr}
use yaasa_go.Prelude.Int.{ℤ}
use yaasa_go.Result.{ok}
use yaasa_go.Float.{FloatOps}
use yaasa_go.Packet.{decode_responses}
use yaasa_go.Stats.{SitStandTime}
use yaasa_go.Desk.{Desk}
use yaasa_go.Desk.Notify.{heights_of, stats_of, handle_notification-Handled}
use yaasa_go.Schedule.{Event, own-fan_out, Among}
use yaasa_go.Fetch.{
  start, run, height_query, stats_query, current_height, cached, fetch_sit_stand_time,
}
use yaasa_go.Fetch.Hearing.{carried, returned_of-returned, Hears, start-carried}

module _ {F : Type 0} ⦃o : FloatOps F⦄ where
  height_query-hears : Hears {F = F} height_query heights_of
  height_query-hears buf d me x h =
      own-fan_out (λ y. y ≡ x) me d.listeners (heights_of (decode_responses buf))
        (rw (handle_notification-Handled buf d).height_called at h)

  stats_query-hears : Hears {F = F} stats_query stats_of
  stats_query-hears buf d me x h =
      own-fan_out (λ y. y ≡ x) me d.stats_listeners (stats_of (decode_responses buf))
        (rw (handle_notification-Handled buf d).stats_called at h)

  -- Under every schedule, the counters that `FetchSitStandTime` returns came in a notification
  -- that was delivered during the call; a cached value is never returned.
  pub fetch_sit_stand_time-carried :
      (timeout : ℤ) (me : ℕ) (es : List Event) (d : Desk F) (s : SitStandTime)
      → (fetch_sit_stand_time timeout me es d).0 ≡ some (ok s)
      → Among (λ y. y ≡ s) (carried stats_of es)
  unfolding fetch_sit_stand_time
  fetch_sit_stand_time-carried timeout me es d s e =
      start-carried stats_query stats_of timeout me es d s stats_query-hears
        (returned_of-returned (run stats_query timeout es (start stats_query me d)).phase (ok s) e)

  cached-carried :
      (b : Bool) (x : F) (timeout : ℤ) (me : ℕ) (es : List Event) (d : Desk F) (h : F)
      → (cached (x, b) timeout me es d).0 ≡ some (ok h)
      → ((b ≡ true) × (x ≡ h)) ⊎ ((b ≡ false) × Among (λ y. y ≡ h) (carried heights_of es))
  cached-carried true x timeout me es d h e = inl (refl, cc)
  cached-carried false x timeout me es d h e = inr (
    refl,
    start-carried height_query heights_of timeout me es d h height_query-hears (
        returned_of-returned (run height_query timeout es (start height_query me d)).phase (ok h)
          e),
  )

  -- Under every schedule, the height that `CurrentHeight` returns is the last one that the desk
  -- reported before the call, if there is one, and else one that it reports during the call.
  pub current_height-carried :
      (timeout : ℤ) (me : ℕ) (es : List Event) (d : Desk F) (h : F)
      → (current_height timeout me es d).0 ≡ some (ok h)
      → ((d.has_height ≡ true) × (d.last_height ≡ h))
        ⊎ ((d.has_height ≡ false) × Among (λ y. y ≡ h) (carried heights_of es))
  unfolding current_height
  current_height-carried timeout me es d h e =
      cached-carried d.has_height d.last_height timeout me es d h e
