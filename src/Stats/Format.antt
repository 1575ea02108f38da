-- ===== src/Stats/Format.antt =====
-- desk/stats.go: durations against the counters and their display.
use yaasa_go.Prelude.{◌+◌, ◌*◌, ◌<◌, ◌^◌, ◌≡◌, refl, arith, [], ◌∷◌, Bytes, some}
use yaasa_go.Stats.{
  SitStandTime, stand_duration, sit_duration, whole_seconds, format_hms, decode_sit_stand_time,
}

-- The counters as the desk means them: minutes and seconds below 60, each field a byte.
pub record IsClock (t : SitStandTime) : Type 0 where
  pub stand_h_byte : t.stand_h < 256
  pub stand_m_lt : t.stand_m < 60
  pub stand_s_lt : t.stand_s < 60
  pub sit_h_byte : t.sit_h < 256
  pub sit_m_lt : t.sit_m < 60
  pub sit_s_lt : t.sit_s < 60

-- The display of both durations shows the fields of the counters.
pub format_hms-duration :
    (t : SitStandTime)
    → IsClock t
    → (format_hms (stand_duration t)
        ≡ record { hours = t.stand_h; minutes = t.stand_m; seconds = t.stand_s })
      × (format_hms (sit_duration t)
          ≡ record { hours = t.sit_h; minutes = t.sit_m; seconds = t.sit_s })
unfolding format_hms stand_duration sit_duration
format_hms-duration t v = (ground arith, ground arith)

-- The payload of a 0xA2 notification for some counters.
abbrev pub payload : SitStandTime → Bytes
payload t = t.stand_h ∷ t.stand_m ∷ t.stand_s ∷ t.sit_h ∷ t.sit_m ∷ t.sit_s ∷ []

pub decode_sit_stand_time-payload :
    (t : SitStandTime) → decode_sit_stand_time 0xA2 (payload t) ≡ some t
unfolding decode_sit_stand_time
decode_sit_stand_time-payload t = refl

-- For any six bytes the durations stay within `int64`, and their whole seconds are the counters'.
pub whole_seconds-duration :
    (t : SitStandTime)
    → t.stand_h < 256
    → t.stand_m < 256
    → t.stand_s < 256
    → (stand_duration t < 2 ^ 63)
      × (whole_seconds (stand_duration t) ≡ t.stand_h * 3600 + t.stand_m * 60 + t.stand_s)
unfolding stand_duration whole_seconds
whole_seconds-duration t h m s = omega arith
