-- ===== src/Stats.antt =====
-- desk/stats.go, the data: the sit/stand counters, their decoding, durations and format. A
-- `time.Duration` is its number of nanoseconds; those of this file are not negative.
pub mod Format
use yaasa_go.Prelude.{
  ℕ, zero, suc, ◌+◌, ◌*◌, ◌/◌, ◌%◌, not, ◌||◌, Option, none, some, ltb, ◌==◌, if◌then◌else◌, Bytes,
  length, get_or,
}

-- Each field is a `uint8`.
pub record SitStandTime : Type 0 where
  pub stand_h : ℕ
  pub stand_m : ℕ
  pub stand_s : ℕ
  pub sit_h : ℕ
  pub sit_m : ℕ
  pub sit_s : ℕ

abbrev pub no_time : SitStandTime
no_time = record { stand_h = 0; stand_m = 0; stand_s = 0; sit_h = 0; sit_m = 0; sit_s = 0 }

abbrev pub second : ℕ
second = 1_000_000_000

abbrev pub minute : ℕ
minute = 60 * second

abbrev pub hour : ℕ
hour = 60 * minute

unfoldable pub stand_duration : SitStandTime → ℕ
stand_duration t = t.stand_h * hour + t.stand_m * minute + t.stand_s * second

unfoldable pub sit_duration : SitStandTime → ℕ
sit_duration t = t.sit_h * hour + t.sit_m * minute + t.sit_s * second

-- `int64(d.Seconds())`
unfoldable pub whole_seconds : ℕ → ℕ
whole_seconds d = d / second

-- The three numbers of the text "%dh %02dm %02ds".
pub record Hms : Type 0 where
  pub hours : ℕ
  pub minutes : ℕ
  pub seconds : ℕ

unfoldable pub format_hms : ℕ → Hms
format_hms d = record { hours = d / hour; minutes = d / minute % 60; seconds = d / second % 60 }

unfoldable pub decode_sit_stand_time : ℕ → Bytes → Option SitStandTime
decode_sit_stand_time opcode payload =
    if not (opcode == 0xA2) || ltb (length payload) 6
    then none
    else some (record {
      stand_h = get_or payload 0 0;
      stand_m = get_or payload 1 0;
      stand_s = get_or payload 2 0;
      sit_h = get_or payload 3 0;
      sit_m = get_or payload 4 0;
      sit_s = get_or payload 5 0;
    })
