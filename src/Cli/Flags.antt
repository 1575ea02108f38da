-- ===== src/Cli/Flags.antt =====
-- cmd/yaasa/main.go: the flags of the commands, as they are where the command line does not set them.
use yaasa_go.Prelude.{List, false, ◌≡◌, refl, arith, ap}
use yaasa_go.Prelude.Int.{ℤ, pos, scale64}
use yaasa_go.Float.{FloatOps, IsFloat64}
use yaasa_go.Schedule.{Event}
use yaasa_go.Ipc.Controller.{Controller}
use yaasa_go.Ipc.Server.{duration_or, tolerance_of}
use yaasa_go.Cli.Session.{Host}
use yaasa_go.Cli.Verbs.{Motion, Travel, Storing, motion_ms, milliseconds}
use yaasa_go.Cli.Verbs.Served.{motion_ms-dur}

-- `--connect-timeout`, `--keep-alive`, `--scan-timeout` and `--poll-interval`, in nanoseconds
abbrev pub connect_timeout : ℤ
connect_timeout = pos 15_000_000_000

abbrev pub keep_alive_interval : ℤ
keep_alive_interval = pos 5_000_000_000

abbrev pub scan_timeout : ℤ
scan_timeout = pos 10_000_000_000

abbrev pub poll_interval : ℤ
poll_interval = pos 1_000_000_000

module _ {F : Type 0} ⦃o : FloatOps F⦄ where
  -- `addMoveFlags`
  unfoldable pub add_move_flags : F → Motion F
  add_move_flags default_speed = record {
    dur = pos 500_000_000;
    distance = o.of_nat 0;
    speed = default_speed;
  }

  -- The literal 55.1 is the quotient.
  unfoldable pub up_flags : Motion F
  unfolding add_move_flags
  up_flags = add_move_flags (o.div (o.of_nat 551) (o.of_nat 10))

  unfoldable pub down_flags : Motion F
  unfolding add_move_flags
  down_flags = add_move_flags (o.of_nat 50)

  unfoldable pub move_flags : Travel F
  move_flags = record {
    move_timeout = pos 30_000_000_000;
    tolerance = o.of_nat 2;
    in_inches = false;
  }

unfoldable pub preset_flags : Storing
preset_flags = record { saves = false; move_timeout = pos 30_000_000_000 }

module _ {F S : Type 0} ⦃o : FloatOps F⦄ (laws : IsFloat64 o) (h : Host F) (c : Controller F S)
    (es : List Event) where
  motion-default :
      (speed : F)
      → duration_or 500_000_000 (motion_ms h (add_move_flags speed))
        ≡ duration_or 500_000_000 (pos 0)
  unfolding add_move_flags duration_or scale64
  motion-default speed =
      ap (duration_or 500_000_000)
        (motion_ms-dur h c es (add_move_flags speed) (laws.le_nat 0 0 (omega arith) (omega arith)))

  -- The commands and the daemon agree about what is usual: with the flags as they are, "up", "down",
  -- "move" and "preset" ask for the times and the tolerance that the daemon takes for a request
  -- that names none.
  pub flags-defaults :
      (duration_or 500_000_000 (motion_ms h up_flags) ≡ duration_or 500_000_000 (pos 0))
      × (duration_or 500_000_000 (motion_ms h down_flags) ≡ duration_or 500_000_000 (pos 0))
      × (duration_or 30_000_000_000 (milliseconds (Travel.move_timeout (move_flags {F = F})))
          ≡ duration_or 30_000_000_000 (pos 0))
      × (tolerance_of c es (Travel.tolerance (move_flags {F = F})) ≡ tolerance_of c es (o.of_nat 0))
      × (duration_or 30_000_000_000 (milliseconds preset_flags.move_timeout)
          ≡ duration_or 30_000_000_000 (pos 0))
  unfolding up_flags down_flags move_flags preset_flags duration_or tolerance_of scale64
  flags-defaults = (
    motion-default _,
    motion-default _,
    refl,
    rw (laws.le_nat 2 0 (omega arith) (omega arith), laws.le_nat 0 0 (omega arith) (omega arith))
        refl,
    refl,
  )
