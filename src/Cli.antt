-- ===== src/Cli.antt =====
-- cmd/yaasa/main.go, the helpers: which desk a command is for, the durations of moves, and the
-- daemon that serves it. A text is the list of its code points.
pub mod Address
pub mod Daemon
pub mod Session
pub mod Verbs
pub mod Direct
pub mod Verbose
pub mod MoveFor
pub mod Detached
pub mod Flags
use yaasa_go.Prelude.{
  ℕ, suc, ◌+◌, ◌*◌, ◌/◌, ◌%◌, Bool, true, false, not, ◌&&◌, ◌||◌, List, [], ◌∷◌, ◌++◌, Option, none,
  some, ◌==◌, if◌then◌else◌, Text, length, ltb, leb,
}
use yaasa_go.Prelude.Int.{ℤ, pos, negsuc, scale64}
use yaasa_go.Result.{Result, ok, err, Error, message, foreign}
use yaasa_go.Float.{FloatOps}
use yaasa_go.Stats.{Hms}

-- The white space of Unicode, which `strings.TrimSpace` cuts off: that of Latin-1, U+1680, U+2000 to
-- U+200A, U+2028, U+2029, U+202F, U+205F and U+3000.
unfoldable pub is_space : ℕ → Bool
is_space b =
    (leb 9 b && leb b 13)
    || b == 32
    || b == 0x85
    || b == 0xA0
    || b == 0x1680
    || (leb 0x2000 b && leb b 0x200A)
    || b == 0x2028
    || b == 0x2029
    || b == 0x202F
    || b == 0x205F
    || b == 0x3000

unfoldable pub trim_left : Text → Text
trim_left [] = []
trim_left (b ∷ bs) = if is_space b then trim_left bs else b ∷ bs

abbrev pub cons_unless_blank : ℕ → Text → Text
cons_unless_blank b [] = if is_space b then [] else b ∷ []
cons_unless_blank b (c ∷ cs) = b ∷ c ∷ cs

unfoldable pub trim_right : Text → Text
trim_right [] = []
trim_right (b ∷ bs) = cons_unless_blank b (trim_right bs)

unfoldable pub trim_space : Text → Text
unfolding trim_left trim_right
trim_space s = trim_right (trim_left s)

abbrev pub is_empty : Text → Bool
is_empty [] = true
is_empty (b ∷ bs) = false

-- `strings.Count` of one byte
unfoldable pub count_byte : ℕ → Text → ℕ
count_byte b [] = 0
count_byte b (c ∷ cs) = (if c == b then 1 else 0) + count_byte b cs

abbrev pub colon : ℕ
colon = 58

abbrev pub hyphen : ℕ
hyphen = 45

abbrev pub slash : ℕ
slash = 47

unfoldable pub looks_like_address : Text → Bool
unfolding count_byte
looks_like_address s = count_byte colon s == 5 || count_byte hyphen s == 4

-- A desk that the scan reports: address and name.
pub record Found : Type 0 where
  pub addr : Text
  pub name : Text

-- The file of the default address, if it can be read, the error of writing it, and what a scan
-- reports; `contains_fold` is `strings.Contains` on both texts in lower case.
pub record World : Type 0 where
  pub default_file : Option Text
  pub write_fate : Option ℕ
  pub scan : Result (List Found)
  pub contains_fold : Text → Text → Bool

-- The callback of `scanFirstDesk`.
abbrev keep_first : Text → Found → Text
keep_first first f = if is_empty first then f.addr else first

unfoldable pub first_of : Text → List Found → Text
first_of first [] = first
first_of first (f ∷ fs) = first_of (keep_first first f) fs

-- The callback of `scanByName`.
abbrev pub keep_match : (Text → Bool) → Text → Found → Text
keep_match matches found f = if is_empty found && matches f.name then f.addr else found

unfoldable pub match_of : (Text → Bool) → Text → List Found → Text
match_of matches found [] = found
match_of matches found (f ∷ fs) = match_of matches (keep_match matches found f) fs

-- `if found == "" { return "", fmt.Errorf(...) }; return found, nil`
abbrev pub unless_empty : Error → Text → Result Text
unless_empty e s = if is_empty s then err e else ok s

unfoldable pub scan_first_desk : World → Result Text
unfolding first_of
scan_first_desk w = elim w.scan [
  | err e ↦ err e
  | ok fs ↦ unless_empty (message "no FE60 desks found") (first_of [] fs)
]

unfoldable pub scan_by_name : Text → World → Result Text
unfolding match_of
scan_by_name pattern w = elim w.scan [
  | err e ↦ err e
  | ok fs ↦
      unless_empty (message "no FE60 desk found with name matching")
        (match_of (w.contains_fold pattern) [] fs)
]

abbrev pub trimmed : Option Text → Text
trimmed none = []
trimmed (some b) = trim_space b

unfoldable pub read_default_address : World → Option Text
unfolding trim_space
read_default_address w =
    if is_empty (trimmed w.default_file) then none else some (trimmed w.default_file)

abbrev pub written : Option ℕ → Text → World → Result (Unit {0}) × World
written none s w = (ok tt, record w { default_file = some s })
written (some n) s w = (err (foreign n), w)

unfoldable pub save_default_address : Text → World → Result (Unit {0}) × World
unfolding trim_space
save_default_address addr w =
    if is_empty (trim_space addr)
    then (err (message "default address must not be empty"), w)
    else written w.write_fate (trim_space addr ++ 10 ∷ []) w

abbrev named : Text → World → Result Text
named arg w =
    if is_empty arg
    then err (message "address must not be empty")
    else if looks_like_address arg
    then ok arg
    else scan_by_name arg w

abbrev or_scan : Option Text → World → Result Text
or_scan (some addr) w = ok addr
or_scan none w = scan_first_desk w

unfoldable pub resolve_address : List Text → World → Result Text
unfolding trim_space looks_like_address scan_by_name scan_first_desk read_default_address
resolve_address (arg ∷ args) w = named (trim_space arg) w
resolve_address [] w = or_scan (read_default_address w) w

-- `safeAddress` of internal/ipc/unix.go: colons and slashes become hyphens.
unfoldable pub safe_address : Text → Text
safe_address [] = []
safe_address (b ∷ bs) = (if b == colon || b == slash then hyphen else b) ∷ safe_address bs

unfoldable pub split_optional_address_value : List Text → Option (List Text × Text)
split_optional_address_value [] = none
split_optional_address_value (v ∷ []) = some ([], v)
split_optional_address_value (a ∷ v ∷ rest) = some (a ∷ [], v)

-- `formatSecs` of a number that is not negative.
unfoldable pub format_secs : ℕ → Hms
format_secs secs = record { hours = secs / 3600; minutes = secs % 3600 / 60; seconds = secs % 60 }

module _ {F : Type 0} ⦃o : FloatOps F⦄ where
  abbrev speed_of : F → F
  speed_of speed = if o.le speed (o.of_nat 0) then o.of_nat 50 else speed

  unfoldable pub move_duration : ℤ → F → F → ℤ
  move_duration dur mm speed =
      if o.le mm (o.of_nat 0)
      then dur
      else scale64 1_000_000 (pos (o.to_nat (o.mul (o.div mm (speed_of speed)) (o.of_nat 1000))))
