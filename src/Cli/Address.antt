-- ===== src/Cli/Address.antt =====
-- cmd/yaasa/main.go: the default desk, the search for one by name, and the times that are shown.
use yaasa_go.Prelude.{
  ℕ, suc, ◌*◌, ◌/◌, ◌%◌, Bool, true, false, ◌&&◌, List, [], ◌∷◌, ◌++◌, Option, none, some, ◌≡◌, ◌≢◌,
  refl, ap, sym, ◌∙◌, ◌⊎◌, inl, inr, arith, ◌==◌, if◌then◌else◌, Text, Bool-cases, All, length,
  ◌||◌,
}
use yaasa_go.Result.{ok-inj, ok, Error, message}
use yaasa_go.Stats.{format_hms, second}
use yaasa_go.Schedule.{Among}
use yaasa_go.Cli.{
  is_space, trim_left, trim_right, trim_space, cons_unless_blank, is_empty, Found, World, match_of,
  unless_empty, scan_by_name, read_default_address, save_default_address, written, safe_address,
  format_secs, colon, slash, hyphen,
}

-- The text is empty or starts with no space.
abbrev Solid : Text → Type 0
Solid [] = Unit
Solid (b ∷ bs) = is_space b ≡ false

trim_left-Solid : (s : Text) → Solid (trim_left s)
unfolding trim_left
trim_left-Solid [] = tt
trim_left-Solid (b ∷ bs) = elim (Bool-cases (is_space b)) [
  | inl e ↦ rw e (trim_left-Solid bs)
  | inr e ↦ rw e e
]

cons_unless_blank-Solid : (b : ℕ) (s : Text) → is_space b ≡ false → Solid (cons_unless_blank b s)
cons_unless_blank-Solid b [] h = rw h h
cons_unless_blank-Solid b (c ∷ cs) h = h

trim_right-Solid : (s : Text) → Solid s → Solid (trim_right s)
unfolding trim_right
trim_right-Solid [] h = tt
trim_right-Solid (b ∷ bs) h = cons_unless_blank-Solid b (trim_right bs) h

trim_left-append : (s t : Text) → Solid s → is_empty s ≡ false → trim_left (s ++ t) ≡ s ++ t
unfolding trim_left
trim_left-append [] t h e = cc
trim_left-append (b ∷ bs) t h e = rw h refl

trim_right-append_space :
    (s : Text) (b : ℕ) → is_space b ≡ true → trim_right (s ++ b ∷ []) ≡ trim_right s
unfolding trim_right
trim_right-append_space [] b h = rw h refl
trim_right-append_space (c ∷ cs) b h = ap (cons_unless_blank c) (trim_right-append_space cs b h)

cons_unless_blank-trimmed :
    (b : ℕ) (s : Text)
    → trim_right s ≡ s
    → trim_right (cons_unless_blank b s) ≡ cons_unless_blank b s
unfolding trim_right
cons_unless_blank-trimmed b [] h = elim (Bool-cases (is_space b)) [
  | inl e ↦ rw e refl
  | inr e ↦ rw (e, e) refl
]
cons_unless_blank-trimmed b (c ∷ cs) h = ap (cons_unless_blank b) h

trim_right-trim_right : (s : Text) → trim_right (trim_right s) ≡ trim_right s
unfolding trim_right
trim_right-trim_right [] = refl
trim_right-trim_right (b ∷ bs) =
    cons_unless_blank-trimmed b (trim_right bs) (trim_right-trim_right bs)

newline-is_space : is_space 10 ≡ true
unfolding is_space
newline-is_space = refl

trim_space-newline :
    (s : Text)
    → is_empty (trim_space s) ≡ false
    → trim_space (trim_space s ++ 10 ∷ []) ≡ trim_space s
unfolding trim_space
trim_space-newline s e =
    ap trim_right (
      trim_left-append (trim_space s) (10 ∷ []) (trim_right-Solid (trim_left s) (trim_left-Solid s))
        e)
    ∙ trim_right-append_space (trim_space s) 10 newline-is_space
    ∙ trim_right-trim_right (trim_left s)

written-file :
    (f : Option ℕ) (s : Text) (w : World)
    → (written f s w).0 ≡ ok tt
    → (written f s w).1.default_file ≡ some s
written-file none s w h = refl
written-file (some n) s w h = cc

-- An address that is saved as the default is the one that is read again, without the spaces around
-- it.
pub read_default_address-save :
    (addr : Text) (w : World)
    → (save_default_address addr w).0 ≡ ok tt
    → read_default_address (save_default_address addr w).1 ≡ some (trim_space addr)
unfolding read_default_address save_default_address
read_default_address-save addr w h = elim (Bool-cases (is_empty (trim_space addr))) [
  | inl e ↦ absurd (let k = rw e at h in cc)
  | inr e ↦
      rw
        (
          e,
          written-file w.write_fate (trim_space addr ++ 10 ∷ []) w (rw e at h),
          trim_space-newline addr e,
          e,
        )
        refl
]

hours_agree : (n : ℕ) → n * second / (60 * (60 * second)) ≡ n / 3600
hours_agree n = omega arith

minutes_agree : (n : ℕ) → n * second / (60 * second) % 60 ≡ n % 3600 / 60
minutes_agree n = omega arith

seconds_agree : (n : ℕ) → n * second / second % 60 ≡ n % 60
seconds_agree n = omega arith

-- `formatSecs` on the seconds of the daemon's answer shows what `formatHMS` shows of the duration.
pub format_secs-format_hms : (n : ℕ) → format_secs n ≡ format_hms (n * second)
unfolding format_secs format_hms
format_secs-format_hms n = rw (hours_agree n, minutes_agree n, seconds_agree n) refl

&&-right : (x y : Bool) → (x && y) ≡ true → y ≡ true
&&-right true y h = h
&&-right false y h = cc

match_of-Among :
    (matches : Text → Bool) (found a : Text) (fs : List Found)
    → match_of matches found fs ≡ a
    → is_empty a ≡ false
    → (found ≡ a) ⊎ Among (λ f. (f.addr ≡ a) × (matches f.name ≡ true)) fs
unfolding match_of
match_of-Among matches found a [] h e = inl h
match_of-Among matches found a (f ∷ fs) h e = elim (Bool-cases (is_empty found && matches f.name)) [
  | inl b ↦ elim (match_of-Among matches f.addr a fs (rw b at h) e) [
    | inl q ↦ inr (inl (q, &&-right (is_empty found) (matches f.name) b))
    | inr later ↦ inr (inr later)
  ]
  | inr b ↦ elim (match_of-Among matches found a fs (rw b at h) e) [
    | inl q ↦ inl q
    | inr later ↦ inr (inr later)
  ]
]

unless_empty-ok :
    (e : Error) (s a : Text) → unless_empty e s ≡ ok a → (s ≡ a) × (is_empty a ≡ false)
unless_empty-ok e [] a h = cc
unless_empty-ok e (b ∷ bs) a h = let q = ok-inj (b ∷ bs) a h in (q, sym (ap is_empty q))

-- The address that `scanByName` returns is not empty, and it is the address of a desk that the scan
-- reported and whose name contains the pattern.
pub scan_by_name-Among :
    (pattern a : Text) (fs : List Found) (w : World)
    → w.scan ≡ ok fs
    → scan_by_name pattern w ≡ ok a
    → (is_empty a ≡ false) × Among (λ f. (f.addr ≡ a) × (w.contains_fold pattern f.name ≡ true)) fs
unfolding scan_by_name
scan_by_name-Among pattern a fs w s h =
    let (q, e) =
      unless_empty-ok (message "no FE60 desk found with name matching")
        (match_of (w.contains_fold pattern) [] fs) a (rw s at h) in
    (
      e,
      elim (match_of-Among (w.contains_fold pattern) [] a fs q e) [
        | inl z ↦ absurd (let k = ap is_empty z in cc)
        | inr found ↦ found
      ],
    )

abbrev pub IsSafe : ℕ → Type 0
IsSafe c = (c ≢ colon) × (c ≢ slash)

IsSafe-byte : (b : ℕ) → IsSafe (if b == colon || b == slash then hyphen else b)
IsSafe-byte b = (ground arith, ground arith)

-- `safeAddress` keeps the length, and its result is a file name: it has no colon and no slash.
pub safe_address-lem :
    (s : Text) → (length (safe_address s) ≡ length s) × All IsSafe (safe_address s)
unfolding safe_address
safe_address-lem [] = (refl, tt)
safe_address-lem (b ∷ bs) = let (l, a) = safe_address-lem bs in (ap suc l, (IsSafe-byte b, a))
