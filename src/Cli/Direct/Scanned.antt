-- ===== src/Cli/Direct/Scanned.antt =====
-- cmd/yaasa/main.go: the desks that "scan" prints.
use yaasa_go.Prelude.{
  ℕ, ◌+◌, List, [], ◌∷◌, true, false, ◌==◌, ==_iff, Text, if◌then◌else◌, map, ◌≡◌, refl, sym, ◌∙◌,
  subst, arith, Bool-cases, inl, inr,
}
use yaasa_go.Result.{ok}
use yaasa_go.Cli.{World, Found}
use yaasa_go.Cli.Direct.{same, member, print_new, scan_cmd}

same-≡ : (a b : Text) → same a b ≡ true → a ≡ b
same-≡ [] [] h = refl
same-≡ [] (c ∷ cs) h = cc
same-≡ (b ∷ bs) [] h = cc
same-≡ (b ∷ bs) (c ∷ cs) h = elim (Bool-cases (b == c)) [
  | inl e ↦ let q = (==_iff b c).0 e in let r = same-≡ bs cs (rw e at h) in cc
  | inr e ↦ let k = rw e at h in cc
]

-- The addresses of desks, and how often an address is among them.
abbrev pub addresses : List Found → List Text
addresses fs = map (λ f. f.addr) fs

abbrev pub count : Text → List Found → ℕ
count a [] = 0
count a (f ∷ fs) = (if same a f.addr then 1 else 0) + count a fs

add_zero : (n : ℕ) → 0 + n ≡ n
add_zero n = omega arith

print_new-count :
    (a : Text) (seen : List Text) (fs : List Found)
    → count a (print_new seen fs)
      ≡ (if member a seen then 0 else if member a (addresses fs) then 1 else 0)
unfolding print_new member
print_new-count a seen [] = ground arith
print_new-count a seen (f ∷ fs) = elim (Bool-cases (member f.addr seen)) [
  | inl m ↦ elim (Bool-cases (same a f.addr)) [
    | inl e ↦
        let q : member a seen ≡ true =
          subst (λ x. member x seen ≡ true) (sym (same-≡ a f.addr e)) m in
        rw m (print_new-count a seen fs ∙ rw q refl)
    | inr e ↦ rw (m, e) (print_new-count a seen fs)
  ]
  | inr m ↦ elim (Bool-cases (same a f.addr)) [
    | inl e ↦
        let q : member a seen ≡ false =
          subst (λ x. member x seen ≡ false) (sym (same-≡ a f.addr e)) m in
        let r = print_new-count a (f.addr ∷ seen) fs in
        let n : count a (print_new (f.addr ∷ seen) fs) ≡ 0 = r ∙ rw e refl in
        rw (m, e, q) (omega arith)
    | inr e ↦
        let r : count a (print_new (f.addr ∷ seen) fs)
            ≡ (if member a seen then 0 else if member a (addresses fs) then 1 else 0) =
          print_new-count a (f.addr ∷ seen) fs ∙ rw e refl in
        rw (m, e) (add_zero (count a (print_new (f.addr ∷ seen) fs)) ∙ r)
  ]
]

-- "scan" prints each address that the scan reports once, and no other address.
pub scan_cmd-count :
    (a : Text) (fs : List Found) (w : World)
    → w.scan ≡ ok fs
    → count a (scan_cmd w).1 ≡ (if member a (addresses fs) then 1 else 0)
unfolding scan_cmd member
scan_cmd-count a fs w h = rw h (print_new-count a [] fs)
