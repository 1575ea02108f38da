-- ===== src/Desk/Listeners.antt =====
-- The listeners of desk/desk.go and desk/stats.go: registration and cancel functions.
use yaasa_go.Prelude.{
  ℕ, suc, ◌+◌, ◌-◌, ◌≡◌, true, refl, sym, ap, ◌∙◌, List, [], ◌∷◌, ◌++◌, arith, ltb, length, drop,
  take-append, length-append, append_assoc, append-nil,
}
use yaasa_go.Desk.{Desk, add_height_listener, cancel_height_listener, remove_at}

drop-append_cons : (ls ms : List ℕ) (cb : ℕ) → drop (suc (length ls)) (ls ++ cb ∷ ms) ≡ ms
drop-append_cons [] ms cb = refl
drop-append_cons (l ∷ ls) ms cb = drop-append_cons ls ms cb

pub remove_at-append : (ls ms : List ℕ) (cb : ℕ) → remove_at (length ls) (ls ++ cb ∷ ms) ≡ ls ++ ms
remove_at-append ls ms cb =
    let next : length ls + 1 ≡ suc (length ls) = omega arith in
    let inside : ltb (length ls) (length (ls ++ cb ∷ ms)) ≡ true =
      ground (arith, length-append ls (cb ∷ ms)) in
    rw (inside, next, take-append ls (cb ∷ ms), drop-append_cons ls ms cb)

-- An index behind the end removes nothing.
remove_at-length : (ls : List ℕ) → remove_at (length ls) ls ≡ ls
remove_at-length ls = ground arith

-- The index that a new listener gets.
pub new_index : (ls : List ℕ) (cb : ℕ) → length (ls ++ cb ∷ []) - 1 ≡ length ls
new_index ls cb = omega (arith, length-append ls (cb ∷ []))

module _ {F : Type 0} where
  -- While no listener registered before it is cancelled, the cancel function of a height listener
  -- removes just that listener, whatever was registered after it.
  pub cancel_height_listener-add :
      (cb : ℕ) (later : List ℕ) (d : Desk F)
      → let (idx, d') = add_height_listener cb d in
        cancel_height_listener idx (record d' { listeners = d'.listeners ++ later })
        ≡ record d { listeners = d.listeners ++ later }
  unfolding add_height_listener cancel_height_listener
  cancel_height_listener-add cb later d =
      ap (λ ls. record d { listeners = ls })
        (rw (new_index d.listeners cb, append_assoc d.listeners (cb ∷ []) later)
          (remove_at-append d.listeners later cb))

  -- Of two listeners that are cancelled in the order of their registration, the second stays
  -- registered; with a third one behind them, that one is removed in its place.
  pub cancel_height_listener_in_order :
      (a b c : ℕ) (d : Desk F)
      → let (i, d₁) = add_height_listener a d in
        let (j, d₂) = add_height_listener b d₁ in
        let (k, d₃) = add_height_listener c d₂ in
        ((cancel_height_listener j (cancel_height_listener i d₂)).listeners ≡ d.listeners ++ b ∷ [])
        × ((cancel_height_listener j (cancel_height_listener i d₃)).listeners
            ≡ d.listeners ++ b ∷ [])
  unfolding add_height_listener cancel_height_listener
  cancel_height_listener_in_order a b c d =
      let ls = d.listeners in
      let i = length (ls ++ a ∷ []) - 1 in
      let j : length ((ls ++ a ∷ []) ++ b ∷ []) - 1 ≡ length (ls ++ b ∷ []) = omega (
        arith,
        length-append (ls ++ a ∷ []) (b ∷ []),
        length-append ls (a ∷ []),
        length-append ls (b ∷ []),
      ) in
      let first : (ms : List ℕ) → remove_at i (ls ++ a ∷ ms) ≡ ls ++ ms =
        λ ms. rw (new_index ls a) (remove_at-append ls ms a) in
      (
        rw j (
            ap (remove_at (length (ls ++ b ∷ [])))
              (ap (remove_at i) (append_assoc ls (a ∷ []) (b ∷ [])) ∙ first (b ∷ []))
            ∙ remove_at-length (ls ++ b ∷ [])),
        rw j (
            ap (remove_at (length (ls ++ b ∷ []))) (
              ap (remove_at i) (
                append_assoc (ls ++ a ∷ []) (b ∷ []) (c ∷ [])
                ∙ append_assoc ls (a ∷ []) (b ∷ c ∷ []))
              ∙ first (b ∷ c ∷ [])
              ∙ sym (append_assoc ls (b ∷ []) (c ∷ [])))
            ∙ remove_at-append (ls ++ b ∷ []) [] c
            ∙ append-nil (ls ++ b ∷ [])),
      )
