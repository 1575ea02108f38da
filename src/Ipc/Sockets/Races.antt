-- ===== src/Ipc/Sockets/Races.antt =====
-- internal/ipc/unix.go: `Listen` of two processes at once, and the end of a refused daemon.
use yaasa_go.Prelude.{
  ℕ, none, some, [], ◌∷◌, ◌≡◌, ◌≢◌, refl, sym, ap, ◌∙◌, set, set-same, set-other, true, false, Bool,
  subst, if◌then◌else◌,
}
use yaasa_go.Ipc.Sockets.{
  idle, probed, cleared, listening, leaving, ended, Machine, probe, remove, bind, unlink, call,
  calls, is_answering, removed_by, bound_by, probed_by, unlinked_by, to, bound, answering_at,
  is_listening,
}

pub remove-step :
    (j : ℕ) (m : Machine)
    → m.stage j ≡ probed
    → call (remove j) m ≡ record { file = none; stage = set j cleared m.stage }
unfolding call
remove-step j m h = ap (λ s. removed_by s j m) h

bind-step :
    (j : ℕ) (m : Machine)
    → m.stage j ≡ cleared
    → m.file ≡ none
    → call (bind j) m ≡ record { file = some j; stage = set j listening m.stage }
unfolding call
bind-step j m h f = ap (λ s. bound_by s j m) h ∙ ap (λ o. bound o j m) f

-- The `os.Remove` and `net.Listen` of a process whose dial found nobody.
pub clear-bind :
    (j : ℕ) (m : Machine)
    → m.stage j ≡ probed
    → calls (remove j ∷ bind j ∷ []) m
      ≡ record { file = some j; stage = set j listening (set j cleared m.stage) }
unfolding calls
clear-bind j m h =
    ap (call (bind j)) (remove-step j m h)
    ∙ bind-step j (record { file = none; stage = set j cleared m.stage })
        (set-same j cleared m.stage) refl

-- The two processes listen, and the path names the second.
abbrev pub Split : ℕ → ℕ → Machine → Type 0
Split i j m = (m.stage i ≡ listening) × (m.stage j ≡ listening) × (m.file ≡ some j)

taken_over :
    (i j : ℕ) (m : Machine)
    → i ≢ j
    → m.stage i ≡ listening
    → m.stage j ≡ probed
    → Split i j (calls (remove j ∷ bind j ∷ []) m)
taken_over i j m n a b = subst (Split i j) (sym (clear-bind j m b)) (
  set-other j listening (set j cleared m.stage) i n ∙ set-other j cleared m.stage i n ∙ a,
  set-same j listening (set j cleared m.stage),
  refl,
)

-- Two daemons of one desk: when both processes have dialled before either has bound the path, both
-- come to listen if the one does the rest before the other, and only the other can be reached.
pub both_probed-Split :
    (i j : ℕ) (m : Machine)
    → i ≢ j
    → m.stage i ≡ probed
    → m.stage j ≡ probed
    → Split i j (calls (remove i ∷ bind i ∷ remove j ∷ bind j ∷ []) m)
unfolding calls
both_probed-Split i j m n a b =
    let first = clear-bind i m a in
    subst (λ v. Split i j (calls (remove j ∷ bind j ∷ []) v)) (sym first)
      (taken_over i j (record { file = some i; stage = set i listening (set i cleared m.stage) }) n
        (set-same i listening (set i cleared m.stage))
        (set-other i listening (set i cleared m.stage) j (λ q. n (sym q))
          ∙ set-other i cleared m.stage j (λ q. n (sym q))
          ∙ b))

pub probe-step :
    (j : ℕ) (b : Bool) (m : Machine)
    → m.stage j ≡ idle
    → is_answering m ≡ b
    → call (probe j) m ≡ to j (if b then leaving else probed) m
unfolding call is_answering
probe-step j true m h b =
    ap (λ s. probed_by s j m) h ∙ ap (λ v. if v then to j leaving m else to j probed m) b
probe-step j false m h b =
    ap (λ s. probed_by s j m) h ∙ ap (λ v. if v then to j leaving m else to j probed m) b

pub unlink-step :
    (j : ℕ) (m : Machine)
    → m.stage j ≡ leaving
    → call (unlink j) m ≡ record { file = none; stage = set j ended m.stage }
unfolding call
unlink-step j m h = ap (λ s. unlinked_by s j m) h

-- A refused daemon opens the way for a second one: while `i` listens and can be reached, the start
-- of `j` is refused, but removes the path at its end, so that a later start, of `k`, succeeds beside
-- `i`, which can no longer be reached.
pub refused-Split :
    (i j k : ℕ) (m : Machine)
    → i ≢ j
    → i ≢ k
    → j ≢ k
    → m.file ≡ some i
    → m.stage i ≡ listening
    → m.stage j ≡ idle
    → m.stage k ≡ idle
    → Split i k (calls (probe j ∷ unlink j ∷ probe k ∷ remove k ∷ bind k ∷ []) m)
unfolding calls is_answering
refused-Split i j k m n p q f a b c =
    let answered : is_answering m ≡ true = ap (λ o. answering_at o m.stage) f ∙ ap is_listening a in
    let m1 : Machine = to j leaving m in
    let m2 : Machine = record { file = none; stage = set j ended m1.stage } in
    let refused : call (unlink j) (call (probe j) m) ≡ m2 =
      ap (call (unlink j)) (probe-step j true m b answered)
      ∙ unlink-step j m1 (set-same j leaving m.stage) in
    let free : m2.stage k ≡ idle =
      set-other j ended m1.stage k (λ e. q (sym e))
      ∙ set-other j leaving m.stage k (λ e. q (sym e))
      ∙ c in
    let probes = ap (call (probe k)) refused ∙ probe-step k false m2 free refl in
    subst (λ v. Split i k (calls (remove k ∷ bind k ∷ []) v)) (sym probes)
      (taken_over i k (to k probed m2) p
        (set-other k probed m2.stage i p
          ∙ set-other j ended m1.stage i n
          ∙ set-other j leaving m.stage i n
          ∙ a)
        (set-same k probed m2.stage))
