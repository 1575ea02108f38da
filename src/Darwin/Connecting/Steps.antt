-- ===== src/Darwin/Connecting/Steps.antt =====
-- desk/adapter_darwin.go: what each event means for a wait of `Connect`.
use yaasa_go.Prelude.{
  set, ℕ, [], ◌∷◌, Option, none, some, Bool, true, false, ◌≡◌, ◌≢◌, refl, ap, sym, ◌∙◌, ◌⊎◌, inl,
  inr, ◌==◌, ==_iff, Bool-cases,
}
use yaasa_go.Result.{Result, ok, Error}
use yaasa_go.Schedule.{selecting, returned, IsReturned}
use yaasa_go.Darwin.Connecting.{
  Event, reports, connect, Attempt, Target, sent, complete_pending, outcome, received_from, expired,
  registered,
}

set-same {ℓ} : {A : Type ℓ} (i : ℕ) (x : A) (f : ℕ → A) → set i x f i ≡ x
set-same i x f = rw ((==_iff i i).1 refl) refl

-- An entry that `set` has not made is an old one.
pub set-cases {ℓ} :
    {A : Type ℓ} (i : ℕ) (x : A) (f : ℕ → A) (j : ℕ) (y : A)
    → set i x f j ≡ y
    → ((j ≡ i) × (x ≡ y)) ⊎ ((j ≢ i) × (f j ≡ y))
set-cases i x f j y h = elim (Bool-cases (j == i)) [
  | inl e ↦ inl ((==_iff j i).0 e, (rw e at h))
  | inr e ↦ inr ((λ q. let k = (==_iff j i).1 q in cc), (rw e at h))
]

module _ (t : Target) where
  abbrev pub Mine : Attempt → ℕ → Type 0
  Mine a i = a.pending i ≡ some t.channel

  -- The report that the peripheral of the call is connected.
  abbrev pub IsConnection : Event → Type 0
  IsConnection e = e ≡ reports t.id none

  -- The channel of the call is stored for its peripheral only, and not after a result was sent to it
  -- or the call has returned; a success was reported, as `P` says, before any cancellation.
  pub record Inv (P : Type 0) (a : Attempt) : Type 0 where
    pub own : (i : ℕ) → Mine a i → i ≡ t.id
    pub free : (i : ℕ) → Mine a i → a.box ≡ none
    pub drained : (i : ℕ) → IsReturned a.phase → a.pending i ≢ some t.channel
    pub told : a.box ≡ some none → P
    pub success : a.phase ≡ returned (ok tt) → P × (a.timed_out ≡ false)
    pub calls : a.timed_out ≡ false → a.calls ≡ connect ∷ []

  pub sent-none : (e : Option Error) (o : Option ℕ) → o ≢ some t.channel → sent t e o none ≡ none
  sent-none e none h = refl
  sent-none e (some ch) h = elim (Bool-cases (ch == t.channel)) [
    | inl q ↦ absurd (h (ap some ((==_iff ch t.channel).0 q)))
    | inr q ↦ rw q refl
  ]

  pub sent-told :
      (e : Option Error) (o : Option ℕ) (box : Option (Option Error))
      → sent t e o box ≡ some none
      → (box ≡ some none) ⊎ ((o ≡ some t.channel) × (e ≡ none))
  sent-told e none box h = inl h
  sent-told e (some ch) (some x) h = inl h
  sent-told e (some ch) none h = elim (Bool-cases (ch == t.channel)) [
    | inl q ↦ inr (ap some ((==_iff ch t.channel).0 q), cc (rw q at h))
    | inr q ↦ absurd (let k = rw q at h in cc)
  ]

  pub reports-Inv :
      (P : Type 0) (id : ℕ) (e : Option Error) (a : Attempt)
      → Inv P a
      → Inv (P ⊎ IsConnection (reports id e)) (complete_pending t id e a)
  unfolding complete_pending
  reports-Inv P id e a v = record {
    own = λ i h. v.own i (kept i h).1;
    free = λ i h.
        rw (v.free i (kept i h).1) (
          sent-none e (a.pending id) (λ q. (kept i h).0 (v.own i (kept i h).1 ∙ sym (v.own id q))));
    drained = λ i r h. v.drained i r (kept i h).1;
    told = λ h. elim (sent-told e (a.pending id) a.box h) [
      | inl old ↦ inl (v.told old)
      | inr (q, none_e) ↦ inr (rw (v.own id q, none_e) refl)
    ];
    success = λ h. (inl (v.success h).0, (v.success h).1);
    calls = v.calls;
  }
    where
      kept :
          (i : ℕ)
          → set id none a.pending i ≡ some t.channel
          → (i ≢ id) × (a.pending i ≡ some t.channel)
      kept i h = elim (set-cases id none a.pending i (some t.channel) h) [
        | inl (_, q) ↦ absurd (cc)
        | inr k ↦ k
      ]

  pub registers-Inv :
      (P : Type 0) (id ch : ℕ) (a : Attempt) → Inv P a → Inv P (registered t id ch a)
  registers-Inv P id ch a v = elim (Bool-cases (ch == t.channel)) [
    | inl q ↦ rw q v
    | inr q ↦ rw q (record {
      own = λ i h. v.own i (kept q i h);
      free = λ i h. v.free i (kept q i h);
      drained = λ i r h. v.drained i r (kept q i h);
      told = v.told;
      success = v.success;
      calls = v.calls;
    })
  ]
    where
      kept :
          ch == t.channel ≡ false
          → (i : ℕ) → set id (some ch) a.pending i ≡ some t.channel
          → a.pending i ≡ some t.channel
      kept q i h = elim (set-cases id (some ch) a.pending i (some t.channel) h) [
        | inl (_, s) ↦ absurd (let k = (==_iff ch t.channel).1 (cc) in cc)
        | inr k ↦ k.1
      ]

  -- A result from the channel: a success is one that was told in time.
  pub outcome-ok :
      (b connected : Bool) (r : Option Error)
      → outcome t b connected r ≡ ok tt
      → (r ≡ none) × (b ≡ false)
  outcome-ok true connected r h = cc
  outcome-ok false connected (some e) h = cc
  outcome-ok false true none h = (refl, refl)
  outcome-ok false false none h = cc

  pub returned-inj : (x y : Result (Unit {0})) → returned x ≡ returned y → x ≡ y
  returned-inj x y h = cc

  pub received-Inv :
      (P : Type 0) (connected : Bool) (o : Option (Option Error)) (a : Attempt)
      → a.box ≡ o
      → Inv P a
      → Inv P (received_from t connected o a)
  received-Inv P connected none a e v = v
  received-Inv P connected (some r) a e v = record {
    own = v.own;
    free = λ i h. refl;
    drained = λ i q h. let k = v.free i h in cc;
    told = λ h. cc;
    success = λ h.
        let (q, b) = outcome-ok a.timed_out connected r (returned-inj _ (ok tt) h) in
        (v.told (e ∙ ap some q), b);
    calls = v.calls;
  }

  pub expired-Inv :
      (P : Type 0) (b : Bool) (a : Attempt)
      → a.timed_out ≡ b
      → a.phase ≡ selecting
      → Inv P a
      → Inv P (expired t b a)
  expired-Inv P false a e s v = record {
    own = v.own;
    free = v.free;
    drained = λ i (r, q) h. cc;
    told = v.told;
    success = λ h. cc;
    calls = λ h. cc;
  }
  expired-Inv P true a e s v = record {
    own = λ i h. v.own i (kept i h).1;
    free = λ i h. v.free i (kept i h).1;
    drained = λ i r h. (kept i h).0 (v.own i (kept i h).1);
    told = v.told;
    success = λ h. cc;
    calls = v.calls;
  }
    where
      kept :
          (i : ℕ)
          → set t.id none a.pending i ≡ some t.channel
          → (i ≢ t.id) × (a.pending i ≡ some t.channel)
      kept i h = elim (set-cases t.id none a.pending i (some t.channel) h) [
        | inl (_, q) ↦ absurd (cc)
        | inr k ↦ k
      ]

  pub Inv-map : (P Q : Type 0) (a : Attempt) → (P → Q) → Inv P a → Inv Q a
  Inv-map P Q a f v = record {
    own = v.own;
    free = v.free;
    drained = v.drained;
    told = λ h. f (v.told h);
    success = λ h. (f (v.success h).0, (v.success h).1);
    calls = v.calls;
  }
