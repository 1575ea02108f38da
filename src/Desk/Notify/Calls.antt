-- ===== src/Desk/Notify/Calls.antt =====
-- handleNotification of desk/desk.go: the calls of its listeners, as lists.
use yaasa_go.Prelude.{
  ℕ, ◌≡◌, refl, sym, ap, ◌∙◌, Bool, true, List, [], ◌∷◌, ◌++◌, map, Option, none, some, arith,
  append-nil,
}
use yaasa_go.Height.{put_uint16}
use yaasa_go.Packet.{Notification, decode_responses}
use yaasa_go.Packet.Frame.{frame}
use yaasa_go.Packet.Decode.{decode_responses-frames}
use yaasa_go.Packet.Recover.{packet}
use yaasa_go.Stats.{SitStandTime, decode_sit_stand_time}
use yaasa_go.Desk.{Call, height_call, stats_call}

abbrev pub with_some {ℓ} : {A : Type ℓ} → Option A → List A → List A
with_some none xs = xs
with_some (some a) xs = a ∷ xs

-- The last of some values, or what was there before.
abbrev pub last_or {ℓ} : {A : Type ℓ} → A → List A → A
last_or a [] = a
last_or a (b ∷ bs) = last_or b bs

abbrev pub any_seen {ℓ} : {A : Type ℓ} → Bool → List A → Bool
any_seen seen [] = seen
any_seen seen (b ∷ bs) = true

-- Each value for each listener, value by value.
abbrev pub fan_out {ℓ} : {A : Type ℓ} → List ℕ → List A → List (ℕ × A)
fan_out ls [] = []
fan_out ls (a ∷ xs) = map (λ l. (l, a)) ls ++ fan_out ls xs

abbrev pub stats_of : List Notification → List SitStandTime
stats_of [] = []
stats_of (n ∷ ns) = with_some (decode_sit_stand_time n.opcode n.payload) (stats_of ns)

module _ {F : Type 0} where
  abbrev pub height_calls : List (Call F) → List (ℕ × F)
  height_calls [] = []
  height_calls (height_call l h ∷ cs) = (l, h) ∷ height_calls cs
  height_calls (stats_call l s ∷ cs) = height_calls cs

  abbrev pub stats_calls : List (Call F) → List (ℕ × SitStandTime)
  stats_calls [] = []
  stats_calls (height_call l h ∷ cs) = stats_calls cs
  stats_calls (stats_call l s ∷ cs) = (l, s) ∷ stats_calls cs

  pub height_calls-append :
      (xs bs : List (Call F)) → height_calls (xs ++ bs) ≡ height_calls xs ++ height_calls bs
  height_calls-append [] bs = refl
  height_calls-append (height_call l h ∷ xs) bs = ap (◌∷◌ (l, h)) (height_calls-append xs bs)
  height_calls-append (stats_call l s ∷ xs) bs = height_calls-append xs bs

  pub stats_calls-append :
      (xs bs : List (Call F)) → stats_calls (xs ++ bs) ≡ stats_calls xs ++ stats_calls bs
  stats_calls-append [] bs = refl
  stats_calls-append (height_call l h ∷ xs) bs = stats_calls-append xs bs
  stats_calls-append (stats_call l s ∷ xs) bs = ap (◌∷◌ (l, s)) (stats_calls-append xs bs)

  pub height_calls-heights :
      (ls : List ℕ) (h : F) → height_calls (map (λ l. height_call l h) ls) ≡ map (λ l. (l, h)) ls
  height_calls-heights [] h = refl
  height_calls-heights (l ∷ ls) h = ap (◌∷◌ (l, h)) (height_calls-heights ls h)

  pub height_calls-stats :
      (ls : List ℕ) (s : SitStandTime) → height_calls (map (λ l. stats_call l s) ls) ≡ []
  height_calls-stats [] s = refl
  height_calls-stats (l ∷ ls) s = height_calls-stats ls s

  pub stats_calls-heights : (ls : List ℕ) (h : F) → stats_calls (map (λ l. height_call l h) ls) ≡ []
  stats_calls-heights [] h = refl
  stats_calls-heights (l ∷ ls) h = stats_calls-heights ls h

pub stats_calls-stats :
    (F : Type 0) (ls : List ℕ) (s : SitStandTime)
    → stats_calls {F = F} (map (λ l. stats_call l s) ls) ≡ map (λ l. (l, s)) ls
stats_calls-stats F [] s = refl
stats_calls-stats F (l ∷ ls) s = ap (◌∷◌ (l, s)) (stats_calls-stats F ls s)

pub any_seen-true {ℓ} : {A : Type ℓ} (xs : List A) → any_seen true xs ≡ true
any_seen-true [] = refl
any_seen-true (x ∷ xs) = refl

-- The frame by which the desk reports a height of `n` whole millimetres.
abbrev pub height_packet : ℕ → Notification
height_packet n = packet 0x01 (put_uint16 n ++ 0 ∷ [])

pub decode_responses-height :
    (n : ℕ) → decode_responses (frame (height_packet n)) ≡ height_packet n ∷ []
decode_responses-height n =
    ap decode_responses (sym (append-nil (frame (height_packet n))))
    ∙ decode_responses-frames (height_packet n ∷ [])
        (record { fits = unfold put_uint16 in omega arith; checked = refl }, tt)
