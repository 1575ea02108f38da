-- ===== src/Gatt/Agreement.antt =====
-- desk/adapter_darwin.go against desk/adapter_other.go: one device under both adapters.
use yaasa_go.Prelude.{
  ℕ, zero, suc, ◌≤◌, arith, List, [], ◌∷◌, Bool, true, false, ◌==◌, ==_iff, String, ◌≡◌, refl, ap,
  sym, subst, ◌∙◌, ◌⊎◌, inl, inr, All, Bool-cases,
}
use yaasa_go.Prelude.Int.{ℤ}
use yaasa_go.Result.{Result, ok, err}
use yaasa_go.Schedule.{Among}
use yaasa_go.Desk.{Info}
use yaasa_go.Gatt.{Char, Service, Handles, no_handles, is_found}
use yaasa_go.Gatt.Found.{cmd-offered, resp-offered}
use yaasa_go.Gatt.Linux
use yaasa_go.Gatt.Mac
use yaasa_go.Gatt.Linux.{
  discover, connect_linux, in_time, take_text, service_desk, service_info, char_command,
  char_response, offers,
}
use yaasa_go.Gatt.Mac.{discover_all, walk, complete, connect_mac}

abbrev text_length : String → ℕ
text_length String.[] = 0
text_length (String.◌∷◌ c s) = suc (text_length s)

-- Reads of the characteristic succeed, and its text fits into 128 bytes.
abbrev IsReadable : Char → Type 0
IsReadable ch = (ch.read_fails ≡ false) × (text_length ch.text ≤ 128)

abbrev ReadableChars : Result (List Char) → Type 0
ReadableChars (err e) = Unit
ReadableChars (ok chs) = All IsReadable chs

abbrev pub IsReadableService : Service → Type 0
IsReadableService svc = ReadableChars svc.chars

take_text-fits : (n : ℕ) (s : String) → text_length s ≤ n → take_text n s ≡ s
unfolding take_text
take_text-fits zero String.[] h = refl
take_text-fits zero (String.◌∷◌ c s) h = absurd (omega arith)
take_text-fits (suc n) String.[] h = refl
take_text-fits (suc n) (String.◌∷◌ c s) h = ap (String.◌∷◌ c) (take_text-fits n s (omega arith))

read_string-read_str : (ch : Char) → IsReadable ch → Mac.read_string ch ≡ Linux.read_str ch
read_string-read_str ch (h, q) = rw h (sym (take_text-fits 128 ch.text q))

with_desk_char-readable :
    (ch : Char) (h : Handles) → IsReadable ch → Mac.with_desk_char ch h ≡ Linux.with_desk_char ch h
with_desk_char-readable ch h v = rw (read_string-read_str ch v) refl

with_info-readable :
    (ch : Char) (i : Info) → IsReadable ch → Mac.with_info ch i ≡ Linux.with_info ch i
with_info-readable ch i v = rw (read_string-read_str ch v) refl

with_desk_chars-readable :
    (chs : List Char) (h : Handles)
    → All IsReadable chs
    → Mac.with_desk_chars chs h ≡ Linux.with_desk_chars chs h
with_desk_chars-readable [] h v = refl
with_desk_chars-readable (ch ∷ chs) h (v, vs) =
    ap (Mac.with_desk_chars chs) (with_desk_char-readable ch h v)
    ∙ with_desk_chars-readable chs (Linux.with_desk_char ch h) vs

with_all_info-readable :
    (chs : List Char) (i : Info)
    → All IsReadable chs
    → Mac.with_all_info chs i ≡ Linux.with_all_info chs i
with_all_info-readable [] i v = refl
with_all_info-readable (ch ∷ chs) i (v, vs) =
    ap (Mac.with_all_info chs) (with_info-readable ch i v)
    ∙ with_all_info-readable chs (Linux.with_info ch i) vs

-- Both handles are there.
abbrev HasHandles : Handles → Type 0
HasHandles h = (is_found h.cmd ≡ true) × (is_found h.resp ≡ true)

-- What a step of the discovery on Linux says of the one on macOS, where `P` holds before it.
record Agrees (P : Type 0) (linux mac : Result (Unit {0}) × Handles) : Type 0 where
  same : linux.0 ≡ ok tt → mac ≡ linux
  kept : linux.0 ≡ ok tt → P → HasHandles linux.1

desk_chars-Agrees :
    (r : Result (List Char)) (h : Handles)
    → ReadableChars r
    → Agrees (Unit {0}) (Linux.desk_chars r h) (Mac.discover_desk_chars r h)
desk_chars-Agrees (err e) h v = record { same = λ q. cc; kept = λ q p. cc }
desk_chars-Agrees (ok chs) h v = elim (Bool-cases (offers char_command chs)) [
  | inl a ↦ elim (Bool-cases (offers char_response chs)) [
    | inl b ↦
        rw (a, b)
          (record {
            same = λ q. ap (λ x. (ok tt, x)) (with_desk_chars-readable chs h v);
            kept = λ q p. (cmd-offered chs h a, resp-offered chs h b);
          })
    | inr b ↦ rw (a, b) (record { same = λ q. cc; kept = λ q p. cc })
  ]
  | inr a ↦ rw a (record { same = λ q. cc; kept = λ q p. cc })
]

info_chars-readable :
    (r : Result (List Char)) (h : Handles)
    → ReadableChars r
    → Mac.discover_info_chars r h ≡ Linux.info_chars r h
info_chars-readable (err e) h v = refl
info_chars-readable (ok chs) h v =
    ap (λ i. record h { info = i }) (with_all_info-readable chs h.info v)

info_chars-HasHandles :
    (r : Result (List Char)) (h : Handles) → HasHandles h → HasHandles (Linux.info_chars r h)
info_chars-HasHandles (err e) h v = v
info_chars-HasHandles (ok chs) h v = v

service_step-Agrees :
    (svc : Service) (h : Handles)
    → IsReadableService svc
    → Agrees
        ((svc.uuid ≡ service_desk) ⊎ HasHandles h)
        (Linux.service_step svc h)
        (Mac.service_step svc h)
service_step-Agrees svc h v = elim (Bool-cases (svc.uuid == service_desk)) [
  | inl e ↦
      let a = desk_chars-Agrees svc.chars h v in
      rw e (record { same = a.same; kept = λ q p. a.kept q tt })
  | inr e ↦ elim (Bool-cases (svc.uuid == service_info)) [
    | inl f ↦
        rw (e, f)
          (record {
            same = λ q. ap (λ x. (ok tt, x)) (info_chars-readable svc.chars h v);
            kept = λ q p. elim p [
              | inl d ↦ absurd (let k = (==_iff svc.uuid service_desk).1 d in cc)
              | inr w ↦ info_chars-HasHandles svc.chars h w
            ];
          })
    | inr f ↦
        rw (e, f)
          (record {
            same = λ q. refl;
            kept = λ q p. elim p [
              | inl d ↦ absurd (let k = (==_iff svc.uuid service_desk).1 d in cc)
              | inr w ↦ w
            ];
          })
  ]
]

-- The device has the desk's service among those that are still to be seen, or its handles are known.
abbrev HasDesk : List Service → Handles → Type 0
HasDesk svcs h = Among (λ s. s.uuid ≡ service_desk) svcs ⊎ HasHandles h

go_on-agree :
    (f g : Handles → Result Handles) (linux mac : Result (Unit {0}) × Handles) (h' : Handles)
    → (linux.0 ≡ ok tt → mac ≡ linux)
    → ((x : Handles) → linux.0 ≡ ok tt → x ≡ linux.1 → f x ≡ ok h' → g x ≡ ok h')
    → Linux.go_on f linux ≡ ok h'
    → Mac.go_on g mac ≡ ok h'
go_on-agree f g (ok _, x) mac h' same step e = rw (same refl) (step x refl refl e)
go_on-agree f g (err z, x) mac h' same step e = cc

complete_of-both : (a b : Bool) (h : Handles) → a ≡ true → b ≡ true → Mac.complete_of a b h ≡ ok h
complete_of-both a b h p q = rw (p, q) refl

discover-walk :
    (svcs : List Service) (h h' : Handles)
    → All IsReadableService svcs
    → HasDesk svcs h
    → discover svcs h ≡ ok h'
    → walk svcs h ≡ ok h'
unfolding discover walk
discover-walk [] h h' v (inl d) e = absurd d
discover-walk [] h h' v (inr (c, r)) e =
    complete_of-both (is_found h.cmd) (is_found h.resp) h c r ∙ e
discover-walk (svc ∷ svcs) h h' (v, vs) d e =
    let a = service_step-Agrees svc h v in
    go_on-agree (discover svcs) (walk svcs) (Linux.service_step svc h) (Mac.service_step svc h) h'
      a.same
      (λ x q p. discover-walk svcs x h' vs (elim d [
        | inl (inl u) ↦ inr (subst HasHandles (sym p) (a.kept q (inl u)))
        | inl (inr later) ↦ inl later
        | inr w ↦ inr (subst HasHandles (sym p) (a.kept q (inr w)))
      ]))
      e

set_up-agree : (r : Result Handles) (h : Handles) → (Linux.set_up r).0 ≡ ok h → r ≡ ok h
set_up-agree (ok x) h e = e
set_up-agree (err z) h e = e

-- On a device that offers the desk's service, and on which reads succeed and no text is longer than
-- 128 bytes: when the adapter for Linux connects to it in time, the one for macOS finds the same
-- handles and texts, and does the same.
pub connect-agree :
    (svcs : List Service) (timeout : ℤ) (h : Handles)
    → All IsReadableService svcs
    → Among (λ s. s.uuid ≡ service_desk) svcs
    → (connect_linux (ok tt) timeout (in_time (ok (ok svcs)))).0 ≡ ok h
    → connect_mac (ok svcs) ≡ connect_linux (ok tt) timeout (in_time (ok (ok svcs)))
unfolding connect_linux connect_mac discover_all
connect-agree svcs timeout h v d e =
    let found = set_up-agree (discover svcs no_handles) h e in
    rw (found, discover-walk svcs no_handles h v (inl d) found) refl
