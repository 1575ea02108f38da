-- ===== src/Gatt/Sound.antt =====
-- desk/adapter_darwin.go: what a discovery finds.
use yaasa_go.Prelude.{
  some-inj, List, [], ◌∷◌, Option, none, some, Bool, true, false, ◌==◌, ==_iff, ◌≡◌, refl, subst,
  inl, inr, Bool-cases,
}
use yaasa_go.Result.{ok-inj, Result, ok, err}
use yaasa_go.Gatt.{Char, Service, Handles, no_handles, is_found}
use yaasa_go.Gatt.Mac
use yaasa_go.Gatt.Mac.{
  discover_all, walk, complete, connect_mac, with_desk_char, with_desk_chars, uuid_service_desk,
  uuid_service_dis, uuid_char_command, uuid_char_response, uuid_char_name,
}

-- The handles that are set are of the characteristics that they are for.
record Named (h : Handles) : Type 0 where
  cmd_named : (c : Char) → h.cmd ≡ some c → c.uuid ≡ uuid_char_command
  resp_named : (c : Char) → h.resp ≡ some c → c.uuid ≡ uuid_char_response

with_desk_char-Named : (ch : Char) (h : Handles) → Named h → Named (with_desk_char ch h)
with_desk_char-Named ch h v = elim (Bool-cases (ch.uuid == uuid_char_command)) [
  | inl e ↦ rw e (record {
    cmd_named = λ c q.
        subst (λ x. x.uuid ≡ uuid_char_command) (some-inj ch c q)
          ((==_iff ch.uuid uuid_char_command).0 e);
    resp_named = v.resp_named;
  })
  | inr e ↦ elim (Bool-cases (ch.uuid == uuid_char_response)) [
    | inl f ↦
        rw (e, f)
          (record {
            cmd_named = v.cmd_named;
            resp_named = λ c q.
                subst (λ x. x.uuid ≡ uuid_char_response) (some-inj ch c q)
                  ((==_iff ch.uuid uuid_char_response).0 f);
          })
    | inr f ↦ elim (Bool-cases (ch.uuid == uuid_char_name)) [
      | inl g ↦ rw (e, f, g) (record { cmd_named = v.cmd_named; resp_named = v.resp_named })
      | inr g ↦ rw (e, f, g) v
    ]
  ]
]

with_desk_chars-Named : (chs : List Char) (h : Handles) → Named h → Named (with_desk_chars chs h)
with_desk_chars-Named [] h v = v
with_desk_chars-Named (ch ∷ chs) h v =
    with_desk_chars-Named chs (with_desk_char ch h) (with_desk_char-Named ch h v)

discover_desk_chars-Named :
    (r : Result (List Char)) (h : Handles) → Named h → Named (Mac.discover_desk_chars r h).1
discover_desk_chars-Named (err e) h v = v
discover_desk_chars-Named (ok chs) h v = with_desk_chars-Named chs h v

discover_info_chars-Named :
    (r : Result (List Char)) (h : Handles) → Named h → Named (Mac.discover_info_chars r h)
discover_info_chars-Named (err e) h v = v
discover_info_chars-Named (ok chs) h v = record {
  cmd_named = v.cmd_named;
  resp_named = v.resp_named;
}

service_step-Named : (svc : Service) (h : Handles) → Named h → Named (Mac.service_step svc h).1
service_step-Named svc h v = elim (Bool-cases (svc.uuid == uuid_service_desk)) [
  | inl e ↦ rw e (discover_desk_chars-Named svc.chars h v)
  | inr e ↦ elim (Bool-cases (svc.uuid == uuid_service_dis)) [
    | inl f ↦ rw (e, f) (discover_info_chars-Named svc.chars h v)
    | inr f ↦ rw (e, f) v
  ]
]

-- Both handles are there, and are of their characteristics.
abbrev pub HasBoth : Handles → Type 0
HasBoth h =
    (c : Char) × ((d : Char) × ((h.cmd ≡ some c)
        × ((c.uuid ≡ uuid_char_command) × ((h.resp ≡ some d) × (d.uuid ≡ uuid_char_response)))))

is_found-some : (o : Option Char) → is_found o ≡ true → (c : Char) × (o ≡ some c)
is_found-some none e = cc
is_found-some (some c) e = (c, refl)

complete_of-ok :
    (a b : Bool) (h h' : Handles)
    → Mac.complete_of a b h ≡ ok h'
    → (a ≡ true) × ((b ≡ true) × (h ≡ h'))
complete_of-ok true true h h' e = (refl, (refl, ok-inj h h' e))
complete_of-ok true false h h' e = cc
complete_of-ok false b h h' e = cc

complete-HasBoth : (h h' : Handles) → Named h → complete h ≡ ok h' → HasBoth h'
complete-HasBoth h h' v e =
    let (a, (b, q)) = complete_of-ok (is_found h.cmd) (is_found h.resp) h h' e in
    let (c, p) = is_found-some h.cmd a in
    let (d, r) = is_found-some h.resp b in
    subst HasBoth q (c, (d, (p, (v.cmd_named c p, (r, v.resp_named d r)))))

go_on-HasBoth :
    (rest : Handles → Result Handles) (x : Result (Unit {0}) × Handles) (h' : Handles)
    → ((g : Handles) → Named g → rest g ≡ ok h' → HasBoth h')
    → Named x.1
    → Mac.go_on rest x ≡ ok h'
    → HasBoth h'
go_on-HasBoth rest (ok _, g) h' f v q = f g v q
go_on-HasBoth rest (err z, g) h' f v q = cc

walk-HasBoth : (svcs : List Service) (h h' : Handles) → Named h → walk svcs h ≡ ok h' → HasBoth h'
unfolding walk
walk-HasBoth [] h h' v e = complete-HasBoth h h' v e
walk-HasBoth (svc ∷ svcs) h h' v e =
    go_on-HasBoth (walk svcs) (Mac.service_step svc h) h' (λ g. walk-HasBoth svcs g h')
      (service_step-Named svc h v) e

-- On macOS, a discovery that succeeds has found both the command and the response characteristic.
pub discover_all-HasBoth :
    (device : Result (List Service)) (h : Handles) → discover_all device ≡ ok h → HasBoth h
unfolding discover_all
discover_all-HasBoth (err e) h q = cc
discover_all-HasBoth (ok svcs) h q =
    walk-HasBoth svcs no_handles h (record { cmd_named = λ c e. cc; resp_named = λ c e. cc }) q
