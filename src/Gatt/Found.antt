-- ===== src/Gatt/Found.antt =====
-- desk/adapter_other.go: which handles a loop over characteristics finds.
use yaasa_go.Prelude.{List, [], ◌∷◌, true, ◌==◌, ◌≡◌, inl, inr, arith, Bool-cases}
use yaasa_go.Gatt.{Char, Handles, is_found}
use yaasa_go.Gatt.Linux.{char_command, char_response, with_desk_char, with_desk_chars, offers}

-- One characteristic: what is found stays found, and the one that is looked for is found.
pub cmd-kept :
    (ch : Char) (h : Handles) → is_found h.cmd ≡ true → is_found (with_desk_char ch h).cmd ≡ true
cmd-kept ch h v = ground arith

pub resp-kept :
    (ch : Char) (h : Handles) → is_found h.resp ≡ true → is_found (with_desk_char ch h).resp ≡ true
resp-kept ch h v = ground arith

pub cmd-taken :
    (ch : Char) (h : Handles)
    → (ch.uuid == char_command) ≡ true
    → is_found (with_desk_char ch h).cmd ≡ true
cmd-taken ch h v = ground arith

pub resp-taken :
    (ch : Char) (h : Handles)
    → (ch.uuid == char_response) ≡ true
    → is_found (with_desk_char ch h).resp ≡ true
resp-taken ch h v = ground arith

pub cmd-kept_all :
    (chs : List Char) (h : Handles)
    → is_found h.cmd ≡ true
    → is_found (with_desk_chars chs h).cmd ≡ true
cmd-kept_all [] h v = v
cmd-kept_all (ch ∷ chs) h v = cmd-kept_all chs (with_desk_char ch h) (cmd-kept ch h v)

pub resp-kept_all :
    (chs : List Char) (h : Handles)
    → is_found h.resp ≡ true
    → is_found (with_desk_chars chs h).resp ≡ true
resp-kept_all [] h v = v
resp-kept_all (ch ∷ chs) h v = resp-kept_all chs (with_desk_char ch h) (resp-kept ch h v)

pub cmd-offered :
    (chs : List Char) (h : Handles)
    → offers char_command chs ≡ true
    → is_found (with_desk_chars chs h).cmd ≡ true
cmd-offered [] h v = cc
cmd-offered (ch ∷ chs) h v = elim (Bool-cases (ch.uuid == char_command)) [
  | inl e ↦ cmd-kept_all chs (with_desk_char ch h) (cmd-taken ch h e)
  | inr e ↦ cmd-offered chs (with_desk_char ch h) (rw e at v)
]

pub resp-offered :
    (chs : List Char) (h : Handles)
    → offers char_response chs ≡ true
    → is_found (with_desk_chars chs h).resp ≡ true
resp-offered [] h v = cc
resp-offered (ch ∷ chs) h v = elim (Bool-cases (ch.uuid == char_response)) [
  | inl e ↦ resp-kept_all chs (with_desk_char ch h) (resp-taken ch h e)
  | inr e ↦ resp-offered chs (with_desk_char ch h) (rw e at v)
]
