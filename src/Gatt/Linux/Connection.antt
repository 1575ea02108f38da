-- ===== src/Gatt/Linux/Connection.antt =====
-- desk/adapter_other.go: the methods of `tinygoConnection`, over the BLE library.
use yaasa_go.Prelude.{ℕ, ◌≤◌, List, [], ◌∷◌, ◌++◌, Bytes, length, take, ◌≡◌, refl, ap, ◌∙◌}
use yaasa_go.Result.{Result, ok, err, M, wrapped, and_then, return}
use yaasa_go.Desk.Connection.{Connection}
use yaasa_go.Gatt.{Char}

-- What the connection uses of the library: a write and a read give how many bytes they have moved,
-- and a read also its buffer, of the size that it is given.
pub record Library (S : Type 0) : Type 0 where
  pub write_without_response : Char → Bytes → M S ℕ
  pub enable_notifications : Char → M S (Unit {0})
  pub read : Char → ℕ → M S (ℕ × Bytes)
  pub disconnect : M S (Unit {0})

-- `buf := make([]byte, 32)`
abbrev pub buffer_size : ℕ
buffer_size = 32

-- `if err != nil { return nil, ... }; return buf[:n], nil`
abbrev pub read_of : {S : Type 0} → Result (ℕ × Bytes) × S → Result Bytes × S
read_of (ok (n, buf), s) = (ok (take n buf), s)
read_of (err e, s) = (err (wrapped "read FE62" e), s)

unfoldable pub tinygo_connection : {S : Type 0} → Library S → Char → Char → Connection S
tinygo_connection lib cmd_char resp_char = record {
  writes = λ bytes s. and_then (lib.write_without_response cmd_char bytes s) (λ n. return tt);
  enables = lib.enable_notifications resp_char;
  reads = λ s. read_of (lib.read resp_char buffer_size s);
  disconnects = lib.disconnect;
}

take-append : {A : Type 0} (xs ys : List A) → take (length xs) (xs ++ ys) ≡ xs
take-append [] ys = refl
take-append (x ∷ xs) ys = ap (◌∷◌ x) (take-append xs ys)

-- A library that reads as it says: a value that fits comes at the front of the buffer.
abbrev pub IsReading : {S : Type 0} → Library S → Char → Bytes → S → Type 0
IsReading lib ch value s =
    (size : ℕ)
    → length value ≤ size
    → (rest : Bytes) × ((lib.read ch size s).0 ≡ ok (length value, value ++ rest))

read_of-ok :
    {S : Type 0} (x : Result (ℕ × Bytes) × S) (n : ℕ) (buf : Bytes)
    → x.0 ≡ ok (n, buf)
    → (read_of x).0 ≡ ok (take n buf)
read_of-ok (ok (k, b), s) n buf h = cc
read_of-ok (err e, s) n buf h = cc

-- `ReadResponse` returns the value of FE62 whole, if it has at most 32 bytes.
pub reads-value :
    {S : Type 0} (lib : Library S) (cmd_char resp_char : Char) (value : Bytes) (s : S)
    → length value ≤ 32
    → IsReading lib resp_char value s
    → ((tinygo_connection lib cmd_char resp_char).reads s).0 ≡ ok value
unfolding tinygo_connection
reads-value lib cmd_char resp_char value s l h =
    let (rest, e) = h buffer_size l in
    read_of-ok (lib.read resp_char buffer_size s) (length value) (value ++ rest) e
    ∙ ap ok (take-append value rest)
