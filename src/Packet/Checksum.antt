-- ===== src/Packet/Checksum.antt =====
-- The checksum of packet.go: the sum that the documents give, and what it detects.
use yaasa_go.Prelude.{
  ℕ, ◌+◌, ◌%◌, ◌<◌, ◌≡◌, ◌≢◌, [], ◌∷◌, ◌++◌, Bytes, length, arith, length-append,
}
use yaasa_go.Packet.{add_bytes, checksum}

abbrev pub sum : Bytes → ℕ
sum [] = 0
sum (b ∷ bs) = b + sum bs

pub sum-append : (xs ys : Bytes) → sum (xs ++ ys) ≡ sum xs + sum ys
sum-append [] ys = omega arith
sum-append (x ∷ xs) ys = omega (arith, sum-append xs ys)

add_bytes-sum : (bs : Bytes) (cs : ℕ) → cs < 256 → add_bytes cs bs ≡ (cs + sum bs) % 256
unfolding add_bytes
add_bytes-sum [] cs h = omega arith
add_bytes-sum (b ∷ bs) cs h = omega (arith, add_bytes-sum bs ((cs + b) % 256) (omega arith))

-- The running byte sum is the documented one: opcode, payload length and payload bytes, modulo
-- 256.
pub checksum-sum :
    (opcode : ℕ) (payload : Bytes)
    → checksum opcode payload ≡ (opcode + length payload + sum payload) % 256
unfolding checksum
checksum-sum opcode payload =
    omega (arith, add_bytes-sum payload ((opcode + length payload % 256) % 256) (omega arith))

pub checksum-lt : (opcode : ℕ) (payload : Bytes) → checksum opcode payload < 256
checksum-lt opcode payload = omega (arith, checksum-sum opcode payload)

-- A change of one payload byte, wherever it stands, changes the checksum.
pub checksum_detects :
    (opcode : ℕ) (before after : Bytes) (b c : ℕ)
    → b < 256
    → c < 256
    → b ≢ c
    → checksum opcode (before ++ b ∷ after) ≢ checksum opcode (before ++ c ∷ after)
checksum_detects opcode before after b c hb hc ne e = ne (
    omega (
      arith,
      e,
      checksum-sum opcode (before ++ b ∷ after),
      checksum-sum opcode (before ++ c ∷ after),
      sum-append before (b ∷ after),
      sum-append before (c ∷ after),
      length-append before (b ∷ after),
      length-append before (c ∷ after),
    ))
