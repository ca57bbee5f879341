-- ===== src/Snapshot/Ids.antt =====
-- internal/engine/snapshot/envelope.go: the identifier of a snapshot, from the time in milliseconds and
-- four random bytes.
use portcloak.Base.{
  ◌≡◌, ap, ℕ, zero, suc, ◌+◌, ◌-◌, ◌*◌, ◌/◌, ◌%◌, ◌^◌, List, [], ◌∷◌, String, ltb, if◌then◌else◌,
  arith,
}
use Prim.Native.String

abbrev crockford_alphabet : String
crockford_alphabet = "0123456789ABCDEFGHJKMNPQRSTVWXYZ"

letter : ℕ → String
letter n = String.◌∷◌ (String.char_at crockford_alphabet n) ""

-- The inner loop, while five bits are there: the letters and the bits that are left. `fuel` is at least
-- the number of bits.
letters : ℕ → ℕ → ℕ → String × ℕ
unfolding letter
letters zero acc bits = ("", bits)
letters (suc fuel) acc bits =
    let (rest, left) = letters fuel acc (bits - 5) in
    if ltb bits 5
    then ("", bits)
    else (String.◌++◌ (letter ((acc / 2 ^ (bits - 5)) % 32)) rest, left)

-- The outer loop; `acc` is a uint32.
crockford_from : ℕ → ℕ → List ℕ → String
unfolding letters letter
crockford_from acc bits [] =
    if ltb 0 bits then letter ((acc * 2 ^ (5 - bits)) % 2 ^ 32 % 32) else ""
crockford_from acc bits (c ∷ bytes) =
    let acc' = (acc * 256 + c) % 2 ^ 32 in
    let (emitted, left) = letters (bits + 8) acc' (bits + 8) in
    String.◌++◌ emitted (crockford_from acc' left bytes)

unfoldable pub crockford : List ℕ → String
unfolding crockford_from
crockford bytes = crockford_from 0 0 bytes

-- The buffer of `NewID`: `PutUint64` writes the milliseconds into its first eight bytes, and the random
-- bytes overwrite it from the seventh on.
id_bytes : ℕ → List ℕ → List ℕ
id_bytes millis random =
    (millis / 2 ^ 56) % 256
    ∷ (millis / 2 ^ 48) % 256
    ∷ (millis / 2 ^ 40) % 256
    ∷ (millis / 2 ^ 32) % 256
    ∷ (millis / 2 ^ 24) % 256
    ∷ (millis / 2 ^ 16) % 256
    ∷ random

-- `NewID`
unfoldable pub new_id : ℕ → List ℕ → String
unfolding crockford id_bytes
new_id millis random = crockford (id_bytes millis random)

id_bytes-window :
    (a b : ℕ) (random : List ℕ) → a / 2 ^ 16 ≡ b / 2 ^ 16 → id_bytes a random ≡ id_bytes b random
unfolding id_bytes
id_bytes-window a b random h = ground (arith, h)

-- Two instants of one window of 2^16 milliseconds, about 65 seconds, give the same identifier where the
-- random bytes are the same: within a window, the random bytes alone order the identifiers.
pub new_id-window :
    (a b : ℕ) (random : List ℕ) → a / 2 ^ 16 ≡ b / 2 ^ 16 → new_id a random ≡ new_id b random
unfolding new_id
new_id-window a b random h = ap crockford (id_bytes-window a b random h)
