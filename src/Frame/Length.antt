-- ===== src/Frame/Length.antt =====
-- The remaining length as the protocol encodes it: seven bits a byte, lowest first, with the top bit
-- set on every byte but the last.
use true_mqtt_cpp.Base.{
  ℕ, zero, suc, ◌+◌, ◌/◌, ◌%◌, ◌^◌, ◌≤◌, ◌<◌, ◌≡◌, refl, List, [], ◌∷◌, ltb, if◌then◌else◌, length,
  bit_or, arith,
}
use true_mqtt_cpp.Base.Bits.{bit_or_low}

-- The encoding of a number below 128 ^ (k + 1).
unfoldable pub length_bytes : ℕ → ℕ → List ℕ
length_bytes zero n = n ∷ []
length_bytes (suc k) n =
    let rest = length_bytes k (n / 128) in if ltb n 128 then n ∷ [] else (n % 128 + 128) ∷ rest

pub set_top_bit : (n : ℕ) → bit_or (n % 128) 0x80 ≡ n % 128 + 128
set_top_bit n = bit_or_low 7 1 (n % 128) (omega arith)

-- A length takes from one byte to k + 1.
pub length-length_bytes :
    (k n : ℕ) → (1 ≤ length (length_bytes k n)) × (length (length_bytes k n) ≤ k + 1)
unfolding length_bytes
length-length_bytes zero n = omega arith
length-length_bytes (suc k) n = ground (arith, length-length_bytes k (n / 128))

-- The number of bytes for each range of lengths.
pub length_one : (k n : ℕ) → n < 128 → 1 ≡ length (length_bytes k n)
unfolding length_bytes
length_one zero n h = refl
length_one (suc k) n h = ground arith

length_more :
    (k n l : ℕ)
    → 128 ≤ n
    → l ≡ length (length_bytes k (n / 128))
    → suc l ≡ length (length_bytes (suc k) n)
unfolding length_bytes
length_more k n l h e = ground arith

pub length_two : (k n : ℕ) → 128 ≤ n → n < 16384 → 2 ≡ length (length_bytes (suc k) n)
length_two k n h u = length_more k n 1 h (length_one k (n / 128) (omega arith))

pub length_three : (k n : ℕ) → 16384 ≤ n → n < 2097152 → 3 ≡ length (length_bytes (suc (suc k)) n)
length_three k n h u =
    length_more (suc k) n 2 (omega arith) (length_two k (n / 128) (omega arith) (omega arith))

pub length_four :
    (k n : ℕ) → 2097152 ≤ n → n < 2 ^ 28 → 4 ≡ length (length_bytes (suc (suc (suc k))) n)
length_four k n h u =
    length_more (suc (suc k)) n 3 (omega arith)
      (length_three k (n / 128) (omega arith) (omega arith))

pub length_five : (n : ℕ) → 2 ^ 28 ≤ n → n < 2 ^ 35 → 5 ≡ length (length_bytes 4 n)
length_five n h u =
    length_more 3 n 4 (omega arith) (length_four 0 (n / 128) (omega arith) (omega arith))
