-- ===== src/Persistence/Bits.antt =====
-- The width of the words of `Persistence::compute_crc32` in src/persistence/persistence.cpp.
use Prim.Native.Nat.{bit_and, bit_and-bitwise, bit_xor, bit_xor-bitwise, digits, differ, min}
use my_redis.Prelude.{
  arith, ℕ, zero, suc, ◌*◌, ◌/◌, ◌%◌, ◌^◌, ◌<◌, ◌==◌, nat_eq, Bool-cases, inl, inr, [], ◌∷◌,
}
use my_redis.Prelude.Text.{Text}
use my_redis.Persistence.Crc.{crc_bits, generate_crc32_entry, crc_step, crc_chunk, polynomial}

abbrev two_to : ℕ → ℕ
two_to zero = 1
two_to (suc k) = two_to k * 2

differ_bit : (a b : ℕ) → a < 2 → b < 2 → differ a b < 2
differ_bit zero b h k = k
differ_bit (suc zero) zero h k = omega arith
differ_bit (suc zero) (suc zero) h k = omega arith
differ_bit (suc zero) (suc (suc b)) h k = absurd (omega arith)
differ_bit (suc (suc a)) b h k = absurd (omega arith)

digits_bound : (k n a b : ℕ) → a < two_to k → b < two_to k → digits (λ b. b) differ n a b < two_to k
digits_bound k zero a b p q = q
digits_bound k (suc n) zero b p q = q
digits_bound zero (suc n) (suc a) b p q = absurd (omega arith)
digits_bound (suc k) (suc n) (suc a) b p q = omega (
  arith,
  digits_bound k n (suc a / 2) (b / 2) (omega arith) (omega arith),
  differ_bit (suc a % 2) (b % 2) (omega arith) (omega arith),
)

-- An exclusive or of 32-bit words has 32 bits.
pub bit_xor_bound : (a b : ℕ) → a < 2 ^ 32 → b < 2 ^ 32 → bit_xor a b < 2 ^ 32
bit_xor_bound a b p q =
    omega (arith, bit_xor-bitwise a b, digits_bound 32 a a b (omega arith) (omega arith))

two_to_pos : (k : ℕ) → 0 < two_to k
two_to_pos zero = omega arith
two_to_pos (suc k) = omega (arith, two_to_pos k)

min-digits_bound : (k n a b : ℕ) → b < two_to k → digits (λ b. 0) min n a b < two_to k
min-digits_bound k zero a b h = two_to_pos k
min-digits_bound k (suc n) zero b h = two_to_pos k
min-digits_bound zero (suc n) (suc a) b h =
    omega (arith, min-digits_bound zero n (suc a / 2) (b / 2) (omega arith))
min-digits_bound (suc k) (suc n) (suc a) b h =
    omega (arith, min-digits_bound k n (suc a / 2) (b / 2) (omega arith))

bit_and_bound : (a b : ℕ) → b < 2 ^ 32 → bit_and a b < 2 ^ 32
bit_and_bound a b h = omega (arith, bit_and-bitwise a b, min-digits_bound 32 a a b (omega arith))

crc_bits_bound : (bits crc : ℕ) → crc < 2 ^ 32 → crc_bits bits crc < 2 ^ 32
unfolding crc_bits
crc_bits_bound zero crc h = h
crc_bits_bound (suc bits) crc h = elim (Bool-cases (bit_and crc 1 == 0)) [
  | inl e ↦ rw e (crc_bits_bound bits (crc / 2) (omega arith))
  | inr e ↦ rw e (
      crc_bits_bound bits (bit_xor (crc / 2) polynomial)
        (bit_xor_bound (crc / 2) polynomial (omega arith) (omega arith)))
]

crc_step_bound : (crc byte : ℕ) → crc < 2 ^ 32 → crc_step crc byte < 2 ^ 32
unfolding crc_step generate_crc32_entry
crc_step_bound crc byte h =
    bit_xor_bound (crc / 2 ^ 8) (crc_bits 8 (bit_and (bit_xor crc byte) 0xFF)) (omega arith)
      (crc_bits_bound 8 _ (bit_and_bound (bit_xor crc byte) 0xFF (omega arith)))

-- The sum over any bytes has 32 bits where it starts with 32.
pub crc_chunk_bound : (crc : ℕ) (bytes : Text) → crc < 2 ^ 32 → crc_chunk crc bytes < 2 ^ 32
unfolding crc_chunk
crc_chunk_bound crc [] h = h
crc_chunk_bound crc (byte ∷ bytes) h =
    crc_chunk_bound (crc_step crc byte) bytes (crc_step_bound crc byte h)
