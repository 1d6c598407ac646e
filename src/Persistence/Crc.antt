-- ===== src/Persistence/Crc.antt =====
-- The checksum of src/persistence/persistence.cpp: CRC32 by a table of 256 entries.
use Prim.Native.Nat.{bit_and, bit_xor, min}
use my_redis.Prelude.{
  ℕ, zero, suc, ◌-◌, ◌/◌, ◌^◌, [], ◌∷◌, ◌==◌, nat_eq, if◌then◌else◌, take, drop, length,
}
use my_redis.Prelude.Text.{Text}

abbrev pub polynomial : ℕ
polynomial = 0xEDB88320

unfoldable pub crc_bits : ℕ → ℕ → ℕ
crc_bits zero crc = crc
crc_bits (suc bits) crc =
    crc_bits bits (if bit_and crc 1 == 0 then crc / 2 else bit_xor (crc / 2) polynomial)

unfoldable pub generate_crc32_entry : ℕ → ℕ
unfolding crc_bits
generate_crc32_entry index = crc_bits 8 index

-- One byte of the loop; `crc32_init.table[i]` holds `generate_crc32_entry(i)`.
unfoldable pub crc_step : ℕ → ℕ → ℕ
unfolding generate_crc32_entry
crc_step crc byte = bit_xor (crc / 2 ^ 8) (generate_crc32_entry (bit_and (bit_xor crc byte) 0xFF))

unfoldable pub crc_chunk : ℕ → Text → ℕ
unfolding crc_step
crc_chunk crc [] = crc
crc_chunk crc (byte ∷ bytes) = crc_chunk (crc_step crc byte) bytes

abbrev pub chunk_size : ℕ
chunk_size = 4096

-- `while (remaining > 0 && in)`: a read that comes up short ends the loop. Each round reads at
-- least a byte, so `remaining` is fuel enough.
unfoldable pub crc_loop : ℕ → ℕ → ℕ → Text → ℕ
unfolding crc_chunk
crc_loop zero crc remaining bytes = crc
crc_loop (suc fuel) crc zero bytes = crc
crc_loop (suc fuel) crc (suc remaining) bytes =
    let to_read = min (suc remaining) chunk_size in
    let chunk = take to_read bytes in
    let crc' = crc_chunk crc chunk in
    let rest = crc_loop fuel crc' (suc remaining - length chunk) (drop to_read bytes) in
    if length chunk == to_read then rest else crc'

unfoldable pub compute_crc32 : Text → ℕ → ℕ
unfolding crc_loop
compute_crc32 file len = bit_xor (crc_loop len 0xFFFFFFFF len file) 0xFFFFFFFF
