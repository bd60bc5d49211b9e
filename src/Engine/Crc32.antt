-- ===== src/Engine/Crc32.antt =====
-- crc32.c. The table is computed where it is looked up. `~` on 32 bits is the distance to 2^32 - 1.
use Prim.Native.Nat.{bit_xor}
use first_principle_cs.Base.{
  ℕ, zero, suc, ◌-◌, ◌/◌, ◌%◌, ◌<◌, List, [], ◌∷◌, ◌==◌, if◌then◌else◌, u32, arith,
}

-- The loop over the bits of one table entry.
abbrev pub crc_bits : ℕ → ℕ → ℕ
crc_bits zero crc = crc
crc_bits (suc n) crc = crc_bits n (if crc % 2 == 1 then bit_xor (crc / 2) 0xEDB88320 else crc / 2)

abbrev pub crc32_table : ℕ → ℕ
crc32_table i = crc_bits 8 i

abbrev pub invert : ℕ → ℕ
invert crc = u32 - 1 - crc

abbrev pub crc_loop : ℕ → List ℕ → ℕ
crc_loop crc [] = crc
crc_loop crc (b ∷ bs) = crc_loop (bit_xor (crc32_table (bit_xor crc b % 256)) (crc / 256)) bs

unfoldable pub crc32_update : ℕ → List ℕ → ℕ
crc32_update crc bytes = invert (crc_loop (invert crc) bytes)

unfoldable pub crc32 : List ℕ → ℕ
unfolding crc32_update
crc32 bytes = crc32_update 0 bytes

pub crc32_bound : (bytes : List ℕ) → crc32 bytes < u32
unfolding crc32 crc32_update
crc32_bound bytes = omega arith
