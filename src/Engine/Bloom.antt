-- ===== src/Engine/Bloom.antt =====
-- bloom.c, without its two functions that copy a filter to and from a buffer. The array is its bits, bit
-- `p` being the one that the code calls `1 << (p % 8)` of byte `p / 8`. Allocation succeeds.
pub mod Contains
use Prim.Native.Nat.{bit_xor}
use first_principle_cs.Base.{
  ℕ, zero, suc, ◌+◌, ◌-◌, ◌*◌, ◌/◌, ◌%◌, ◌^◌, List, [], ◌∷◌, Bool, true, false, if◌then◌else◌,
  length, set, get_or, replicate, u32, u64, add64,
}

pub record BloomFilter : Type 0 where
  pub bits : List Bool
  pub num_bits : ℕ
  pub num_keys : ℕ
  pub num_hashes : ℕ

abbrev pub bloom_bits_per_key : ℕ
bloom_bits_per_key = 10

abbrev pub mul32 : ℕ → ℕ → ℕ
mul32 a b = a * b % u32

-- A rotation to the left by `n` bits.
abbrev pub rotate32 : ℕ → ℕ → ℕ
rotate32 n x = x * 2 ^ n % u32 + x / 2 ^ (32 - n)

abbrev pub mix_key : ℕ → ℕ
mix_key k1 = mul32 (rotate32 15 (mul32 k1 0xcc9e2d51)) 0x1b873593

abbrev pub mix_block : ℕ → ℕ → ℕ
mix_block h1 k1 = (rotate32 13 (bit_xor h1 (mix_key k1)) * 5 + 0xe6546b64) % u32

-- The blocks of four bytes, lowest byte first, and what is left behind them.
unfoldable pub murmur_body : ℕ → List ℕ → ℕ
murmur_body h1 [] = h1
murmur_body h1 (a ∷ []) = bit_xor h1 (mix_key a)
murmur_body h1 (a ∷ b ∷ []) = bit_xor h1 (mix_key (a + 256 * b))
murmur_body h1 (a ∷ b ∷ c ∷ []) = bit_xor h1 (mix_key (a + 256 * b + 256 * 256 * c))
murmur_body h1 (a ∷ b ∷ c ∷ d ∷ rest) =
    murmur_body (mix_block h1 (a + 256 * b + 256 * 256 * c + 256 * 256 * 256 * d)) rest

abbrev pub shift_xor : ℕ → ℕ → ℕ
shift_xor n h = bit_xor h (h / 2 ^ n)

abbrev pub finalize : ℕ → ℕ
finalize h1 = shift_xor 16 (mul32 (shift_xor 13 (mul32 (shift_xor 16 h1) 0x85ebca6b)) 0xc2b2ae35)

unfoldable pub murmur_hash3_32 : List ℕ → ℕ → ℕ
murmur_hash3_32 key seed = finalize (bit_xor (murmur_body seed key) (length key % u32))

abbrev pub at_least_one : ℕ → ℕ
at_least_one zero = 1
at_least_one (suc n) = suc n

unfoldable pub bloom_create : ℕ → BloomFilter
bloom_create estimated_keys =
    let num_bytes = add64 (at_least_one estimated_keys * bloom_bits_per_key % u64) 7 / 8 in
    record {
      bits = replicate (num_bytes * 8) false;
      num_bits = num_bytes * 8;
      num_keys = 0;
      num_hashes = 7;
    }

-- Double hashing: the `i`-th position of a key.
abbrev pub bit_pos : ℕ → ℕ → ℕ → ℕ → ℕ
bit_pos num_bits h1 h2 i = (h1 + i * h2) % u32 % num_bits

-- The loops from hash `i` on, for `n` more of them.
unfoldable pub set_bits : ℕ → ℕ → (ℕ → ℕ) → List Bool → List Bool
set_bits zero i pos bits = bits
set_bits (suc n) i pos bits = set_bits n (i + 1) pos (set bits (pos i) true)

unfoldable pub test_bits : ℕ → ℕ → (ℕ → ℕ) → List Bool → Bool
test_bits zero i pos bits = true
test_bits (suc n) i pos bits =
    let rest = test_bits n (i + 1) pos bits in if get_or bits (pos i) false then rest else false

abbrev pub positions : BloomFilter → List ℕ → ℕ → ℕ
positions bf key =
    bit_pos bf.num_bits (murmur_hash3_32 key 0) (murmur_hash3_32 key (murmur_hash3_32 key 0))

unfoldable pub bloom_add : BloomFilter → List ℕ → BloomFilter
bloom_add bf key = record bf {
  bits = set_bits bf.num_hashes 0 (positions bf key) bf.bits;
  num_keys = add64 bf.num_keys 1;
}

unfoldable pub bloom_may_contain : BloomFilter → List ℕ → Bool
bloom_may_contain bf key = test_bits bf.num_hashes 0 (positions bf key) bf.bits
