-- ===== src/Engine/Bloom/Contains.antt =====
-- A Bloom filter never denies a key that was added.
use first_principle_cs.Base.{
  ℕ, zero, suc, ◌+◌, ◌%◌, ◌*◌, ◌^◌, ◌<◌, ◌≡◌, refl, sym, ap, ◌∙◌, List, [], ◌∷◌, Bool, true, false,
  Bool-cases, inl, inr, if◌then◌else◌, length, length-set, length-replicate, set, get_or, u32,
  arith,
}
use native.Mathlib.Nat.{mod-lt}
use first_principle_cs.Engine.Bloom.{
  BloomFilter, bloom_create, set_bits, test_bits, positions, bloom_add, bloom_may_contain,
  murmur_hash3_32,
}

-- The array has the size that the filter says, and is not empty.
pub record IsSized (bf : BloomFilter) : Type 0 where
  pub sized : length bf.bits ≡ bf.num_bits
  pub positive : 0 < bf.num_bits

get_or-set_self :
    (bits : List Bool) (p : ℕ) → p < length bits → get_or (set bits p true) p false ≡ true
get_or-set_self [] p h = absurd (omega arith)
get_or-set_self (b ∷ bits) zero h = refl
get_or-set_self (b ∷ bits) (suc p) h = get_or-set_self bits p (omega arith)

get_or-set :
    (bits : List Bool) (p q : ℕ)
    → get_or bits p false ≡ true
    → get_or (set bits q true) p false ≡ true
get_or-set [] p q h = h
get_or-set (b ∷ bits) zero zero h = refl
get_or-set (b ∷ bits) zero (suc q) h = h
get_or-set (b ∷ bits) (suc p) zero h = h
get_or-set (b ∷ bits) (suc p) (suc q) h = get_or-set bits p q h

get_or-set_bits :
    (n i : ℕ) (pos : ℕ → ℕ) (bits : List Bool) (p : ℕ)
    → get_or bits p false ≡ true
    → get_or (set_bits n i pos bits) p false ≡ true
unfolding set_bits
get_or-set_bits zero i pos bits p h = h
get_or-set_bits (suc n) i pos bits p h =
    get_or-set_bits n (i + 1) pos (set bits (pos i) true) p (get_or-set bits p (pos i) h)

length-set_bits :
    (n i : ℕ) (pos : ℕ → ℕ) (bits : List Bool) → length (set_bits n i pos bits) ≡ length bits
unfolding set_bits
length-set_bits zero i pos bits = refl
length-set_bits (suc n) i pos bits =
    length-set_bits n (i + 1) pos (set bits (pos i) true) ∙ length-set bits (pos i) true

test_bits-set_bits :
    (n i : ℕ) (pos : ℕ → ℕ) (bits : List Bool)
    → ((k : ℕ) → pos k < length bits)
    → test_bits n i pos (set_bits n i pos bits) ≡ true
unfolding set_bits test_bits
test_bits-set_bits zero i pos bits h = refl
test_bits-set_bits (suc n) i pos bits h =
    ap
      (λ b.
        if b
        then test_bits n (i + 1) pos (set_bits n (i + 1) pos (set bits (pos i) true))
        else false)
      (get_or-set_bits n (i + 1) pos (set bits (pos i) true) (pos i)
        (get_or-set_self bits (pos i) (h i)))
    ∙ test_bits-set_bits n (i + 1) pos (set bits (pos i) true)
        (λ k. omega (arith, h k, length-set bits (pos i) true))

-- More bits keep a test true.
test_bits_more :
    (n i : ℕ) (pos : ℕ → ℕ) (bits bits' : List Bool)
    → ((p : ℕ) → get_or bits p false ≡ true → get_or bits' p false ≡ true)
    → test_bits n i pos bits ≡ true
    → test_bits n i pos bits' ≡ true
unfolding test_bits
test_bits_more zero i pos bits bits' m h = refl
test_bits_more (suc n) i pos bits bits' m h = elim (Bool-cases (get_or bits (pos i) false)) [
  | inl e ↦
      ap (λ b. if b then test_bits n (i + 1) pos bits' else false) (m (pos i) e)
      ∙ test_bits_more n (i + 1) pos bits bits' m
          (sym (ap (λ b. if b then test_bits n (i + 1) pos bits else false) e) ∙ h)
  | inr e ↦ absurd (cc (sym (ap (λ b. if b then test_bits n (i + 1) pos bits else false) e) ∙ h))
]

abbrev pub add_all : BloomFilter → List (List ℕ) → BloomFilter
add_all bf [] = bf
add_all bf (key ∷ keys) = add_all (bloom_add bf key) keys

add_all-keeps :
    (bf : BloomFilter) (keys : List (List ℕ)) (key : List ℕ)
    → bloom_may_contain bf key ≡ true
    → bloom_may_contain (add_all bf keys) key ≡ true
unfolding bloom_may_contain bloom_add
add_all-keeps bf [] key h = h
add_all-keeps bf (k ∷ keys) key h = add_all-keeps (bloom_add bf k) keys key (
    test_bits_more bf.num_hashes 0 (positions bf key) bf.bits
      (set_bits bf.num_hashes 0 (positions bf k) bf.bits)
      (λ p. get_or-set_bits bf.num_hashes 0 (positions bf k) bf.bits p) h)

positions-inside :
    (bf : BloomFilter) (key : List ℕ) → IsSized bf → (k : ℕ) → positions bf key k < length bf.bits
positions-inside bf key s k = omega (
  arith,
  s.sized,
  mod-lt ((murmur_hash3_32 key 0 + k * murmur_hash3_32 key (murmur_hash3_32 key 0)) % u32)
      s.positive,
)

bloom_may_contain_now :
    (bf : BloomFilter) (key : List ℕ) → IsSized bf → bloom_may_contain (bloom_add bf key) key ≡ true
unfolding bloom_may_contain bloom_add
bloom_may_contain_now bf key s =
    test_bits-set_bits bf.num_hashes 0 (positions bf key) bf.bits (positions-inside bf key s)

-- A filter that is created for a number of keys whose bits can be counted in 64 bits has bits, all of
-- them in its array.
pub bloom_create-IsSized :
    (estimated_keys : ℕ) → estimated_keys < 2 ^ 59 → IsSized (bloom_create estimated_keys)
unfolding bloom_create
bloom_create-IsSized zero h = record { sized = length-replicate _ false; positive = omega arith }
bloom_create-IsSized (suc n) h = record { sized = length-replicate _ false; positive = omega arith }

-- A key that was added to a filter, before whatever other keys, may be contained in it: there are no
-- false negatives.
pub bloom_may_contain-bloom_add :
    (bf : BloomFilter) (key : List ℕ) (later : List (List ℕ))
    → IsSized bf
    → bloom_may_contain (add_all (bloom_add bf key) later) key ≡ true
bloom_may_contain-bloom_add bf key later s =
    add_all-keeps (bloom_add bf key) later key (bloom_may_contain_now bf key s)
