-- ===== src/Tx/Version/RoundTrip.antt =====
-- A versioned key, taken apart again.
use first_principle_cs.Base.{
  ℕ, zero, suc, ◌+◌, ◌-◌, ◌*◌, ◌/◌, ◌%◌, ◌^◌, ◌<◌, ◌≡◌, ◌≢◌, refl, ap, ◌∙◌, List, [], ◌∷◌, ◌++◌,
  Bool, false, ltb, if◌then◌else◌, length, length-append, drop, get_or, u64, arith,
}
use native.Mathlib.Nat.{pow-suc}
use first_principle_cs.Base.Bytes.{take_prefix}
use first_principle_cs.Tx.Version.{
  ok, corruption, tx_version_sep, be_bytes, from_be, invert64, version_encode_key, decode_at,
  version_decode_key,
}

pub length-be_bytes : (n x : ℕ) → length (be_bytes n x) ≡ n
unfolding be_bytes
length-be_bytes zero x = refl
length-be_bytes (suc n) x =
    omega (arith, length-be_bytes n (x / 256), length-append (be_bytes n (x / 256)) (x % 256 ∷ []))

from_be-append :
    (acc : ℕ) (bs : List ℕ) (b : ℕ) → from_be acc (bs ++ (b ∷ [])) ≡ from_be acc bs * 256 % u64 + b
unfolding from_be
from_be-append acc [] b = refl
from_be-append acc (c ∷ bs) b = from_be-append (acc * 256 % u64 + c) bs b

pub from_be-be_bytes : (n x : ℕ) → x < 256 ^ n → x < u64 → from_be 0 (be_bytes n x) ≡ x
unfolding be_bytes from_be
from_be-be_bytes zero x h h' = omega arith
from_be-be_bytes (suc n) x h h' =
    from_be-append 0 (be_bytes n (x / 256)) (x % 256)
    ∙ omega (arith, from_be-be_bytes n (x / 256) (omega (arith, pow-suc 256 n)) (omega arith))

get_or_past : (xs : List ℕ) (y : ℕ) (rest : List ℕ) → get_or (xs ++ (y ∷ rest)) (length xs) 0 ≡ y
get_or_past [] y rest = refl
get_or_past (x ∷ xs) y rest = get_or_past xs y rest

drop_past : (xs : List ℕ) (y : ℕ) (rest : List ℕ) → drop (length xs + 1) (xs ++ (y ∷ rest)) ≡ rest
drop_past [] y rest = refl
drop_past (x ∷ xs) y rest =
    ap (λ k. drop k (x ∷ (xs ++ (y ∷ rest)))) {y = suc (length xs + 1)} (omega arith)
    ∙ drop_past xs y rest

decode_at_lem :
    (key : List ℕ) (version : ℕ)
    → version < u64
    → decode_at (key ++ (tx_version_sep ∷ be_bytes 8 (invert64 version))) (length key)
      ≡ (ok, key, version)
decode_at_lem key version small =
    rw
      (
        get_or_past key tx_version_sep stamp,
        take_prefix (length key) key (tx_version_sep ∷ stamp) refl,
        drop_past key tx_version_sep stamp,
        from_be-be_bytes 8 (invert64 version) (omega arith) (omega arith),
      )
      (ap (λ v. (ok, key, v)) (omega arith))
  where
    stamp : List ℕ
    stamp = be_bytes 8 (invert64 version)

-- Encoding a key that is not empty with a 64-bit version, and decoding the result, gives back the key
-- and the version, also when the key contains the separator.
pub version_decode_key-version_encode_key :
    (key : List ℕ) (version : ℕ)
    → key ≢ []
    → version < u64
    → version_decode_key (version_encode_key key version) ≡ (ok, key, version)
unfolding version_decode_key version_encode_key
version_decode_key-version_encode_key [] version h small = absurd (h refl)
version_decode_key-version_encode_key (b ∷ bs) version h small =
    ap (λ (c : Bool). if c then (corruption, [], 0) else decode_at bytes (length bytes - 1 - 8))
      (not_short)
    ∙ ap (decode_at bytes) {y = length (b ∷ bs)} (omega (arith, long))
    ∙ decode_at_lem (b ∷ bs) version small
  where
    bytes : List ℕ
    bytes = (b ∷ bs) ++ (tx_version_sep ∷ be_bytes 8 (invert64 version))

    long : length bytes ≡ length (b ∷ bs) + 9
    long = omega (
      arith,
      length-append (b ∷ bs) (tx_version_sep ∷ be_bytes 8 (invert64 version)),
      length-be_bytes 8 (invert64 version),
    )

    not_short : ltb (length bytes) 10 ≡ false
    not_short = ground (arith, long)
