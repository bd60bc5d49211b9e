-- ===== src/Tx/Version/Order.antt =====
-- The order of versioned keys: by key, and newer versions of a key first.
use Prim.Native.Nat.{compare, Ordering, lt, eq, gt}
use first_principle_cs.Base.{
  ℕ, zero, suc, ◌/◌, ◌%◌, ◌^◌, ◌<◌, ◌≡◌, refl, sym, ap, ◌∙◌, List, [], ◌∷◌, ◌++◌, length, u64,
  arith,
}
use native.Mathlib.Nat.{pow-suc}
use first_principle_cs.Engine.Compare.{first_or, default_compare}
use first_principle_cs.Tx.Version.{tx_version_sep, be_bytes, invert64, version_encode_key}
use first_principle_cs.Tx.Version.RoundTrip.{length-be_bytes}

first_or-eq : (o : Ordering) → first_or o eq ≡ o
first_or-eq lt = refl
first_or-eq eq = refl
first_or-eq gt = refl

first_or_assoc : (a b c : Ordering) → first_or a (first_or b c) ≡ first_or (first_or a b) c
first_or_assoc lt b c = refl
first_or_assoc eq b c = refl
first_or_assoc gt b c = refl

default_compare-append :
    (us bs cs ds : List ℕ)
    → length us ≡ length bs
    → default_compare (us ++ cs) (bs ++ ds)
      ≡ first_or (default_compare us bs) (default_compare cs ds)
default_compare-append [] [] cs ds h = refl
default_compare-append [] (b ∷ bs) cs ds h = absurd (omega arith)
default_compare-append (a ∷ us) [] cs ds h = absurd (omega arith)
default_compare-append (a ∷ us) (b ∷ bs) cs ds h =
    ap (first_or (compare a b)) (default_compare-append us bs cs ds (omega arith))
    ∙ first_or_assoc (compare a b) (default_compare us bs) (default_compare cs ds)

compare_digits :
    (x y : ℕ) → first_or (compare (x / 256) (y / 256)) (compare (x % 256) (y % 256)) ≡ compare x y
compare_digits x y = ground arith

-- Big-endian bytes are in the order of their numbers.
default_compare-be_bytes :
    (n x y : ℕ)
    → x < 256 ^ n
    → y < 256 ^ n
    → default_compare (be_bytes n x) (be_bytes n y) ≡ compare x y
unfolding be_bytes
default_compare-be_bytes zero x y h k = ground arith
default_compare-be_bytes (suc n) x y h k =
    default_compare-append (be_bytes n (x / 256)) (be_bytes n (y / 256)) (x % 256 ∷ [])
      (y % 256 ∷ []) (length-be_bytes n (x / 256) ∙ sym (length-be_bytes n (y / 256)))
    ∙ ap (λ o. first_or o (first_or (compare (x % 256) (y % 256)) eq))
        (default_compare-be_bytes n (x / 256) (y / 256) (omega (arith, pow-suc 256 n))
          (omega (arith, pow-suc 256 n)))
    ∙ ap (first_or (compare (x / 256) (y / 256))) (first_or-eq (compare (x % 256) (y % 256)))
    ∙ compare_digits x y

-- No byte of the key is the separator.
abbrev pub HasNoSep : List ℕ → Type 0
HasNoSep [] = Unit {0}
HasNoSep (b ∷ bs) = (tx_version_sep < b) × HasNoSep bs

compare_inverted : (v w : ℕ) → v < u64 → w < u64 → compare (invert64 v) (invert64 w) ≡ compare w v
compare_inverted v w h k = ground arith

-- The versioned forms of two keys without the separator are in the order of the keys, and those of one
-- key with the newer version first.
pub default_compare-version_encode_key :
    (a b : List ℕ) (v w : ℕ)
    → HasNoSep a
    → HasNoSep b
    → v < u64
    → w < u64
    → default_compare (version_encode_key a v) (version_encode_key b w)
      ≡ first_or (default_compare a b) (compare w v)
unfolding version_encode_key
default_compare-version_encode_key [] [] v w h k small small' =
    default_compare-be_bytes 8 (invert64 v) (invert64 w) (omega arith) (omega arith)
    ∙ compare_inverted v w small small'
default_compare-version_encode_key [] (b ∷ bs) v w h k small small' = ground arith
default_compare-version_encode_key (a ∷ us) [] v w h k small small' = ground arith
default_compare-version_encode_key (a ∷ us) (b ∷ bs) v w h k small small' =
    ap (first_or (compare a b)) (default_compare-version_encode_key us bs v w h.1 k.1 small small')
    ∙ first_or_assoc (compare a b) (default_compare us bs) (compare w v)
