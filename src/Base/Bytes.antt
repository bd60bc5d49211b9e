-- ===== src/Base/Bytes.antt =====
-- Integers as bytes, the way `memcpy` copies them on a little-endian machine, lowest byte first, and
-- reading from a buffer.
use Prim.Native.Nat.{ℕ, zero, suc, ◌+◌, ◌-◌, ◌*◌, ◌/◌, ◌%◌, ◌^◌, ◌<◌, ◌≤◌}
use mathlib.Core.Path.{◌≡◌, refl, ap, ◌∙◌}
use mathlib.Core.Bool.{false}
use mathlib.Core.Option.{Option, none, some}
use mathlib.Core.List.{List, [], ◌∷◌, ◌++◌}
use native.Mathlib.Omega.{arith}
use native.Mathlib.Nat.{pow-suc}
use first_principle_cs.Base.Tests.{ltb, lt→ltb, if◌then◌else◌}
use first_principle_cs.Base.Lists.{length, take, drop, length-append}

unfoldable pub to_bytes : ℕ → ℕ → List ℕ
to_bytes zero x = []
to_bytes (suc n) x = x % 256 ∷ to_bytes n (x / 256)

unfoldable pub from_bytes : List ℕ → ℕ
from_bytes [] = 0
from_bytes (b ∷ bs) = b + 256 * from_bytes bs

-- `n` bytes, if so many are left, and what follows.
unfoldable pub read_bytes : ℕ → List ℕ → Option (List ℕ × List ℕ)
read_bytes n bytes = if ltb (length bytes) n then none else some (take n bytes, drop n bytes)

pub length-to_bytes : (n x : ℕ) → length (to_bytes n x) ≡ n
unfolding to_bytes
length-to_bytes zero x = refl
length-to_bytes (suc n) x = ap suc (length-to_bytes n (x / 256))

pub take_prefix : (n : ℕ) (xs rest : List ℕ) → length xs ≡ n → take n (xs ++ rest) ≡ xs
take_prefix zero [] rest h = refl
take_prefix zero (x ∷ xs) rest h = absurd (omega arith)
take_prefix (suc n) [] rest h = absurd (omega arith)
take_prefix (suc n) (x ∷ xs) rest h = ap (◌∷◌ x) (take_prefix n xs rest (omega arith))

pub drop_prefix : (n : ℕ) (xs rest : List ℕ) → length xs ≡ n → drop n (xs ++ rest) ≡ rest
drop_prefix zero [] rest h = refl
drop_prefix zero (x ∷ xs) rest h = absurd (omega arith)
drop_prefix (suc n) [] rest h = absurd (omega arith)
drop_prefix (suc n) (x ∷ xs) rest h = drop_prefix n xs rest (omega arith)

-- Reading exactly the bytes that stand first.
pub read_bytes-append :
    (n : ℕ) (xs rest : List ℕ) → length xs ≡ n → read_bytes n (xs ++ rest) ≡ some (xs, rest)
unfolding read_bytes
read_bytes-append n xs rest h = rw (not_short, taken, dropped) refl
  where
    not_short : ltb (length (xs ++ rest)) n ≡ false
    not_short = ground (arith, length-append xs rest)

    taken : take n (xs ++ rest) ≡ xs
    taken = take_prefix n xs rest h

    dropped : drop n (xs ++ rest) ≡ rest
    dropped = drop_prefix n xs rest h

pub from_bytes-to_bytes : (n x : ℕ) → x < 256 ^ n → from_bytes (to_bytes n x) ≡ x
unfolding to_bytes from_bytes
from_bytes-to_bytes zero x h = omega arith
from_bytes-to_bytes (suc n) x h =
    omega (arith, from_bytes-to_bytes n (x / 256) (omega (arith, pow-suc 256 n)))

pub read_bytes_short : (n : ℕ) (xs : List ℕ) → length xs < n → read_bytes n xs ≡ none
unfolding read_bytes
read_bytes_short n xs h = rw (lt→ltb (length xs) n h) refl

pub take-append_ge :
    (n : ℕ) (xs ys : List ℕ) → length xs ≤ n → take n (xs ++ ys) ≡ xs ++ take (n - length xs) ys
take-append_ge n [] ys h = ap (λ k. take k ys) {y = n - 0} (omega arith)
take-append_ge zero (x ∷ xs) ys h = absurd (omega arith)
take-append_ge (suc n) (x ∷ xs) ys h = ap (x ∷◌) (
    take-append_ge n xs ys (omega arith)
    ∙ ap (λ k. xs ++ take k ys) {y = suc n - length (x ∷ xs)} (omega arith))
