-- ===== src/Engine/Compare.antt =====
-- `default_compare` of skiplist.c, the order of keys: byte by byte as unsigned numbers, and a proper
-- prefix first. The sign of the result is an `Ordering`.
use Prim.Native.Nat.{compare, Ordering, lt, eq, gt}
use first_principle_cs.Base.{ℕ, ◌≡◌, refl, List, [], ◌∷◌, Bool, true, false, arith}

abbrev pub first_or : Ordering → Ordering → Ordering
first_or lt rest = lt
first_or gt rest = gt
first_or eq rest = rest

abbrev pub default_compare : List ℕ → List ℕ → Ordering
default_compare [] [] = eq
default_compare [] (y ∷ ys) = lt
default_compare (x ∷ xs) [] = gt
default_compare (x ∷ xs) (y ∷ ys) = first_or (compare x y) (default_compare xs ys)

abbrev pub is_less : Ordering → Bool
is_less lt = true
is_less eq = false
is_less gt = false

abbrev pub is_equal : Ordering → Bool
is_equal eq = true
is_equal lt = false
is_equal gt = false

abbrev pub by_order {ℓ} : {A : Type ℓ} → Ordering → A → A → A → A
by_order lt x y z = x
by_order eq x y z = y
by_order gt x y z = z

-- What holds of each of the three cases holds of the choice.
pub order_case {ℓ κ} :
    {A : Type ℓ} (P : A → Type κ) (o : Ordering) (x y z : A)
    → (o ≡ lt → P x)
    → (o ≡ eq → P y)
    → (o ≡ gt → P z)
    → P (by_order o x y z)
order_case P lt x y z f g h = f refl
order_case P eq x y z f g h = g refl
order_case P gt x y z f g h = h refl

pub default_compare_refl : (a : List ℕ) → default_compare a a ≡ eq
default_compare_refl [] = refl
default_compare_refl (x ∷ xs) = ground (arith, default_compare_refl xs)

pub default_compare-eq : (a b : List ℕ) → default_compare a b ≡ eq → a ≡ b
default_compare-eq [] [] h = refl
default_compare-eq [] (y ∷ ys) h = cc
default_compare-eq (x ∷ xs) [] h = cc
default_compare-eq (x ∷ xs) (y ∷ ys) h = ground (arith, default_compare-eq xs ys)

pub default_compare-gt : (a b : List ℕ) → default_compare a b ≡ gt → default_compare b a ≡ lt
default_compare-gt [] [] h = cc
default_compare-gt [] (y ∷ ys) h = cc
default_compare-gt (x ∷ xs) [] h = refl
default_compare-gt (x ∷ xs) (y ∷ ys) h = ground (arith, default_compare-gt xs ys)

pub default_compare_trans :
    (a b c : List ℕ)
    → default_compare a b ≡ lt
    → default_compare b c ≡ lt
    → default_compare a c ≡ lt
default_compare_trans [] [] c h k = cc
default_compare_trans [] (y ∷ ys) [] h k = cc
default_compare_trans [] (y ∷ ys) (z ∷ zs) h k = refl
default_compare_trans (x ∷ xs) [] c h k = cc
default_compare_trans (x ∷ xs) (y ∷ ys) [] h k = cc
default_compare_trans (x ∷ xs) (y ∷ ys) (z ∷ zs) h k =
    ground (arith, default_compare_trans xs ys zs)

pub default_compare-lt : (a b : List ℕ) → default_compare a b ≡ lt → default_compare b a ≡ gt
default_compare-lt [] [] h = cc
default_compare-lt [] (y ∷ ys) h = refl
default_compare-lt (x ∷ xs) [] h = cc
default_compare-lt (x ∷ xs) (y ∷ ys) h = ground (arith, default_compare-lt xs ys)

pub default_compare-gt_trans :
    (a b c : List ℕ)
    → default_compare a b ≡ gt
    → default_compare b c ≡ gt
    → default_compare a c ≡ gt
default_compare-gt_trans a b c h k =
    default_compare-lt c a
      (default_compare_trans c b a (default_compare-gt b c k) (default_compare-gt a b h))
