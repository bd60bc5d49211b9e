-- ===== src/Engine/SkipList/Search.antt =====
-- The search over all levels ends where a walk along the lowest level would end.
use Prim.Native.Nat.{lt}
use first_principle_cs.Base.{
  ℕ, zero, suc, ◌≤◌, ◌≡◌, refl, sym, ap, ◌∙◌, List, [], ◌∷◌, true, false, Bool-cases, inl, inr, ltb,
  if◌then◌else◌, if_case, arith,
}
use first_principle_cs.Engine.Compare.{default_compare, is_less, default_compare_trans}
use first_principle_cs.Engine.SkipList.{SkipNode, walk, search}

abbrev pub AllAbove : List ℕ → List SkipNode → Type 0
AllAbove key [] = Unit {0}
AllAbove key (n ∷ ns) = (default_compare key n.key ≡ lt) × AllAbove key ns

abbrev pub Ascending : List SkipNode → Type 0
Ascending [] = Unit {0}
Ascending (n ∷ ns) = AllAbove n.key ns × Ascending ns

abbrev pub AllLevels : ℕ → List SkipNode → Type 0
AllLevels top [] = Unit {0}
AllLevels top (n ∷ ns) = (1 ≤ n.level) × (n.level ≤ top) × AllLevels top ns

-- The first node whose key is not below `key`, and those behind it.
abbrev pub drop_below : List ℕ → List SkipNode → List SkipNode
drop_below key [] = []
drop_below key (n ∷ ns) =
    let rest = drop_below key ns in if is_less (default_compare n.key key) then rest else n ∷ ns

-- No node of `ns` is below `key`.
abbrev NoneBelow : List ℕ → List SkipNode → Type 0
NoneBelow key [] = Unit {0}
NoneBelow key (n ∷ ns) = (is_less (default_compare n.key key) ≡ false) × NoneBelow key ns

walk-stays :
    (i : ℕ) (key : List ℕ) (rest scan : List SkipNode)
    → NoneBelow key scan
    → walk i key rest scan ≡ rest
unfolding walk
walk-stays i key rest [] h = refl
walk-stays i key rest (n ∷ scan) h = ground (arith, walk-stays i key rest scan h.1)

is_less→lt : (a b : List ℕ) → is_less (default_compare a b) ≡ true → default_compare a b ≡ lt
is_less→lt a b h = ground arith

not_less_trans :
    (a b c : List ℕ)
    → is_less (default_compare a c) ≡ false
    → default_compare a b ≡ lt
    → is_less (default_compare b c) ≡ false
not_less_trans a b c h k = elim (Bool-cases (is_less (default_compare b c))) [
  | inl less ↦ absurd (cc (ap is_less (default_compare_trans a b c k (is_less→lt b c less)), h))
  | inr not_less ↦ not_less
]

not_less_before :
    (key : List ℕ) (n : SkipNode) (ns : List SkipNode)
    → is_less (default_compare n.key key) ≡ false
    → AllAbove n.key ns
    → NoneBelow key ns
not_less_before key n [] h a = tt
not_less_before key n (m ∷ ns) h a =
    (not_less_trans n.key m.key key h a.0, not_less_before key n ns h a.1)

walk-drop_below :
    (i : ℕ) (key : List ℕ) (rest scan : List SkipNode)
    → Ascending scan
    → drop_below key rest ≡ drop_below key scan
    → drop_below key (walk i key rest scan) ≡ drop_below key rest
unfolding walk
walk-drop_below i key rest [] a e = refl
walk-drop_below i key rest (n ∷ scan) a e =
    elim (Bool-cases (is_less (default_compare n.key key))) [
      | inl less ↦
          let e' : drop_below key rest ≡ drop_below key scan = e ∙ ground (arith, less) in
          if_case P (ltb i n.level) _ _
            (λ _.
              if_case P (is_less (default_compare n.key key)) _ _
                (λ _. walk-drop_below i key scan scan a.1 refl ∙ sym e') (λ _. refl))
            (λ _. walk-drop_below i key rest scan a.1 e')
      | inr not_less ↦
          if_case P (ltb i n.level) _ _
            (λ _.
              if_case P (is_less (default_compare n.key key)) _ _
                (λ less. absurd (cc (less, not_less))) (λ _. refl))
            (λ _.
              ap (drop_below key)
                (walk-stays i key rest scan (not_less_before key n scan not_less a.0)))
    ]
  where
    P : List SkipNode → Type 0
    P r = drop_below key r ≡ drop_below key rest

-- What holds of a list and of every tail of it holds of where the walk ends.
walk-tail :
    (P : List SkipNode → Type 0)
    → ((n : SkipNode) (ns : List SkipNode) → P (n ∷ ns) → P ns)
    → (i : ℕ) (key : List ℕ) (rest scan : List SkipNode) → P rest
    → P scan
    → P (walk i key rest scan)
unfolding walk
walk-tail P tail i key rest [] r s = r
walk-tail P tail i key rest (n ∷ scan) r s =
    let s' = tail n scan s in
    if_case P (ltb i n.level) _ _
      (λ _.
        if_case P (is_less (default_compare n.key key)) _ _
          (λ _. walk-tail P tail i key scan scan s' s') (λ _. r))
      (λ _. walk-tail P tail i key rest scan r s')

walk-lowest :
    (top : ℕ) (key : List ℕ) (rest : List SkipNode)
    → AllLevels top rest
    → walk 0 key rest rest ≡ drop_below key rest
unfolding walk
walk-lowest top key [] a = refl
walk-lowest top key (n ∷ ns) a =
    if_case (λ r. r ≡ drop_below key (n ∷ ns)) (ltb 0 n.level) _ _
      (λ _.
        if_case (λ r. r ≡ drop_below key (n ∷ ns)) (is_less (default_compare n.key key)) _ _
          (λ less. walk-lowest top key ns a.2 ∙ ground (arith, less))
          (λ more. ground (arith, more)))
      (λ none. absurd (ground arith))

-- On an ascending list whose nodes have at least one level, the search from any positive level ends at
-- the first node that is not below the key.
pub search-drop_below :
    (i top : ℕ) (key : List ℕ) (rest : List SkipNode)
    → Ascending rest
    → AllLevels top rest
    → search (suc i) key rest ≡ drop_below key rest
unfolding search
search-drop_below zero top key rest a l = walk-lowest top key rest l
search-drop_below (suc i) top key rest a l =
    search-drop_below i top key (walk (suc i) key rest rest)
      (walk-tail Ascending (λ n ns h. h.1) (suc i) key rest rest a a)
      (walk-tail (AllLevels top) (λ n ns h. h.2) (suc i) key rest rest l l)
    ∙ walk-drop_below (suc i) key rest rest a refl
