-- ===== src/Tx/Manager/Versions.antt =====
-- Which version of a key a search of the storage finds: the newest up to a timestamp.
use Prim.Native.Nat.{compare, Ordering, lt, eq, gt}
use first_principle_cs.Base.{
  ℕ, ◌<◌, ◌≤◌, ◌≡◌, ◌≢◌, refl, sym, ap, subst, ◌∙◌, List, [], ◌∷◌, Option, none, some, true, false,
  Bool-cases, ◌&&◌, inl, inr, ltb, leb, if_case, and_left, and_right, if◌then◌else◌, u64, arith,
}
use first_principle_cs.Engine.Compare.{
  first_or, default_compare, is_less, is_equal, default_compare_refl, default_compare-eq,
}
use first_principle_cs.Engine.SkipList.{SkipNode}
use first_principle_cs.Engine.SkipList.Search.{AllAbove, Ascending, drop_below}
use first_principle_cs.Engine.SkipList.Map.{Entry, entries}
use first_principle_cs.Tx.Version.{TxStatus, ok, version_encode_key, version_decode_key}
use first_principle_cs.Tx.Version.RoundTrip.{version_decode_key-version_encode_key}
use first_principle_cs.Tx.Version.Order.{HasNoSep, default_compare-version_encode_key}
use first_principle_cs.Tx.WriteSet.{same_key}

-- A stored key is the versioned form of a key that is not empty and contains no separator.
pub record IsVersion (bytes : List ℕ) : Type 0 where
  pub key : List ℕ
  pub version : ℕ
  pub shape : bytes ≡ version_encode_key key version
  pub nonempty : key ≢ []
  pub no_sep : HasNoSep key
  pub small : version < u64

abbrev pub AllVersions : List SkipNode → Type 0
AllVersions [] = Unit {0}
AllVersions (n ∷ ns) = IsVersion n.key × AllVersions ns

-- The version of the key that a stored key stands for, if it is not after `ts`.
abbrev pub version_of : List ℕ → ℕ → TxStatus × List ℕ × ℕ → Option ℕ
version_of key ts (TxStatus.ok, found_key, version) =
    if same_key found_key key && leb version ts then some version else none
version_of key ts (s, found_key, version) = none

-- The newer of a version and what was found among the others.
abbrev pub newer : Option ℕ → List ℕ → Option (ℕ × List ℕ) → Option (ℕ × List ℕ)
newer none value rest = rest
newer (some v) value none = some (v, value)
newer (some v) value (some (w, x)) = if ltb v w then some (w, x) else some (v, value)

-- Among all entries, in whatever order, the newest version of the key up to `ts`, with its value.
unfoldable pub newest : List ℕ → ℕ → List Entry → Option (ℕ × List ℕ)
newest key ts [] = none
newest key ts (e ∷ es) =
    newer (version_of key ts (version_decode_key e.key)) e.value (newest key ts es)

-- What a search finds that looks at one entry.
abbrev pub first_if_same : List ℕ → TxStatus × List ℕ × ℕ → List ℕ → Option (ℕ × List ℕ)
first_if_same key (TxStatus.ok, found_key, version) value =
    if same_key found_key key then some (version, value) else none
first_if_same key (s, found_key, version) value = none

abbrev pub first_found : List ℕ → List SkipNode → Option (ℕ × List ℕ)
first_found key [] = none
first_found key (n ∷ rest) = first_if_same key (version_decode_key n.key) n.value

pub same_key_refl : (a : List ℕ) → same_key a a ≡ true
same_key_refl a = ap is_equal (default_compare_refl a)

pub same_key-eq : (a b : List ℕ) → same_key a b ≡ true → a ≡ b
same_key-eq a b h = default_compare-eq a b (equal (default_compare a b) h)
  where
    equal : (o : Ordering) → is_equal o ≡ true → o ≡ eq
    equal lt h = cc
    equal eq h = refl
    equal gt h = cc

pub decode-IsVersion :
    {bytes : List ℕ} (i : IsVersion bytes) → version_decode_key bytes ≡ (ok, i.key, i.version)
decode-IsVersion i =
    ap version_decode_key i.shape
    ∙ version_decode_key-version_encode_key i.key i.version i.nonempty i.small

-- Two stored keys are ordered by key, and newer versions first.
pub compare-IsVersion :
    {a b : List ℕ} (i : IsVersion a) (j : IsVersion b)
    → default_compare a b ≡ first_or (default_compare i.key j.key) (compare j.version i.version)
compare-IsVersion {a} {b} i j =
    ap (λ x. default_compare x b) i.shape
    ∙ ap (default_compare (version_encode_key i.key i.version)) j.shape
    ∙ default_compare-version_encode_key i.key j.key i.version j.version i.no_sep j.no_sep i.small
        j.small

-- Only versions before `v`, if any.
abbrev pub Older : ℕ → Option (ℕ × List ℕ) → Type 0
Older v none = Unit {0}
Older v (some (w, x)) = w < v

pub newer-Older :
    (v : ℕ) (value : List ℕ) (o : Option (ℕ × List ℕ))
    → Older v o
    → newer (some v) value o ≡ some (v, value)
newer-Older v value none h = refl
newer-Older v value (some (w, x)) h = ground arith

newer_both :
    (v w : ℕ) (value : List ℕ) (o : Option (ℕ × List ℕ))
    → w < v
    → Older v o
    → Older v (newer (some w) value o)
newer_both v w value none h k = h
newer_both v w value (some (u, x)) h k =
    if_case (Older v) (ltb w u) (some (u, x)) (some (w, value)) (λ _. k) (λ _. h)

compare-lt : (a b : ℕ) → compare a b ≡ lt → a < b
compare-lt a b h = ground arith

older_version :
    {a b : List ℕ} (i : IsVersion a) (j : IsVersion b)
    → default_compare a b ≡ lt
    → i.key ≡ j.key
    → j.version < i.version
older_version i j h e = compare-lt j.version i.version (
    sym (
      ap (λ o. first_or o (compare j.version i.version))
        (ap (default_compare i.key) (sym e) ∙ default_compare_refl i.key))
    ∙ sym (compare-IsVersion i j)
    ∙ h)

newest_cons :
    (key : List ℕ) (ts : ℕ) (m : SkipNode) (ns : List SkipNode) (j : IsVersion m.key)
    → newest key ts (entries (m ∷ ns))
      ≡ newer
          (if same_key j.key key && leb j.version ts then some j.version else none)
          m.value
          (newest key ts (entries ns))
unfolding newest
newest_cons key ts m ns j =
    ap (λ d. newer (version_of key ts d) m.value (newest key ts (entries ns))) (decode-IsVersion j)

-- Behind a version of the key come only older ones of it, and behind one of a greater key none.
newest_behind :
    (key : List ℕ) (ts : ℕ) (n : SkipNode) (ns : List SkipNode) (i : IsVersion n.key)
    → AllAbove n.key ns
    → AllVersions ns
    → ((i.key ≡ key) → Older i.version (newest key ts (entries ns)))
      × ((default_compare i.key key ≡ gt) → newest key ts (entries ns) ≡ none)
unfolding newest
newest_behind key ts n [] i a v = (λ _. tt, λ _. refl)
newest_behind key ts n (m ∷ ns) i (a, above) (j, v) =
    let (older, nothing) = newest_behind key ts n ns i above v in
    let rest = newest key ts (entries ns) in
    (
      λ same. subst (Older i.version) (sym (newest_cons key ts m ns j)) (
          if_case (λ o. Older i.version (newer o m.value rest))
            (same_key j.key key && leb j.version ts) _ _
            (λ h.
              newer_both i.version j.version m.value rest
                (older_version i j a (
                  same
                  ∙ sym
                      (same_key-eq j.key key (and_left (same_key j.key key) (leb j.version ts) h))))
                (older same))
            (λ _. older same)),
      λ greater.
          newest_cons key ts m ns j
          ∙ if_case (λ o. newer o m.value rest ≡ none) (same_key j.key key && leb j.version ts) _ _
              (λ h. absurd (
                not_lt (
                  sym (
                    ap (λ o. first_or o (compare j.version i.version))
                      (ap (default_compare i.key) (
                          same_key-eq j.key key
                            (and_left (same_key j.key key) (leb j.version ts) h))
                        ∙ greater))
                  ∙ sym (compare-IsVersion i j)
                  ∙ a)))
              (λ _. nothing greater),
    )
  where
    not_lt : gt ≢ lt
    not_lt h = cc

le→leb : (a b : ℕ) → a ≤ b → leb a b ≡ true
le→leb a b h = ground arith

module _ {bytes : List ℕ} (i : IsVersion bytes) (key : List ℕ) (ts : ℕ)
    (bound : IsVersion (version_encode_key key ts)) (same_bound : bound.key ≡ key)
    (same_ts : bound.version ≡ ts) where
  against :
      default_compare bytes (version_encode_key key ts)
      ≡ first_or (default_compare i.key key) (compare ts i.version)
  against =
      compare-IsVersion i bound
      ∙ ap (λ k. first_or (default_compare i.key k) (compare bound.version i.version)) same_bound
      ∙ ap (λ t. first_or (default_compare i.key key) (compare t i.version)) same_ts

  against_same :
      i.key ≡ key → default_compare bytes (version_encode_key key ts) ≡ compare ts i.version
  against_same e =
      against
      ∙ ap (λ o. first_or o (compare ts i.version))
          (ap (λ k. default_compare k key) e ∙ default_compare_refl key)

  -- Before the bound there is no version of the key up to it.
  no_candidate :
      is_less (default_compare bytes (version_encode_key key ts)) ≡ true
      → (same_key i.key key && leb i.version ts) ≡ false
  no_candidate less = elim (Bool-cases (same_key i.key key && leb i.version ts)) [
    | inl h ↦ absurd (
        past
          (sym (
              ap is_less (
                against_same
                  (same_key-eq i.key key (and_left (same_key i.key key) (leb i.version ts) h))))
            ∙ less)
          (and_right (same_key i.key key) (leb i.version ts) h))
    | inr h ↦ h
  ]
    where
      past : is_less (compare ts i.version) ≡ true → leb i.version ts ≢ true
      past h k = ground arith

  pub candidate :
      is_less (default_compare bytes (version_encode_key key ts)) ≡ false
      → i.key ≡ key
      → leb i.version ts ≡ true
  candidate h e = reach (sym (ap is_less (against_same e)) ∙ h)
    where
      reach : is_less (compare ts i.version) ≡ false → leb i.version ts ≡ true
      reach h = ground arith

  greater :
      is_less (default_compare bytes (version_encode_key key ts)) ≡ false
      → same_key i.key key ≡ false
      → default_compare i.key key ≡ gt
  greater h k = above (default_compare i.key key) (sym (ap is_less against) ∙ h) k
    where
      above :
          (o : Ordering)
          → is_less (first_or o (compare ts i.version)) ≡ false
          → is_equal o ≡ false
          → o ≡ gt
      above lt h k = cc
      above eq h k = cc
      above gt h k = refl

-- On the sorted list of versions, the first entry from the versioned key on is the newest one up to
-- that version, or belongs to another key.
pub newest-first_found :
    (key : List ℕ) (ts : ℕ) (ns : List SkipNode)
    → key ≢ []
    → HasNoSep key
    → ts < u64
    → Ascending ns
    → AllVersions ns
    → newest key ts (entries ns) ≡ first_found key (drop_below (version_encode_key key ts) ns)
unfolding newest
newest-first_found key ts [] h k small a v = refl
newest-first_found key ts (n ∷ ns) h k small (above, a) (i, v) =
    newest_cons key ts n ns i
    ∙ if_case
        (λ p.
          newer (if same_key i.key key && leb i.version ts then some i.version else none) n.value
            (newest key ts (entries ns))
          ≡ first_found key p)
        (is_less (default_compare n.key (version_encode_key key ts))) _ _
        (λ less.
          ap (λ b. newer (if b then some i.version else none) n.value rest)
            (no_candidate i key ts bound refl refl less)
          ∙ newest-first_found key ts ns h k small a v)
        (λ not_less. elim (Bool-cases (same_key i.key key)) [
          | inl same ↦
              ap (λ b. newer (if b && leb i.version ts then some i.version else none) n.value rest)
                same
              ∙ ap (λ b. newer (if b then some i.version else none) n.value rest)
                  (candidate i key ts bound refl refl not_less (same_key-eq i.key key same))
              ∙ newer-Older i.version n.value rest (behind.0 (same_key-eq i.key key same))
              ∙ sym (ap (λ b. if b then some (i.version, n.value) else none) same)
              ∙ sym (ap (λ d. first_if_same key d n.value) (decode-IsVersion i))
          | inr other ↦
              ap (λ b. newer (if b && leb i.version ts then some i.version else none) n.value rest)
                other
              ∙ behind.1 (greater i key ts bound refl refl not_less other)
              ∙ sym (ap (λ b. if b then some (i.version, n.value) else none) other)
              ∙ sym (ap (λ d. first_if_same key d n.value) (decode-IsVersion i))
        ])
  where
    bound : IsVersion (version_encode_key key ts)
    bound = record {
      key = key;
      version = ts;
      shape = refl;
      nonempty = h;
      no_sep = k;
      small = small;
    }

    rest : Option (ℕ × List ℕ)
    rest = newest key ts (entries ns)

    behind :
        ((i.key ≡ key) → Older i.version rest) × ((default_compare i.key key ≡ gt) → rest ≡ none)
    behind = newest_behind key ts n ns i above v
