-- ===== src/Tx/Manager/Reads.antt =====
-- Reads and conflict checks, against the newest version of a key among all entries.
use first_principle_cs.Base.{
  ℕ, zero, suc, ◌-◌, ◌<◌, ◌≤◌, ◌≡◌, ◌≢◌, refl, sym, ap, ◌∙◌, List, [], ◌∷◌, Option, none, some,
  false, Bool-cases, inl, inr, if_case, if◌then◌else◌, leb, length, u64, arith,
}
use first_principle_cs.Engine.Compare.{default_compare, is_less}
use first_principle_cs.Engine.SkipList.{SkipNode, SkipList, find, seek, next}
use first_principle_cs.Engine.SkipList.Search.{drop_below}
use first_principle_cs.Engine.SkipList.Map.{entries}
use first_principle_cs.Engine.SkipList.Put.{IsValid, find-drop_below}
use first_principle_cs.Engine.Storage.{Storage, skip_deleted, storage_iter_seek, storage_iter_next}
use first_principle_cs.Tx.Version.{TxStatus, ok, not_found, version_encode_key, version_decode_key}
use first_principle_cs.Tx.Version.Order.{HasNoSep}
use first_principle_cs.Tx.WriteSet.{same_key}
use first_principle_cs.Tx.Manager.{
  visible_value, read_version, scan_versions, read_storage, first_version, version_if_same,
  get_latest_commit_ts,
}
use first_principle_cs.Tx.Manager.Versions.{
  IsVersion, AllVersions, newest, first_found, first_if_same, newest-first_found, decode-IsVersion,
  same_key-eq, candidate,
}

abbrev pub AllLive : List SkipNode → Type 0
AllLive [] = Unit {0}
AllLive (n ∷ ns) = (n.deleted ≡ false) × AllLive ns

-- A storage that holds versions only, none of them deleted by the storage itself.
pub record IsStore (storage : Storage) : Type 0 where
  pub valid : IsValid storage.memtable.list
  pub versions : AllVersions storage.memtable.list.nodes
  pub live : AllLive storage.memtable.list.nodes

-- What a reader gets of the version that it found.
abbrev pub seen : Option (ℕ × List ℕ) → TxStatus × List ℕ
seen none = (not_found, [])
seen (some (v, value)) = visible_value value

abbrev pub version_or_zero : Option (ℕ × List ℕ) → ℕ
version_or_zero none = 0
version_or_zero (some (v, value)) = v

length-skip_deleted : (ns : List SkipNode) → length (skip_deleted ns) ≤ length ns
unfolding skip_deleted
length-skip_deleted [] = omega arith
length-skip_deleted (n ∷ ns) = ground (arith, length-skip_deleted ns)

skip_deleted-AllLive : (ns : List SkipNode) → AllLive ns → skip_deleted ns ≡ ns
unfolding skip_deleted
skip_deleted-AllLive [] l = refl
skip_deleted-AllLive (n ∷ ns) (h, l) = ap (λ b. if b then skip_deleted ns else n ∷ ns) h

drop_below-AllLive : (key : List ℕ) (ns : List SkipNode) → AllLive ns → AllLive (drop_below key ns)
drop_below-AllLive key [] l = tt
drop_below-AllLive key (n ∷ ns) (h, l) =
    if_case AllLive (is_less (default_compare n.key key)) _ _ (λ _. drop_below-AllLive key ns l)
      (λ _. (h, l))

scan_versions_same :
    (n m : ℕ) (key : List ℕ) (start_ts : ℕ) (current : List SkipNode)
    → length current ≤ n
    → length current ≤ m
    → scan_versions n key start_ts current ≡ scan_versions m key start_ts current
unfolding scan_versions next
scan_versions_same zero zero key start_ts current h k = refl
scan_versions_same zero (suc m) key start_ts [] h k = refl
scan_versions_same zero (suc m) key start_ts (x ∷ rest) h k = absurd (omega arith)
scan_versions_same (suc n) zero key start_ts [] h k = refl
scan_versions_same (suc n) zero key start_ts (x ∷ rest) h k = absurd (omega arith)
scan_versions_same (suc n) (suc m) key start_ts [] h k = refl
scan_versions_same (suc n) (suc m) key start_ts (x ∷ rest) h k =
    ap (read_version key start_ts x.value (version_decode_key x.key)) (
      scan_versions_same n m key start_ts (skip_deleted rest)
        (omega (arith, length-skip_deleted rest)) (omega (arith, length-skip_deleted rest)))

abbrev Returns : Option (TxStatus × List ℕ) → Type 0
Returns o = (r : TxStatus × List ℕ) × (o ≡ some r)

read_version-Returns :
    (key : List ℕ) (start_ts : ℕ) (value : List ℕ) (d : TxStatus × List ℕ × ℕ)
    (next : Option (TxStatus × List ℕ))
    → Returns next
    → Returns (read_version key start_ts value d next)
read_version-Returns key start_ts value (TxStatus.ok, k, v) next h =
    if_case Returns (same_key k key) _ _
      (λ _. if_case Returns (leb v start_ts) _ _ (λ _. (visible_value value, refl)) (λ _. h))
      (λ _. ((not_found, []), refl))
read_version-Returns key start_ts value (TxStatus.not_found, k, v) next h = h
read_version-Returns key start_ts value (TxStatus.conflict, k, v) next h = h
read_version-Returns key start_ts value (TxStatus.aborted, k, v) next h = h
read_version-Returns key start_ts value (TxStatus.io_error, k, v) next h = h
read_version-Returns key start_ts value (TxStatus.invalid_arg, k, v) next h = h
read_version-Returns key start_ts value (TxStatus.no_memory, k, v) next h = h
read_version-Returns key start_ts value (TxStatus.corruption, k, v) next h = h

scan_versions-Returns :
    (n : ℕ) (key : List ℕ) (start_ts : ℕ) (current : List SkipNode)
    → length current ≤ n
    → Returns (scan_versions n key start_ts current)
unfolding scan_versions next
scan_versions-Returns zero key start_ts [] h = ((not_found, []), refl)
scan_versions-Returns zero key start_ts (x ∷ rest) h = absurd (omega arith)
scan_versions-Returns (suc n) key start_ts [] h = ((not_found, []), refl)
scan_versions-Returns (suc n) key start_ts (x ∷ rest) h =
    read_version-Returns key start_ts x.value (version_decode_key x.key) _ (
      scan_versions-Returns n key start_ts (skip_deleted rest)
        (omega (arith, length-skip_deleted rest)))

-- The loop of tx_get ends after at most as many rounds as there are entries from the iterator on, whatever
-- the entries are: with so much fuel it has a result, and with more it has the same one.
pub scan_versions_enough :
    (n : ℕ) (key : List ℕ) (start_ts : ℕ) (current : List SkipNode)
    → length current ≤ n
    → (r : TxStatus × List ℕ) × (scan_versions (length current) key start_ts current ≡ some r)
      × (scan_versions n key start_ts current ≡ some r)
scan_versions_enough n key start_ts current h =
    let (r, ends) = scan_versions-Returns (length current) key start_ts current (omega arith) in
    (r, ends, scan_versions_same n (length current) key start_ts current h (omega arith) ∙ ends)

seeks :
    (list : SkipList) (key : List ℕ) (ts : ℕ)
    → seek list [] (version_encode_key key ts) ≡ find list (version_encode_key key ts)
unfolding seek version_encode_key
seeks list [] ts = refl
seeks list (b ∷ bs) ts = refl

seek-drop_below :
    (storage : Storage) (key : List ℕ) (ts : ℕ)
    → IsStore storage
    → storage_iter_seek storage [] (version_encode_key key ts)
      ≡ drop_below (version_encode_key key ts) storage.memtable.list.nodes
seek-drop_below storage key ts s =
    ap skip_deleted (
      seeks storage.memtable.list key ts
      ∙ find-drop_below storage.memtable.list (version_encode_key key ts) s.valid)
    ∙ skip_deleted-AllLive _
        (drop_below-AllLive (version_encode_key key ts) storage.memtable.list.nodes s.live)

-- The loop stops at the first entry.
scan-first_found :
    (fuel : ℕ) (key : List ℕ) (ts : ℕ) (ns : List SkipNode)
    → IsVersion (version_encode_key key ts)
    → key ≢ []
    → HasNoSep key
    → ts < u64
    → AllVersions ns
    → length (drop_below (version_encode_key key ts) ns) ≤ fuel
    → scan_versions fuel key ts (drop_below (version_encode_key key ts) ns)
      ≡ some (seen (first_found key (drop_below (version_encode_key key ts) ns)))
unfolding scan_versions
scan-first_found zero key ts [] b h k small v = λ _. refl
scan-first_found (suc fuel) key ts [] b h k small v = λ _. refl
scan-first_found fuel key ts (n ∷ ns) b h k small (i, v) =
    if_case (λ p. length p ≤ fuel → scan_versions fuel key ts p ≡ some (seen (first_found key p)))
      (is_less (default_compare n.key (version_encode_key key ts))) _ _
      (λ _. scan-first_found fuel key ts ns b h k small v) (λ not_less. first fuel not_less)
  where
    shown :
        (next : Option (TxStatus × List ℕ))
        → is_less (default_compare n.key (version_encode_key key ts)) ≡ false
        → read_version key ts n.value (ok, i.key, i.version) next
          ≡ some (seen (first_if_same key (ok, i.key, i.version) n.value))
    shown next not_less = elim (Bool-cases (same_key i.key key)) [
      | inl same ↦
          rw
            (
              same,
              candidate i key ts
                  (record {
                    key = key;
                    version = ts;
                    shape = refl;
                    nonempty = h;
                    no_sep = k;
                    small = small;
                  })
                  refl refl not_less (same_key-eq i.key key same),
            )
            refl
      | inr other ↦ rw other refl
    ]

    first :
        (f : ℕ)
        → is_less (default_compare n.key (version_encode_key key ts)) ≡ false
        → length (n ∷ ns) ≤ f
        → scan_versions f key ts (n ∷ ns) ≡ some (seen (first_found key (n ∷ ns)))
    first zero not_less long = absurd (omega arith)
    first (suc f) not_less long =
        ap
          (λ d. read_version key ts n.value d (scan_versions f key ts (storage_iter_next (n ∷ ns))))
          (decode-IsVersion i)
        ∙ shown (scan_versions f key ts (storage_iter_next (n ∷ ns))) not_less
        ∙ sym (ap (λ d. some (seen (first_if_same key d n.value))) (decode-IsVersion i))

-- What tx_get finds in the storage is the newest version of the key that is not after the snapshot, of
-- all the versions that the storage holds; a version with the empty value reads as not found, and so
-- does a key without any such version.
pub read_storage_lem :
    (storage : Storage) (start_ts : ℕ) (key : List ℕ)
    → IsStore storage
    → key ≢ []
    → HasNoSep key
    → start_ts < u64
    → read_storage storage start_ts key
      ≡ some (seen (newest key start_ts (entries storage.memtable.list.nodes)))
unfolding read_storage
read_storage_lem storage start_ts key s h k small =
    ap (λ c. scan_versions (length c) key start_ts c) (seek-drop_below storage key start_ts s)
    ∙ scan-first_found _ key start_ts storage.memtable.list.nodes
        (record {
          key = key;
          version = start_ts;
          shape = refl;
          nonempty = h;
          no_sep = k;
          small = small;
        })
        h k small s.versions (omega arith)
    ∙ sym (
        ap (λ o. some (seen o))
          (newest-first_found key start_ts storage.memtable.list.nodes h k small s.valid.ascending
            s.versions))

version_if_same-first_if_same :
    (key value : List ℕ) (d : TxStatus × List ℕ × ℕ)
    → version_if_same key d ≡ version_or_zero (first_if_same key d value)
version_if_same-first_if_same key value (TxStatus.ok, k, v) =
    if_case (λ o. (if same_key k key then v else 0) ≡ version_or_zero o) (same_key k key) _ _
      (λ h. ap (λ b. if b then v else 0) h) (λ h. ap (λ b. if b then v else 0) h)
version_if_same-first_if_same key value (TxStatus.not_found, k, v) = refl
version_if_same-first_if_same key value (TxStatus.conflict, k, v) = refl
version_if_same-first_if_same key value (TxStatus.aborted, k, v) = refl
version_if_same-first_if_same key value (TxStatus.io_error, k, v) = refl
version_if_same-first_if_same key value (TxStatus.invalid_arg, k, v) = refl
version_if_same-first_if_same key value (TxStatus.no_memory, k, v) = refl
version_if_same-first_if_same key value (TxStatus.corruption, k, v) = refl

first_version-first_found :
    (key : List ℕ) (ns : List SkipNode)
    → first_version key ns ≡ version_or_zero (first_found key ns)
first_version-first_found key [] = refl
first_version-first_found key (n ∷ ns) =
    version_if_same-first_if_same key n.value (version_decode_key n.key)

-- get_latest_commit_ts gives the newest of all versions of the key, and 0 for a key without one.
pub get_latest_commit_ts_lem :
    (storage : Storage) (key : List ℕ)
    → IsStore storage
    → key ≢ []
    → HasNoSep key
    → get_latest_commit_ts storage key
      ≡ version_or_zero (newest key (u64 - 1) (entries storage.memtable.list.nodes))
unfolding get_latest_commit_ts
get_latest_commit_ts_lem storage key s h k =
    ap (first_version key) (seek-drop_below storage key (u64 - 1) s)
    ∙ first_version-first_found key
        (drop_below (version_encode_key key (u64 - 1)) storage.memtable.list.nodes)
    ∙ sym (
        ap version_or_zero (
          newest-first_found key (u64 - 1) storage.memtable.list.nodes h k (omega arith)
            s.valid.ascending s.versions))
