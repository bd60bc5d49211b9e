-- ===== src/Tx/Manager/Writes.antt =====
-- What the writes of a commit do to the versions in the storage.
use first_principle_cs.Base.{
  ℕ, suc, ◌+◌, ◌<◌, ◌≤◌, ◌≡◌, ◌≢◌, refl, sym, ap, subst, ◌∙◌, List, [], ◌∷◌, none, false,
  Bool-cases, ◌⊎◌, inl, inr, leb, length, u64, arith,
}
use first_principle_cs.Engine.Compare.{default_compare, order_case, default_compare-eq}
use first_principle_cs.Engine.SkipList.{SkipNode, SkipList}
use first_principle_cs.Engine.SkipList
use first_principle_cs.Engine.SkipList.Map.{Entry, entries, store, assign}
use first_principle_cs.Engine.SkipList.Put.{IsValid, put_refines}
use first_principle_cs.Engine.Memtable.{Memtable}
use first_principle_cs.Engine.Storage.{Io, Storage, storage_put}
use first_principle_cs.Engine.Storage.Crash.{counted_up}
use first_principle_cs.Engine.Storage.Reads.{put_logged-Settled}
use first_principle_cs.Tx.Version.{version_encode_key, version_decode_key}
use first_principle_cs.Tx.Version.Order.{HasNoSep}
use first_principle_cs.Tx.WriteSet.{WriteEntry, same_key}
use first_principle_cs.Tx.Manager.{then_write, apply_writes, stored_value}
use first_principle_cs.Tx.Manager.Versions.{
  IsVersion, AllVersions, newest, newer, version_of, decode-IsVersion,
}
use first_principle_cs.Tx.Manager.Reads.{AllLive, IsStore}

module _ (change : Entry → Entry) (new : Entry) (keys : (e : Entry) → (change e).key ≡ e.key) where
  -- A new version that the reader cannot see changes nothing for it.
  newest-store :
      (key : List ℕ) (ts : ℕ) (es : List Entry)
      → version_of key ts (version_decode_key new.key) ≡ none
      → newest key ts (store change new es) ≡ newest key ts es
  unfolding newest
  newest-store key ts [] h = ap (λ o. newer o new.value none) h
  newest-store key ts (e ∷ es) h =
      order_case (λ r. newest key ts r ≡ newest key ts (e ∷ es)) (default_compare e.key new.key) _ _
        _
        (λ _.
          ap (newer (version_of key ts (version_decode_key e.key)) e.value)
            (newest-store key ts es h))
        (λ equal.
          ap
            (λ k.
              newer (version_of key ts (version_decode_key k)) (change e).value (newest key ts es))
            (keys e ∙ default_compare-eq e.key new.key equal)
          ∙ ap (λ o. newer o (change e).value (newest key ts es)) h
          ∙ sym (
              ap (λ k. newer (version_of key ts (version_decode_key k)) e.value (newest key ts es))
                (default_compare-eq e.key new.key equal)
              ∙ ap (λ o. newer o e.value (newest key ts es)) h))
        (λ _. ap (λ o. newer o new.value (newest key ts (e ∷ es))) h)

-- A key that may be written.
pub record IsKey (key : List ℕ) : Type 0 where
  pub nonempty : key ≢ []
  pub no_sep : HasNoSep key

abbrev pub AllKeys : List WriteEntry → Type 0
AllKeys [] = Unit {0}
AllKeys (w ∷ ws) = IsKey w.key × AllKeys ws

abbrev pub as_version :
    (key : List ℕ) (c : ℕ) → IsKey key → c < u64 → IsVersion (version_encode_key key c)
as_version key c k small = record {
  key = key;
  version = c;
  shape = refl;
  nonempty = k.nonempty;
  no_sep = k.no_sep;
  small = small;
}

-- A version after the snapshot is not visible to it.
pub version_of_later :
    (key other : List ℕ) (ts c : ℕ)
    → IsKey other
    → c < u64
    → ts < c
    → version_of key ts (version_decode_key (version_encode_key other c)) ≡ none
version_of_later key other ts c k small later =
    ap (version_of key ts) (decode-IsVersion (as_version other c k small))
    ∙ elim (Bool-cases (same_key other key)) [
      | inl same ↦ rw (same, late) refl
      | inr apart ↦ rw apart refl
    ]
  where
    late : leb c ts ≡ false
    late = ground arith

-- The entries of a storage of versions.
abbrev AllStored : List Entry → Type 0
AllStored [] = Unit {0}
AllStored (e ∷ es) = (IsVersion e.key × (e.deleted ≡ false)) × AllStored es

AllVersions-AllStored : (ns : List SkipNode) → AllVersions ns → AllLive ns → AllStored (entries ns)
AllVersions-AllStored [] v l = tt
AllVersions-AllStored (n ∷ ns) (i, v) (h, l) = ((i, h), AllVersions-AllStored ns v l)

AllStored-AllVersions : (ns : List SkipNode) → AllStored (entries ns) → AllVersions ns
AllStored-AllVersions [] s = tt
AllStored-AllVersions (n ∷ ns) ((i, h), s) = (i, AllStored-AllVersions ns s)

AllStored-AllLive : (ns : List SkipNode) → AllStored (entries ns) → AllLive ns
AllStored-AllLive [] s = tt
AllStored-AllLive (n ∷ ns) ((i, h), s) = (h, AllStored-AllLive ns s)

assign-AllStored :
    (bytes value : List ℕ) (es : List Entry)
    → IsVersion bytes
    → AllStored es
    → AllStored (assign bytes value es)
assign-AllStored bytes value [] i s = ((i, refl), tt)
assign-AllStored bytes value (e ∷ es) i (h, s) =
    order_case AllStored (default_compare e.key bytes) _ _ _
      (λ _. (h, assign-AllStored bytes value es i s)) (λ _. ((h.0, refl), s))
      (λ _. ((i, refl), (h, s)))

abbrev pub nodes_of : Storage → List SkipNode
nodes_of storage = storage.memtable.list.nodes

-- A put of a version keeps the storage one of versions, and adds the version or nothing.
abbrev pub PutVersion : Storage → List ℕ → List ℕ → SkipList.Status × Storage → Type 0
PutVersion storage bytes value (s, storage') =
    IsStore storage'
    × (storage'.memtable.list.count ≤ suc storage.memtable.list.count)
    × (((s ≡ SkipList.ok)
          × (entries (nodes_of storage') ≡ assign bytes value (entries (nodes_of storage))))
        ⊎ ((s ≡ SkipList.io_error) × (entries (nodes_of storage') ≡ entries (nodes_of storage))))

version_encode_key_filled : (key : List ℕ) (c : ℕ) → version_encode_key key c ≢ []
unfolding version_encode_key
version_encode_key_filled [] c h = cc
version_encode_key_filled (b ∷ bs) c h = cc

IsStore-entries :
    (storage : Storage)
    → IsValid storage.memtable.list
    → AllStored (entries (nodes_of storage))
    → IsStore storage
IsStore-entries storage v s = record {
  valid = v;
  versions = AllStored-AllVersions (nodes_of storage) s;
  live = AllStored-AllLive (nodes_of storage) s;
}

pub storage_put-PutVersion :
    (io : Io) (storage : Storage) (key value : List ℕ) (c : ℕ)
    → IsStore storage
    → IsKey key
    → c < u64
    → storage.memtable.list.count + 1 < u64
    → PutVersion storage
        (version_encode_key key c)
        value
        (storage_put io storage (version_encode_key key c) value)
unfolding storage_put
storage_put-PutVersion io storage key value c s k small room =
    let bytes = version_encode_key key c in
    let list = storage.memtable.list in
    elim (put_logged-Settled io storage storage.wal bytes value) [
      | inl (e, m) ↦
          let (fine, valid, same) =
            put_refines list bytes value s.valid (version_encode_key_filled key c) room in
          let lists = ap (λ (t : Memtable). t.list) m in
          (
            IsStore-entries _ (subst IsValid (sym lists) valid) (
                subst AllStored (sym (ap (λ (l : SkipList). entries l.nodes) lists ∙ same)) (
                  assign-AllStored bytes value (entries list.nodes) (as_version key c k small)
                    (AllVersions-AllStored list.nodes s.versions s.live))),
            omega (
              arith,
              ap (λ (l : SkipList). l.count) lists,
              counted_up list _ _ _ s.valid valid same,
            ),
            inl (e ∙ fine, ap (λ (l : SkipList). entries l.nodes) lists ∙ same),
          )
      | inr (e, m) ↦
          let lists = ap (λ (t : Memtable). t.list) m in
          (
            IsStore-entries _ (subst IsValid (sym lists) s.valid) (
                subst AllStored (sym (ap (λ (l : SkipList). entries l.nodes) lists))
                  (AllVersions-AllStored list.nodes s.versions s.live)),
            omega (arith, ap (λ (l : SkipList). l.count) lists),
            inr (e, ap (λ (l : SkipList). entries l.nodes) lists),
          )
    ]

-- To a snapshot before it, a put of a version changes nothing.
pub put_hidden :
    (storage : Storage) (bytes value : List ℕ) (p : SkipList.Status × Storage) (key : List ℕ)
    (ts : ℕ)
    → PutVersion storage bytes value p
    → version_of key ts (version_decode_key bytes) ≡ none
    → newest key ts (entries (nodes_of p.1)) ≡ newest key ts (entries (nodes_of storage))
put_hidden storage bytes value (s, storage') key ts (is_store, counted, done) h = elim done [
  | inl (_, same) ↦
      ap (newest key ts) same
      ∙ newest-store (λ e. record e { value = value; deleted = false })
          (record { key = bytes; value = value; deleted = false }) (λ e. refl) key ts
          (entries (nodes_of storage)) h
  | inr (_, same) ↦ ap (newest key ts) same
]

-- A storage of versions that reads the same for every snapshot before `c`.
abbrev pub HiddenFrom : ℕ → Storage → Storage → Type 0
HiddenFrom c storage storage' =
    IsStore storage'
    × ((key : List ℕ) (ts : ℕ)
        → ts < c
        → newest key ts (entries (nodes_of storage')) ≡ newest key ts (entries (nodes_of storage)))

then_write-HiddenFrom :
    (c : ℕ) (storage : Storage) (p : SkipList.Status × Storage)
    (next : Storage → SkipList.Status × Storage)
    → HiddenFrom c storage p.1
    → HiddenFrom c p.1 (next p.1).1
    → HiddenFrom c storage (then_write p next).1
then_write-HiddenFrom c storage (SkipList.ok, st) next (i, h) (j, k) =
    (j, λ key ts before. k key ts before ∙ h key ts before)
then_write-HiddenFrom c storage (SkipList.not_found, st) next h k = h
then_write-HiddenFrom c storage (SkipList.corruption, st) next h k = h
then_write-HiddenFrom c storage (SkipList.io_error, st) next h k = h
then_write-HiddenFrom c storage (SkipList.invalid_arg, st) next h k = h
then_write-HiddenFrom c storage (SkipList.no_memory, st) next h k = h

pub apply_writes-HiddenFrom :
    (io : ℕ → Io) (storage : Storage) (c : ℕ) (ws : List WriteEntry)
    → IsStore storage
    → AllKeys ws
    → c < u64
    → storage.memtable.list.count + length ws < u64
    → HiddenFrom c storage (apply_writes io storage c ws).1
unfolding apply_writes
apply_writes-HiddenFrom io storage c [] s k small room = (s, λ key ts before. refl)
apply_writes-HiddenFrom io storage c (w ∷ ws) s (k, ks) small room =
    let bytes = version_encode_key w.key c in
    let p = storage_put (io 0) storage bytes (stored_value w) in
    let put =
      storage_put-PutVersion (io 0) storage w.key (stored_value w) c s k small (omega arith) in
    let (is_store, counted, done) = put in
    then_write-HiddenFrom c storage p (λ st. apply_writes (λ n. io (suc n)) st c ws)
      (
        is_store,
        λ key ts before.
            put_hidden storage bytes (stored_value w) p key ts put
              (version_of_later key w.key ts c k small before),
      )
      (apply_writes-HiddenFrom (λ n. io (suc n)) p.1 c ws is_store ks small (omega arith))
