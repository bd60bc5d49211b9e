-- ===== src/Tx/Manager/Visible.antt =====
-- What a commit has written, read by the snapshots after it.
use first_principle_cs.Base.{
  ℕ, suc, ◌+◌, ◌<◌, ◌≤◌, ◌≡◌, ◌≢◌, refl, sym, ap, subst, ◌∙◌, List, [], ◌∷◌, Option, none, some,
  true, false, Bool-cases, inl, inr, ◌&&◌, ltb, leb, ltb→lt, if◌then◌else◌, length, u64, arith,
}
use first_principle_cs.Engine.Compare.{default_compare, order_case, default_compare-eq}
use first_principle_cs.Engine.SkipList
use first_principle_cs.Engine.SkipList.Map.{Entry, entries, assign}
use first_principle_cs.Engine.Storage.{Io, Storage, storage_put}
use first_principle_cs.Tx.Version.{version_encode_key, version_decode_key}
use first_principle_cs.Tx.WriteSet.{WriteEntry, same_key}
use first_principle_cs.Tx.Manager.{
  then_write, apply_writes, stored_value, read_storage, visible_value,
}
use first_principle_cs.Tx.Manager.Versions.{
  newest, newer, version_of, Older, newer-Older, decode-IsVersion, same_key_refl, same_key-eq,
}
use first_principle_cs.Tx.Manager.Reads.{IsStore, seen, read_storage_lem}
use first_principle_cs.Tx.Manager.Writes.{
  IsKey, AllKeys, nodes_of, as_version, PutVersion, storage_put-PutVersion, put_hidden,
  apply_writes-HiddenFrom,
}

Older-newer :
    (c : ℕ) (o : Option ℕ) (v : List ℕ) (rest : Option (ℕ × List ℕ))
    → Older c (newer o v rest)
    → Older c rest × ((w : ℕ) → o ≡ some w → w < c)
Older-newer c none v rest h = (h, λ w e. cc)
Older-newer c (some w) v none h = (tt, λ u e. omega (arith, h, ap (value_or 0) e))
  where
    value_or : ℕ → Option ℕ → ℕ
    value_or d none = d
    value_or d (some x) = x
Older-newer c (some w) v (some (u, x)) h = elim (Bool-cases (ltb w u)) [
  | inl e ↦
      let k : u < c = subst (λ b. Older c (if b then some (u, x) else some (w, v))) e h in
      (k, λ y q. omega (arith, k, ltb→lt w u e, ap (value_or 0) q))
  | inr e ↦
      let k : w < c = subst (λ b. Older c (if b then some (u, x) else some (w, v))) e h in
      (omega (arith, k, not_less e), λ y q. omega (arith, k, ap (value_or 0) q))
]
  where
    value_or : ℕ → Option ℕ → ℕ
    value_or d none = d
    value_or d (some x) = x

    not_less : ltb w u ≡ false → u ≤ w
    not_less e = ground arith

newer_than :
    (c : ℕ) (o : Option ℕ) (v value : List ℕ)
    → ((w : ℕ) → o ≡ some w → w < c)
    → newer o v (some (c, value)) ≡ some (c, value)
newer_than c none v value h = refl
newer_than c (some w) v value h =
    ap (λ b. if b then some (c, value) else some (w, v)) (less (h w refl))
  where
    less : w < c → ltb w c ≡ true
    less k = ground arith

version_of_itself :
    (key : List ℕ) (c ts : ℕ)
    → IsKey key
    → c < u64
    → c ≤ ts
    → version_of key ts (version_decode_key (version_encode_key key c)) ≡ some c
version_of_itself key c ts k small seen_by =
    ap (version_of key ts) (decode-IsVersion (as_version key c k small))
    ∙ ap (λ b. if b && leb c ts then some c else none) (same_key_refl key)
    ∙ ap (λ b. if b then some c else none) within
  where
    within : leb c ts ≡ true
    within = ground arith

-- A version that is newer than all others of its key is the newest.
newest-assign :
    (key value : List ℕ) (c ts : ℕ) (es : List Entry)
    → IsKey key
    → c < u64
    → c ≤ ts
    → Older c (newest key ts es)
    → newest key ts (assign (version_encode_key key c) value es) ≡ some (c, value)
unfolding newest
newest-assign key value c ts [] k small seen_by h =
    ap (λ o. newer o value none) (version_of_itself key c ts k small seen_by)
newest-assign key value c ts (e ∷ es) k small seen_by h =
    order_case (λ r. newest key ts r ≡ some (c, value))
      (default_compare e.key (version_encode_key key c)) _ _ _
      (λ _.
        ap (newer (version_of key ts (version_decode_key e.key)) e.value)
          (newest-assign key value c ts es k small seen_by parts.0)
        ∙ newer_than c (version_of key ts (version_decode_key e.key)) e.value value parts.1)
      (λ equal. absurd (
        not_itself (
          parts.1 c (
            ap (λ b. version_of key ts (version_decode_key b))
              (default_compare-eq e.key (version_encode_key key c) equal)
            ∙ version_of_itself key c ts k small seen_by))))
      (λ _.
        ap (λ o. newer o value (newest key ts (e ∷ es)))
          (version_of_itself key c ts k small seen_by)
        ∙ newer-Older c value (newest key ts (e ∷ es)) h)
  where
    parts :
        Older c (newest key ts es)
        × ((w : ℕ) → version_of key ts (version_decode_key e.key) ≡ some w → w < c)
    parts =
        Older-newer c (version_of key ts (version_decode_key e.key)) e.value (newest key ts es) h

    not_itself : c < c → ⊥
    not_itself q = omega arith

version_of_other :
    (key other : List ℕ) (c ts : ℕ)
    → IsKey other
    → c < u64
    → key ≢ other
    → version_of key ts (version_decode_key (version_encode_key other c)) ≡ none
version_of_other key other c ts k small apart =
    ap (version_of key ts) (decode-IsVersion (as_version other c k small))
    ∙ elim (Bool-cases (same_key other key)) [
      | inl same ↦ absurd (apart (sym (same_key-eq other key same)))
      | inr e ↦ ap (λ b. if b && leb c ts then some c else none) e
    ]

abbrev pub NotIn : List ℕ → List WriteEntry → Type 0
NotIn key [] = Unit {0}
NotIn key (w ∷ ws) = (key ≢ w.key) × NotIn key ws

-- No key is written twice.
abbrev pub AllApart : List WriteEntry → Type 0
AllApart [] = Unit {0}
AllApart (w ∷ ws) = NotIn w.key ws × AllApart ws

-- The storage has only versions before `c` of the keys that are written.
abbrev pub AllOlder : ℕ → Storage → List WriteEntry → Type 0
AllOlder c storage [] = Unit {0}
AllOlder c storage (w ∷ ws) =
    ((ts : ℕ) → Older c (newest w.key ts (entries (nodes_of storage)))) × AllOlder c storage ws

-- Every snapshot from `c` on finds the writes.
abbrev AllFound : ℕ → Storage → List WriteEntry → Type 0
AllFound c storage [] = Unit {0}
AllFound c storage (w ∷ ws) =
    ((ts : ℕ) → c ≤ ts → newest w.key ts (entries (nodes_of storage)) ≡ some (c, stored_value w))
    × AllFound c storage ws

then_write_keeps :
    {A : Type 0} (f : Storage → A) (p : SkipList.Status × Storage)
    (next : Storage → SkipList.Status × Storage)
    → f (next p.1).1 ≡ f p.1
    → f (then_write p next).1 ≡ f p.1
then_write_keeps f (SkipList.ok, st) next h = h
then_write_keeps f (SkipList.not_found, st) next h = refl
then_write_keeps f (SkipList.corruption, st) next h = refl
then_write_keeps f (SkipList.io_error, st) next h = refl
then_write_keeps f (SkipList.invalid_arg, st) next h = refl
then_write_keeps f (SkipList.no_memory, st) next h = refl

then_write-ok :
    (p : SkipList.Status × Storage) (next : Storage → SkipList.Status × Storage)
    → (then_write p next).0 ≡ SkipList.ok
    → (p.0 ≡ SkipList.ok) × (then_write p next ≡ next p.1)
then_write-ok (SkipList.ok, st) next h = (refl, refl)
then_write-ok (SkipList.not_found, st) next h = absurd (cc h)
then_write-ok (SkipList.corruption, st) next h = absurd (cc h)
then_write-ok (SkipList.io_error, st) next h = absurd (cc h)
then_write-ok (SkipList.invalid_arg, st) next h = absurd (cc h)
then_write-ok (SkipList.no_memory, st) next h = absurd (cc h)

apply_writes-NotIn :
    (io : ℕ → Io) (storage : Storage) (c : ℕ) (ws : List WriteEntry) (key : List ℕ) (ts : ℕ)
    → IsStore storage
    → AllKeys ws
    → c < u64
    → storage.memtable.list.count + length ws < u64
    → NotIn key ws
    → newest key ts (entries (nodes_of (apply_writes io storage c ws).1))
      ≡ newest key ts (entries (nodes_of storage))
unfolding apply_writes
apply_writes-NotIn io storage c [] key ts s k small room n = refl
apply_writes-NotIn io storage c (w ∷ ws) key ts s (k, ks) small room (apart, n) =
    let bytes = version_encode_key w.key c in
    let p = storage_put (io 0) storage bytes (stored_value w) in
    let put =
      storage_put-PutVersion (io 0) storage w.key (stored_value w) c s k small (omega arith) in
    let (is_store, counted, done) = put in
    then_write_keeps (λ st. newest key ts (entries (nodes_of st))) p
      (λ st. apply_writes (λ i. io (suc i)) st c ws)
      (apply_writes-NotIn (λ i. io (suc i)) p.1 c ws key ts is_store ks small (omega arith) n)
    ∙ put_hidden storage bytes (stored_value w) p key ts put
        (version_of_other key w.key c ts k small apart)

put_found :
    (storage : Storage) (key value : List ℕ) (c ts : ℕ) (p : SkipList.Status × Storage)
    → PutVersion storage (version_encode_key key c) value p
    → p.0 ≡ SkipList.ok
    → IsKey key
    → c < u64
    → c ≤ ts
    → Older c (newest key ts (entries (nodes_of storage)))
    → newest key ts (entries (nodes_of p.1)) ≡ some (c, value)
put_found storage key value c ts p (i, n, inl (s, same)) fine k small seen_by old =
    ap (newest key ts) same
    ∙ newest-assign key value c ts (entries (nodes_of storage)) k small seen_by old
put_found storage key value c ts p (i, n, inr (s, same)) fine k small seen_by old =
    absurd (failed (sym s ∙ fine))
  where
    failed : SkipList.io_error ≢ SkipList.ok
    failed h = cc

put-AllOlder :
    (storage : Storage) (w : WriteEntry) (c : ℕ) (p : SkipList.Status × Storage)
    (ws : List WriteEntry)
    → PutVersion storage (version_encode_key w.key c) (stored_value w) p
    → IsKey w.key
    → c < u64
    → NotIn w.key ws
    → AllOlder c storage ws
    → AllOlder c p.1 ws
put-AllOlder storage w c p [] put k small n o = tt
put-AllOlder storage w c p (x ∷ ws) put k small (apart, n) (old, o) = (
  λ ts.
      subst (Older c)
        (sym (
          put_hidden storage (version_encode_key w.key c) (stored_value w) p x.key ts put
            (version_of_other x.key w.key c ts k small (λ e. apart (sym e)))))
        (old ts),
  put-AllOlder storage w c p ws put k small n o,
)

apply_writes-AllFound :
    (io : ℕ → Io) (storage : Storage) (c : ℕ) (ws : List WriteEntry)
    → IsStore storage
    → AllKeys ws
    → AllApart ws
    → AllOlder c storage ws
    → c < u64
    → storage.memtable.list.count + length ws < u64
    → (apply_writes io storage c ws).0 ≡ SkipList.ok
    → AllFound c (apply_writes io storage c ws).1 ws
unfolding apply_writes
apply_writes-AllFound io storage c [] s k a o small room h = tt
apply_writes-AllFound io storage c (w ∷ ws) s (k, ks) (n, a) (old, o) small room h =
    let p = storage_put (io 0) storage (version_encode_key w.key c) (stored_value w) in
    let next : Storage → SkipList.Status × Storage = λ st. apply_writes (λ i. io (suc i)) st c ws in
    let put =
      storage_put-PutVersion (io 0) storage w.key (stored_value w) c s k small (omega arith) in
    let (is_store, counted, done) = put in
    let (fine, same) = then_write-ok p next h in
    subst (λ (r : SkipList.Status × Storage). AllFound c r.1 (w ∷ ws)) (sym same)
      (
        λ ts seen_by.
            apply_writes-NotIn (λ i. io (suc i)) p.1 c ws w.key ts is_store ks small (omega arith) n
            ∙ put_found storage w.key (stored_value w) c ts p put fine k small seen_by (old ts),
        apply_writes-AllFound (λ i. io (suc i)) p.1 c ws is_store ks a
            (put-AllOlder storage w c p ws put k small n o) small (omega arith)
            (sym (ap (λ (r : SkipList.Status × Storage). r.0) same) ∙ h),
      )

-- Every snapshot from `c` on reads the writes.
abbrev pub AllRead : ℕ → Storage → List WriteEntry → Type 0
AllRead c storage [] = Unit {0}
AllRead c storage (w ∷ ws) =
    ((start_ts : ℕ)
      → c ≤ start_ts
      → start_ts < u64
      → read_storage storage start_ts w.key ≡ some (visible_value (stored_value w)))
    × AllRead c storage ws

AllFound-AllRead :
    (c : ℕ) (storage : Storage) (ws : List WriteEntry)
    → IsStore storage
    → AllKeys ws
    → AllFound c storage ws
    → AllRead c storage ws
AllFound-AllRead c storage [] s k f = tt
AllFound-AllRead c storage (w ∷ ws) s (k, ks) (found, f) = (
  λ start_ts seen_by small.
      read_storage_lem storage start_ts w.key s k.nonempty k.no_sep small
      ∙ ap (λ o. some (seen o)) (found start_ts seen_by),
  AllFound-AllRead c storage ws s ks f,
)

-- When all the writes of a commit at timestamp `c` succeed, every snapshot at `c` or later reads exactly
-- what was written under each of the keys (not found for a deletion), whatever versions from before `c`
-- the storage holds. (The keys are different, not empty and without the separator.)
pub apply_writes-AllRead :
    (io : ℕ → Io) (storage : Storage) (c : ℕ) (ws : List WriteEntry)
    → IsStore storage
    → AllKeys ws
    → AllApart ws
    → AllOlder c storage ws
    → c < u64
    → storage.memtable.list.count + length ws < u64
    → (apply_writes io storage c ws).0 ≡ SkipList.ok
    → AllRead c (apply_writes io storage c ws).1 ws
apply_writes-AllRead io storage c ws s k a o small room h =
    AllFound-AllRead c (apply_writes io storage c ws).1 ws
      (apply_writes-HiddenFrom io storage c ws s k small room).0 k
      (apply_writes-AllFound io storage c ws s k a o small room h)
