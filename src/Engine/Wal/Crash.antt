-- ===== src/Engine/Wal/Crash.antt =====
-- A log that was cut off in the middle of a record: what its replay finds.
use first_principle_cs.Base.{
  ℕ, zero, suc, ◌+◌, ◌-◌, ◌%◌, ◌≤◌, ◌<◌, ◌≡◌, refl, sym, ap, ◌∙◌, List, [], ◌∷◌, ◌++◌, Option, some,
  false, Bool-cases, ltb→lt, inl, inr, ltb, ==_iff, length, take, u32, arith, length-append,
  length-take,
}
use mathlib.Core.List.{append_assoc, append-nil}
use first_principle_cs.Base.Bytes.{
  to_bytes, read_bytes, length-to_bytes, take_prefix, drop_prefix, read_bytes-append,
  read_bytes_short, take-append_ge, from_bytes-to_bytes,
}
use first_principle_cs.Engine.SkipList.{Status, ok}
use first_principle_cs.Engine.Crc32.{crc32, crc32_bound}
use first_principle_cs.Engine.Wal.{
  WalRecord, body, encode, replay_len, decode_body, then_next, replay_record, replay, wal_recover,
}

-- The lengths of the record fit into their fields.
pub record Fits (r : WalRecord) : Type 0 where
  pub whole : 4 + length (body r) < u32

abbrev pub AllFit : List WalRecord → Type 0
AllFit [] = Unit {0}
AllFit (r ∷ rs) = Fits r × AllFit rs

abbrev pub encode_all : List WalRecord → List ℕ
encode_all [] = []
encode_all (r ∷ rs) = encode r ++ encode_all rs

length-body : (r : WalRecord) → length (body r) ≡ 9 + length r.key + length r.value
length-body r =
    let n = to_bytes 4 (length r.key % u32) in
    let m = to_bytes 4 (length r.value % u32) in
    omega (
      arith,
      length-append n (r.key ++ (m ++ r.value)),
      length-append r.key (m ++ r.value),
      length-append m r.value,
      length-to_bytes 4 (length r.key % u32),
      length-to_bytes 4 (length r.value % u32),
    )

-- The record of a body.
decode_body-body : (r : WalRecord) → Fits r → decode_body (body r) ≡ some r
unfolding decode_body
decode_body-body r f =
    rw
      (
        read_bytes-append 4 (to_bytes 4 n) (r.key ++ (to_bytes 4 m ++ r.value))
            (length-to_bytes 4 n),
        from_bytes-to_bytes 4 n (omega arith),
        small_key,
        read_bytes-append (length r.key) r.key (to_bytes 4 m ++ r.value) refl,
        read_bytes-append 4 (to_bytes 4 m) r.value (length-to_bytes 4 m),
        from_bytes-to_bytes 4 m (omega arith),
        small_value,
        whole,
      )
      refl
  where
    n : ℕ
    n = length r.key % u32

    m : ℕ
    m = length r.value % u32

    small_key : n ≡ length r.key
    small_key = omega (arith, f.whole, length-body r)

    small_value : m ≡ length r.value
    small_value = omega (arith, f.whole, length-body r)

    whole : read_bytes (length r.value) r.value ≡ some (r.value, [])
    whole =
        ap (read_bytes (length r.value)) (sym (append-nil r.value))
        ∙ read_bytes-append (length r.value) r.value [] refl

-- The checksum and the body of a record.
abbrev rest_of : WalRecord → List ℕ
rest_of r = to_bytes 4 (crc32 (body r)) ++ body r

length-rest_of : (r : WalRecord) → length (rest_of r) ≡ 4 + length (body r)
length-rest_of r = omega (
  arith,
  length-append (to_bytes 4 (crc32 (body r))) (body r),
  length-to_bytes 4 (crc32 (body r)),
)

length-encode : (r : WalRecord) → length (encode r) ≡ 8 + length (body r)
unfolding encode
length-encode r = omega (
  arith,
  length-rest_of r,
  length-append (to_bytes 4 ((4 + length (body r)) % u32)) (rest_of r),
  length-to_bytes 4 ((4 + length (body r)) % u32),
)

module _ {C : Type 0} (fn : C → WalRecord → Status × C) where
  -- The callback on each record in turn, until it fails.
  abbrev pub apply_all : C → List WalRecord → Option (Status × C)
  apply_all ctx [] = some (ok, ctx)
  apply_all ctx (r ∷ rs) = then_next fn (fn ctx r) (λ ctx'. apply_all ctx' rs)

  then_next-ext :
      (p : Status × C) (f g : C → Option (Status × C))
      → ((ctx : C) → f ctx ≡ g ctx)
      → then_next fn p f ≡ then_next fn p g
  then_next-ext (Status.ok, ctx) f g h = h ctx
  then_next-ext (Status.not_found, ctx) f g h = refl
  then_next-ext (Status.corruption, ctx) f g h = refl
  then_next-ext (Status.io_error, ctx) f g h = refl
  then_next-ext (Status.invalid_arg, ctx) f g h = refl
  then_next-ext (Status.no_memory, ctx) f g h = refl

  replay_record-rest_of :
      (ctx : C) (r : WalRecord) (next : C → Option (Status × C))
      → Fits r
      → replay_record fn ctx (rest_of r) next ≡ then_next fn (fn ctx r) next
  replay_record-rest_of ctx r next f =
      rw
        (
          take_prefix 4 crc (body r) (length-to_bytes 4 _),
          drop_prefix 4 crc (body r) (length-to_bytes 4 _),
          from_bytes-to_bytes 4 (crc32 (body r)) (crc32_bound (body r)),
          (==_iff (crc32 (body r)) (crc32 (body r))).1 refl,
          decode_body-body r f,
        )
        refl
    where
      crc : List ℕ
      crc = to_bytes 4 (crc32 (body r))

  replay-encode :
      (n : ℕ) (ctx : C) (r : WalRecord) (after : List ℕ)
      → Fits r
      → replay fn (suc n) ctx (encode r ++ after)
        ≡ then_next fn (fn ctx r) (λ c. replay fn n c after)
  unfolding replay encode
  replay-encode n ctx r after f =
      rw
        (
          append_assoc len (rest_of r) after,
          read_bytes-append 4 len (rest_of r ++ after) (length-to_bytes 4 _),
          from_bytes-to_bytes 4 ((4 + length (body r)) % u32) (omega arith),
          read_bytes-append ((4 + length (body r)) % u32) (rest_of r) after
              (omega (arith, f.whole, length-rest_of r)),
          long,
        )
        (replay_record-rest_of ctx r (λ c. replay fn n c after) f)
    where
      len : List ℕ
      len = to_bytes 4 ((4 + length (body r)) % u32)

      long : ltb ((4 + length (body r)) % u32) 13 ≡ false
      long = ground (arith, length-body r, f.whole)

  -- Less than a whole record.
  replay-torn :
      (n k : ℕ) (ctx : C) (r : WalRecord)
      → Fits r
      → k < length (encode r)
      → replay fn n ctx (take k (encode r)) ≡ some (ok, ctx)
  unfolding replay encode
  replay-torn zero k ctx r f h = refl
  replay-torn (suc n) k ctx r f h = elim (Bool-cases (ltb k 4)) [
    | inl short ↦
        ap (λ o. replay_len fn ctx o (λ ctx' after. replay fn n ctx' after))
          (read_bytes_short 4 (take k (encode r))
            (omega (arith, ltb→lt k 4 short, length-take k (encode r))))
    | inr long ↦
        rw
          (
            take-append_ge k len (rest_of r)
                (ground (arith, length-to_bytes 4 ((4 + length (body r)) % u32))),
            read_bytes-append 4 len (take (k - length len) (rest_of r)) (length-to_bytes 4 _),
            from_bytes-to_bytes 4 ((4 + length (body r)) % u32) (omega arith),
            long_record,
            read_bytes_short ((4 + length (body r)) % u32) (take (k - length len) (rest_of r))
                (cut long),
          )
          refl
  ]
    where
      len : List ℕ
      len = to_bytes 4 ((4 + length (body r)) % u32)

      long_record : ltb ((4 + length (body r)) % u32) 13 ≡ false
      long_record = ground (arith, length-body r, f.whole)

      cut :
          ltb k 4 ≡ false → length (take (k - length len) (rest_of r)) < (4 + length (body r)) % u32
      cut long = omega (
        arith,
        f.whole,
        h,
        length-take (k - length len) (rest_of r),
        length-rest_of r,
        length-append len (rest_of r),
        length-to_bytes 4 ((4 + length (body r)) % u32),
      )

  replay-all :
      (n k : ℕ) (ctx : C) (rs : List WalRecord) (last : WalRecord)
      → AllFit rs
      → Fits last
      → k < length (encode last)
      → length rs < n
      → replay fn n ctx (encode_all rs ++ take k (encode last)) ≡ apply_all ctx rs
  replay-all n k ctx [] last fs f h m = replay-torn n k ctx last f h
  replay-all zero k ctx (r ∷ rs) last fs f h m = absurd (omega arith)
  replay-all (suc n) k ctx (r ∷ rs) last fs f h m =
      ap (replay fn (suc n) ctx) (append_assoc (encode r) (encode_all rs) (take k (encode last)))
      ∙ replay-encode n ctx r (encode_all rs ++ take k (encode last)) fs.0
      ∙ then_next-ext (fn ctx r) _ _ (λ c. replay-all n k c rs last fs.1 f h (omega arith))

  length-encode_all : (rs : List WalRecord) → length rs ≤ length (encode_all rs)
  length-encode_all [] = omega arith
  length-encode_all (r ∷ rs) =
      omega (arith, length-encode_all rs, length-append (encode r) (encode_all rs), length-encode r)

  -- A log of whole records, cut off anywhere in the record behind them, is replayed as exactly the whole
  -- records, in order, each handed to the callback with its type, key and value, until one fails.
  pub wal_recover-torn :
      (ctx : C) (rs : List WalRecord) (last : WalRecord) (k : ℕ)
      → AllFit rs
      → Fits last
      → k < length (encode last)
      → wal_recover fn ctx (encode_all rs ++ take k (encode last)) ≡ apply_all ctx rs
  unfolding wal_recover
  wal_recover-torn ctx rs last k fs f h =
      replay-all _ k ctx rs last fs f h
        (omega (arith, length-encode_all rs, length-append (encode_all rs) (take k (encode last))))
