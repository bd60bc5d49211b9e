-- ===== src/Engine/Wal.antt =====
-- wal.c: the records of the write-ahead log, and their replay. The file is its bytes; reading it and
-- opening it succeed. `none` is a read outside a record's buffer.
pub mod Crash
use first_principle_cs.Base.{
  ℕ, zero, suc, ◌+◌, ◌%◌, List, [], ◌∷◌, ◌++◌, Option, none, some, ltb, ◌==◌, if◌then◌else◌, length,
  take, drop, u32,
}
use first_principle_cs.Base.Bytes.{to_bytes, from_bytes, read_bytes}
use first_principle_cs.Engine.SkipList.{Status, ok, corruption}
use first_principle_cs.Engine.Crc32.{crc32}

pub record WalRecord : Type 0 where
  pub type : ℕ
  pub key : List ℕ
  pub value : List ℕ

abbrev pub wal_record_put : ℕ
wal_record_put = 1

abbrev pub wal_record_delete : ℕ
wal_record_delete = 2

-- What the checksum covers.
abbrev pub body : WalRecord → List ℕ
body r =
    r.type
    ∷ (to_bytes 4 (length r.key % u32) ++ (r.key ++ (to_bytes 4 (length r.value % u32) ++ r.value)))

unfoldable pub encode : WalRecord → List ℕ
encode r = to_bytes 4 ((4 + length (body r)) % u32) ++ (to_bytes 4 (crc32 (body r)) ++ body r)

-- A record's fields, read one behind the other.
abbrev pub last_field : ℕ → List ℕ → Option (List ℕ × List ℕ) → Option WalRecord
last_field type key none = none
last_field type key (some (value, end)) = some (record { type = type; key = key; value = value })

abbrev pub read_value : ℕ → List ℕ → Option (List ℕ × List ℕ) → Option WalRecord
read_value type key none = none
read_value type key (some (len, rest)) = last_field type key (read_bytes (from_bytes len) rest)

abbrev pub read_key : ℕ → Option (List ℕ × List ℕ) → Option WalRecord
read_key type none = none
read_key type (some (key, rest)) = read_value type key (read_bytes 4 rest)

abbrev pub read_key_len : ℕ → Option (List ℕ × List ℕ) → Option WalRecord
read_key_len type none = none
read_key_len type (some (len, rest)) = read_key type (read_bytes (from_bytes len) rest)

unfoldable pub decode_body : List ℕ → Option WalRecord
decode_body [] = none
decode_body (type ∷ rest) = read_key_len type (read_bytes 4 rest)

module _ {C : Type 0} (fn : C → WalRecord → Status × C) where
  -- The callback stops the replay with any other status than STATUS_OK.
  abbrev pub then_next : Status × C → (C → Option (Status × C)) → Option (Status × C)
  then_next (Status.ok, ctx) next = next ctx
  then_next (s, ctx) next = some (s, ctx)

  abbrev pub replay_fields : C → Option WalRecord → (C → Option (Status × C)) → Option (Status × C)
  replay_fields ctx none next = none
  replay_fields ctx (some r) next = then_next (fn ctx r) next

  -- A whole record: checksum and rest.
  abbrev pub replay_record : C → List ℕ → (C → Option (Status × C)) → Option (Status × C)
  replay_record ctx bytes next =
      if from_bytes (take 4 bytes) == crc32 (drop 4 bytes)
      then replay_fields ctx (decode_body (drop 4 bytes)) next
      else some (corruption, ctx)

  abbrev pub replay_whole :
      C → Option (List ℕ × List ℕ) → (C → List ℕ → Option (Status × C)) → Option (Status × C)
  replay_whole ctx none next = some (ok, ctx)
  replay_whole ctx (some (bytes, after)) next = replay_record ctx bytes (λ ctx'. next ctx' after)

  -- A record whose length is there but not the rest of it ends the replay, as the end of the file does.
  abbrev pub replay_len :
      C → Option (List ℕ × List ℕ) → (C → List ℕ → Option (Status × C)) → Option (Status × C)
  replay_len ctx none next = some (ok, ctx)
  replay_len ctx (some (len, rest)) next =
      if ltb (from_bytes len) 13
      then some (corruption, ctx)
      else replay_whole ctx (read_bytes (from_bytes len) rest) next

  -- The loop of `wal_recover`, at most `n` records.
  unfoldable pub replay : ℕ → C → List ℕ → Option (Status × C)
  replay zero ctx bytes = some (ok, ctx)
  replay (suc n) ctx bytes = replay_len ctx (read_bytes 4 bytes) (λ ctx' after. replay n ctx' after)

  -- Every record is longer than one byte, so that this is enough.
  unfoldable pub wal_recover : C → List ℕ → Option (Status × C)
  wal_recover ctx bytes = replay (suc (length bytes)) ctx bytes
