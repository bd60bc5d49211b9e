-- ===== src/Tx/Version.antt =====
-- version.c: keys that carry the timestamp of a version. The order of keys is that of the storage.
pub mod Order
pub mod RoundTrip
use first_principle_cs.Base.{
  ℕ, zero, suc, ◌+◌, ◌-◌, ◌*◌, ◌/◌, ◌%◌, List, [], ◌∷◌, ◌++◌, Option, none, some, Bool, ltb, ◌==◌,
  if◌then◌else◌, length, take, drop, get_or, u64,
}

pub data TxStatus : Type 0 where
  ok not_found conflict aborted io_error invalid_arg no_memory corruption : TxStatus

abbrev pub tx_version_sep : ℕ
tx_version_sep = 0

-- The `n` bytes of a number, highest first.
unfoldable pub be_bytes : ℕ → ℕ → List ℕ
be_bytes zero x = []
be_bytes (suc n) x = be_bytes n (x / 256) ++ (x % 256 ∷ [])

-- The loop that reads them: shift, and put the next byte below.
unfoldable pub from_be : ℕ → List ℕ → ℕ
from_be acc [] = acc
from_be acc (b ∷ bs) = from_be (acc * 256 % u64 + b) bs

-- `~` on 64 bits.
abbrev pub invert64 : ℕ → ℕ
invert64 x = u64 - 1 - x

unfoldable pub version_encode_key : List ℕ → ℕ → List ℕ
version_encode_key key version = key ++ (tx_version_sep ∷ be_bytes 8 (invert64 version))

abbrev pub decode_at : List ℕ → ℕ → TxStatus × List ℕ × ℕ
decode_at bytes key_len =
    if get_or bytes key_len 0 == tx_version_sep
    then (ok, take key_len bytes, invert64 (from_be 0 (drop (key_len + 1) bytes)))
    else (corruption, [], 0)

unfoldable pub version_decode_key : List ℕ → TxStatus × List ℕ × ℕ
version_decode_key bytes =
    if ltb (length bytes) 10 then (corruption, [], 0) else decode_at bytes (length bytes - 1 - 8)
