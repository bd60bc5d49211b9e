-- ===== src/Raft/Wire.antt =====
-- The entries behind the header of an AppendEntries message, as replication.c writes and reads them:
-- the term in 8 bytes, the command's length in 4, the command. `memcpy` of an integer copies its bytes
-- in the order of a little-endian machine, lowest first.
pub mod RoundTrip
mod Tests
use first_principle_cs.Base.{
  ℕ, zero, suc, ◌+◌, ◌*◌, ◌/◌, ◌%◌, List, [], ◌∷◌, ◌++◌, Option, none, some, ltb, if◌then◌else◌,
  length, take, drop, u32, add64,
}
use first_principle_cs.Base.Bytes.{to_bytes, from_bytes, read_bytes}
use first_principle_cs.Raft.Types.{Entry}
use first_principle_cs.Raft.Log
use first_principle_cs.Raft.Log.{Log}

unfoldable pub write_entry : Entry → List ℕ
write_entry e = to_bytes 8 e.term ++ (to_bytes 4 (length e.command % u32) ++ e.command)

abbrev pub write_found : Option Entry → List ℕ → List ℕ
write_found none rest = rest
write_found (some e) rest = write_entry e ++ rest

-- The serialising loop, from index `i` on for `n` rounds.
unfoldable pub write_entries : Log → ℕ → ℕ → List ℕ
write_entries log zero i = []
write_entries log (suc n) i = write_found (Log.get log i) (write_entries log n (add64 i 1))

-- One entry of the reading loop: its term, its command, and the bytes behind it.
abbrev pub read_command : ℕ → Option (List ℕ × List ℕ) → Option (ℕ × List ℕ × List ℕ)
read_command term none = none
read_command term (some (command, rest)) = some (term, command, rest)

abbrev pub read_length : ℕ → Option (List ℕ × List ℕ) → Option (ℕ × List ℕ × List ℕ)
read_length term none = none
read_length term (some (len, rest)) = read_command term (read_bytes (from_bytes len) rest)

abbrev pub read_term : Option (List ℕ × List ℕ) → Option (ℕ × List ℕ × List ℕ)
read_term none = none
read_term (some (term, rest)) = read_length (from_bytes term) (read_bytes 4 rest)

unfoldable pub read_entry : List ℕ → Option (ℕ × List ℕ × List ℕ)
read_entry bytes = read_term (read_bytes 8 bytes)
