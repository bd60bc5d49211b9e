-- ===== src/Raft/Wire/RoundTrip.antt =====
-- Reading back what was written.
use first_principle_cs.Base.{
  ℕ, ◌%◌, ◌<◌, ◌≡◌, refl, ap, ◌∙◌, List, ◌++◌, some, length, u32, u64, arith,
}
use mathlib.Core.List.{append_assoc}
use first_principle_cs.Raft.Types.{Entry}
use first_principle_cs.Base.Bytes.{
  to_bytes, length-to_bytes, read_bytes-append, from_bytes-to_bytes,
}
use first_principle_cs.Raft.Wire.{write_entry, read_entry}

-- An entry written with a 64-bit term and a command shorter than 2^32 bytes is read back as that term
-- and that command, and the bytes that follow it are left.
pub read_entry-write_entry :
    (e : Entry) (rest : List ℕ)
    → e.term < u64
    → length e.command < u32
    → read_entry (write_entry e ++ rest) ≡ some (e.term, e.command, rest)
unfolding read_entry write_entry
read_entry-write_entry e rest small short =
    rw
      (
        split,
        read_bytes-append 8 (to_bytes 8 e.term) after (length-to_bytes 8 e.term),
        read_bytes-append 4 (to_bytes 4 n) (e.command ++ rest) (length-to_bytes 4 n),
        from_bytes-to_bytes 8 e.term small,
        from_bytes-to_bytes 4 n (omega arith),
        kept,
        read_bytes-append (length e.command) e.command rest refl,
      )
      refl
  where
    n : ℕ
    n = length e.command % u32

    kept : n ≡ length e.command
    kept = omega arith

    after : List ℕ
    after = to_bytes 4 n ++ (e.command ++ rest)

    split : (to_bytes 8 e.term ++ (to_bytes 4 n ++ e.command)) ++ rest ≡ to_bytes 8 e.term ++ after
    split =
        append_assoc (to_bytes 8 e.term) (to_bytes 4 n ++ e.command) rest
        ∙ ap (to_bytes 8 e.term ++◌) (append_assoc (to_bytes 4 n) e.command rest)
