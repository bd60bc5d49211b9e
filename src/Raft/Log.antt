-- ===== src/Raft/Log.antt =====
-- log.c: the replicated log as an array of slots, of which the first `count` are in use.
-- Allocation always succeeds. A slot keeps what was last written to it, and the slots that
-- `realloc` adds hold `fresh`, an arbitrary entry.
pub mod Tests
pub mod Truncate
pub mod View
use first_principle_cs.Base.{
  ℕ, zero, suc, ◌-◌, ◌*◌, List, [], ◌∷◌, ◌++◌, Option, none, some, ltb, leb, ◌==◌, if◌then◌else◌,
  length, get_elem?, take, drop, replicate, add64, sub64,
}
use first_principle_cs.Raft.Types.{Entry, command_entry, log_initial_capacity}

pub record Log : Type 0 where
  pub slots : List Entry
  pub capacity : ℕ
  pub count : ℕ
  pub base_index : ℕ
  pub base_term : ℕ
  pub fresh : Entry

-- What `calloc` leaves in a slot.
abbrev pub zero_entry : Entry
zero_entry = record { term = 0; index = 0; type = command_entry; command = [] }

unfoldable pub create : Entry → Log
create fresh = record {
  slots = replicate log_initial_capacity zero_entry;
  capacity = log_initial_capacity;
  count = 0;
  base_index = 0;
  base_term = 0;
  fresh = fresh;
}

unfoldable pub log_grow : Log → Log
log_grow log = record log {
  slots = log.slots ++ replicate log.capacity log.fresh;
  capacity = log.capacity * 2;
}

-- The slot is filled field by field: its type stays what it was.
abbrev pub fill : List Entry → ℕ → ℕ → ℕ → List ℕ → List Entry
fill [] i term index command = []
fill (e ∷ es) zero term index command =
    record e { term = term; index = index; command = command } ∷ es
fill (e ∷ es) (suc i) term index command = e ∷ fill es i term index command

abbrev pub next_log_index : Log → ℕ
next_log_index log = add64 (add64 log.base_index log.count) 1

push_entry : Log → ℕ → List ℕ → Log
push_entry log term command = record log {
  slots = fill log.slots log.count term (next_log_index log) command;
  count = add64 log.count 1;
}

with_room : Log → Log
unfolding log_grow
with_room log = if leb log.capacity log.count then log_grow log else log

-- The new log, and what goes through `out_index`.
unfoldable pub append : Log → ℕ → List ℕ → Log × ℕ
unfolding push_entry with_room
append log term command = (push_entry (with_room log) term command, next_log_index log)

unfoldable pub get : Log → ℕ → Option Entry
get log index =
    if index == 0
    then none
    else if leb index log.base_index
    then none
    else if leb log.count (sub64 (sub64 index log.base_index) 1)
    then none
    else get_elem? log.slots (sub64 (sub64 index log.base_index) 1)

unfoldable pub last_index : Log → ℕ
last_index log = if log.count == 0 then log.base_index else add64 log.base_index log.count

abbrev pub term_or : ℕ → Option Entry → ℕ
term_or d none = d
term_or d (some e) = e.term

unfoldable pub last_term : Log → ℕ
last_term log =
    if log.count == 0 then log.base_term else term_or 0 (get_elem? log.slots (log.count - 1))

unfoldable pub term_at : Log → ℕ → ℕ
unfolding get
term_at log index =
    if index == 0
    then 0
    else if index == log.base_index
    then log.base_term
    else term_or 0 (get log index)

-- `free(entries[offset].command)` and the write of NULL.
abbrev pub clear_command : List Entry → ℕ → List Entry
clear_command [] i = []
clear_command (e ∷ es) zero = record e { command = [] } ∷ es
clear_command (e ∷ es) (suc i) = e ∷ clear_command es i

-- The loop over `i`, `n` rounds of it; `none` is an access outside the array.
free_entries : ℕ → ℕ → ℕ → List Entry → Option (List Entry)
free_entries zero base i slots = some slots
free_entries (suc n) base i slots =
    let offset = sub64 (sub64 i base) 1 in
    let rest = free_entries n base (add64 i 1) (clear_command slots offset) in
    if ltb offset (length slots) then rest else none

abbrev pub keep_slots : Log → ℕ → Option (List Entry) → Option Log
keep_slots log count none = none
keep_slots log count (some slots) = some (record log { slots = slots; count = count })

unfoldable pub truncate_after : Log → ℕ → Option Log
unfolding free_entries
truncate_after log after_index =
    if leb (last_index log) after_index
    then some log
    else keep_slots log (if leb after_index log.base_index then 0 else after_index - log.base_index)
        (free_entries (last_index log - after_index) log.base_index (add64 after_index 1) log.slots)

-- `memmove` of the kept slots to the front: the slots behind them stay as they were.
abbrev pub move_down : ℕ → ℕ → List Entry → List Entry
move_down removed remaining slots = take remaining (drop removed slots) ++ drop remaining slots

unfoldable pub drop_before : Log → ℕ → Log
drop_before log before_index =
    let removed = before_index - log.base_index - 1 in
    record log {
      slots = move_down removed (log.count - removed) log.slots;
      count = log.count - removed;
      base_index = before_index - 1;
      base_term = term_or log.base_term (get log (before_index - 1));
    }

unfoldable pub truncate_before : Log → ℕ → Log
truncate_before log before_index =
    if leb before_index (add64 log.base_index 1)
    then log
    else if ltb (add64 (last_index log) 1) before_index
    then drop_before log (add64 (last_index log) 1)
    else drop_before log before_index
