-- ===== src/Raft/Log/Tests.antt =====
-- Concrete logs: three entries of terms 1, 1 and 2, and the log without the first of them.
use first_principle_cs.Base.{
  ℕ, ◌+◌, ◌≡◌, refl, List, [], ◌∷◌, ◌++◌, none, some, arith, take, drop, max, get_elem?, leb, ltb,
  if◌then◌else◌, ◌-◌,
}
use first_principle_cs.Raft.Types.{Entry, EntryType}
use first_principle_cs.Raft.Log.{
  Log, term_or, append, truncate_before, truncate_after, get, last_index,
}
use first_principle_cs.Raft.Log.View.{
  IsValid, Indexed, contents, new_entry, append_refines, append-Indexed, get_lem,
}
use first_principle_cs.Raft.Log.Truncate.{
  truncate_after_refines, truncate_after_below, truncate_before_refines, cut_index,
}

abbrev pub entry : ℕ → ℕ → List ℕ → Entry
entry term index command = record {
  term = term;
  index = index;
  type = EntryType.command_entry;
  command = command;
}

abbrev pub three : Log
three = record {
  slots = entry 1 1 (7 ∷ []) ∷ entry 1 2 (8 ∷ []) ∷ entry 2 3 (9 ∷ []) ∷ entry 0 0 [] ∷ [];
  capacity = 4;
  count = 3;
  base_index = 0;
  base_term = 0;
  fresh = entry 0 0 [];
}

pub three-IsValid : IsValid three
three-IsValid = record {
  allocated = refl;
  nonempty = omega arith;
  within = omega arith;
  small = omega arith;
}

-- The same behind a base index of 5.
abbrev based : Log
based = record three { base_index = 5; base_term = 1 }

based-IsValid : IsValid based
based-IsValid = record {
  allocated = refl;
  nonempty = omega arith;
  within = omega arith;
  small = omega arith;
}

append_refines_example :
    let (log', index) = append three 2 (4 ∷ []) in
    IsValid log'
    × (contents log' ≡ contents three ++ new_entry three 2 (4 ∷ []) ∷ [])
    × (index ≡ three.base_index + three.count + 1)
    × (log'.base_index ≡ three.base_index)
    × (log'.base_term ≡ three.base_term)
append_refines_example = append_refines three 2 (4 ∷ []) three-IsValid (omega arith)

append-Indexed_example :
    let log' = (append three 2 (4 ∷ [])).0 in Indexed log'.base_index (contents log')
append-Indexed_example =
    append-Indexed three 2 (4 ∷ []) three-IsValid (omega arith) (refl, (refl, (refl, tt)))

truncate_after_refines_example :
    (log' : Log) × (truncate_after three 1 ≡ some log')
    × IsValid log'
    × (contents log' ≡ take (1 - three.base_index) (contents three))
    × (log'.base_index ≡ three.base_index)
    × (log'.base_term ≡ three.base_term)
truncate_after_refines_example = truncate_after_refines three 1 three-IsValid (omega arith)

truncate_after_below_example : truncate_after based 3 ≡ none
truncate_after_below_example =
    truncate_after_below based 3 based-IsValid (omega arith) (omega arith)

get_lem_example : get based 6 ≡ (
    if leb 6 based.base_index then none else get_elem? (contents based) (6 - based.base_index - 1))
get_lem_example = get_lem based 6 based-IsValid (omega arith)

truncate_before_refines_example :
    let log' = truncate_before three 3 in
    let cut = cut_index three 3 in
    IsValid log'
    × (contents log' ≡ drop (cut - 1 - three.base_index) (contents three))
    × (last_index log' ≡ last_index three)
    × (log'.base_index ≡ max three.base_index (cut - 1))
    × (log'.base_term ≡ (
        if ltb (three.base_index + 1) cut
        then term_or three.base_term (get three (cut - 1))
        else three.base_term))
truncate_before_refines_example = truncate_before_refines three 3 three-IsValid
