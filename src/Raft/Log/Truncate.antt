-- ===== src/Raft/Log/Truncate.antt =====
-- log.c seen as a list of entries behind a base index: removing entries at either end.
use first_principle_cs.Base.{
  ℕ, zero, suc, ◌+◌, ◌-◌, ◌≤◌, ◌<◌, ◌≡◌, refl, ap, sym, ◌∙◌, List, [], ◌∷◌, Option, none, some,
  arith, length, take, drop, u64, add64, sub64, Bool-cases, inl, inr, leb, leb→le, ltb, true, false,
  if◌then◌else◌, length-append, length-take, length-drop, take-append_le, take-take, take-drop,
  take_all, max,
}
use first_principle_cs.Raft.Types.{Entry}
use first_principle_cs.Raft.Log.{
  Log, clear_command, free_entries, truncate_after, move_down, drop_before, truncate_before, get,
  last_index, term_or,
}
use first_principle_cs.Raft.Log.View.{contents, IsValid, length-contents, last_index_lem, get_lem}

length-clear_command : (es : List Entry) (i : ℕ) → length (clear_command es i) ≡ length es
length-clear_command [] i = refl
length-clear_command (e ∷ es) zero = refl
length-clear_command (e ∷ es) (suc i) = ap suc (length-clear_command es i)

-- Clearing a slot at or behind position `n` leaves the first `n` alone.
take-clear_command : (es : List Entry) (i n : ℕ) → n ≤ i → take n (clear_command es i) ≡ take n es
take-clear_command es i zero h = refl
take-clear_command [] i (suc n) h = refl
take-clear_command (e ∷ es) zero (suc n) h = elim h [ ]
take-clear_command (e ∷ es) (suc i) (suc n) h = ap (◌∷◌ e) (take-clear_command es i n (omega arith))

-- What freeing the slots from index `i` on leaves alone.
abbrev Freed : ℕ → List Entry → Option (List Entry) → Type 0
Freed kept slots r =
    (slots' : List Entry) × (r ≡ some slots')
    × (length slots' ≡ length slots)
    × (take kept slots' ≡ take kept slots)

free_entries-Freed :
    (n base kept : ℕ) (i : ℕ) (slots : List Entry)
    → base + kept < i
    → i + n < u64
    → i + n ≤ base + length slots + 1
    → Freed kept slots (free_entries n base i slots)
unfolding free_entries
free_entries-Freed zero base kept i slots h small fits = (slots, refl, refl, refl)
free_entries-Freed (suc n) base kept i slots h small fits =
    let (slots', run, len, same) =
      free_entries-Freed n base kept (i + 1) (clear_command slots (i - base - 1)) (omega arith)
        (omega arith) (omega (arith, length-clear_command slots (i - base - 1))) in
    (
      slots',
      rw (offset, next) (ground (arith, run)),
      omega (arith, length-clear_command slots (i - base - 1)),
      same ∙ take-clear_command slots (i - base - 1) kept (omega arith),
    )
  where
    offset : sub64 (sub64 i base) 1 ≡ i - base - 1
    offset = omega arith

    next : add64 i 1 ≡ i + 1
    next = omega arith

-- `raft_log_truncate_after`, called on a well-formed log at or behind the base, never leaves the array; it keeps the log
-- well formed and exactly the entries up to the given index, and does not move the base.
pub truncate_after_refines :
    (log : Log) (after_index : ℕ)
    → IsValid log
    → log.base_index ≤ after_index
    → (log' : Log) × (truncate_after log after_index ≡ some log')
      × IsValid log'
      × (contents log' ≡ take (after_index - log.base_index) (contents log))
      × (log'.base_index ≡ log.base_index)
      × (log'.base_term ≡ log.base_term)
unfolding truncate_after
truncate_after_refines log after_index v h = elim (Bool-cases (leb (last_index log) after_index)) [
  | inl keep ↦ (
    log,
    rw keep,
    v,
    sym (
        take_all (after_index - log.base_index) (contents log)
          (omega (arith, leb→le _ _ keep, last, length-contents log v))),
    refl,
    refl,
  )
  | inr cut ↦
      let below : after_index < last_index log = ground arith in
      let (slots', run, len, same) =
        free_entries-Freed (last_index log - after_index) log.base_index
          (after_index - log.base_index) (add64 after_index 1) log.slots (omega (arith, last))
          (omega (arith, last)) (omega (arith, last)) in
      (
        record log { slots = slots'; count = after_index - log.base_index },
        rw (cut, run, kept),
        omega (arith, last),
        same
            ∙ sym (
                take-take (after_index - log.base_index) log.count log.slots (omega (arith, last))),
        refl,
        refl,
      )
]
  where
    last : last_index log ≡ log.base_index + log.count
    last = last_index_lem log v

    kept :
        (if leb after_index log.base_index then 0 else after_index - log.base_index)
        ≡ after_index - log.base_index
    kept = ground arith

free_entries_below :
    (n base i : ℕ) (slots : List Entry)
    → i ≤ base
    → base + length slots < u64
    → free_entries (suc n) base i slots ≡ none
unfolding free_entries
free_entries_below n base i slots h small = rw outside
  where
    outside : ltb (sub64 (sub64 i base) 1) (length slots) ≡ false
    outside = ground arith

-- Called with an index below the base, it reaches outside the array.
pub truncate_after_below :
    (log : Log) (after_index : ℕ)
    → IsValid log
    → after_index < log.base_index
    → log.base_index + log.capacity < u64
    → truncate_after log after_index ≡ none
unfolding truncate_after
truncate_after_below log after_index v h small = rw (above, rounds, outside) refl
  where
    above : leb (last_index log) after_index ≡ false
    above = ground (arith, last_index_lem log v)

    rounds : last_index log - after_index ≡ suc (last_index log - after_index - 1)
    rounds = omega (arith, last_index_lem log v)

    outside :
        free_entries
          (suc (last_index log - after_index - 1))
          log.base_index
          (add64 after_index 1)
          log.slots
        ≡ none
    outside =
        free_entries_below (last_index log - after_index - 1) log.base_index (add64 after_index 1)
          log.slots (omega arith) (omega arith)

-- The entry at which `raft_log_truncate_before` really cuts: never past the end of the log.
abbrev pub cut_index : Log → ℕ → ℕ
cut_index log before_index =
    if ltb (log.base_index + log.count + 1) before_index
    then log.base_index + log.count + 1
    else before_index

truncate_before-cut :
    (log : Log) (before_index : ℕ)
    → IsValid log
    → truncate_before log before_index ≡ (
        if leb before_index (log.base_index + 1)
        then log
        else drop_before log (cut_index log before_index))
unfolding truncate_before
truncate_before-cut log before_index v = rw (first, next) (ground arith)
  where
    first : add64 log.base_index 1 ≡ log.base_index + 1
    first = omega arith

    next : add64 (last_index log) 1 ≡ log.base_index + log.count + 1
    next = omega (arith, last_index_lem log v)

length-move_down :
    (removed remaining : ℕ) (slots : List Entry)
    → removed + remaining ≤ length slots
    → length (move_down removed remaining slots) ≡ length slots
length-move_down removed remaining slots h = omega (
  arith,
  length-append {0} (take remaining (drop removed slots)) (drop remaining slots),
  length-take {0} remaining (drop removed slots),
  length-drop {0} removed slots,
  length-drop {0} remaining slots,
)

module _ (log : Log) (cut : ℕ) (v : IsValid log) (low : log.base_index + 1 ≤ cut)
    (high : cut ≤ log.base_index + log.count + 1) where
  drop_before-IsValid : IsValid (drop_before log cut)
  unfolding drop_before
  drop_before-IsValid =
      let moved =
        length-move_down (cut - log.base_index - 1) (log.count - (cut - log.base_index - 1))
          log.slots (omega arith) in
      omega (arith, moved)

  contents-drop_before :
      contents (drop_before log cut) ≡ drop (cut - 1 - log.base_index) (contents log)
  unfolding drop_before
  contents-drop_before =
      take-append_le remaining (take remaining (drop removed log.slots)) _ (
        omega (
          arith,
          length-take {0} remaining (drop removed log.slots),
          length-drop {0} removed log.slots,
        ))
      ∙ take-take remaining remaining (drop removed log.slots) (omega arith)
      ∙ take-drop removed remaining log.count log.slots (omega arith)
      ∙ ap (λ n. drop n (contents log)) (omega arith)
    where
      removed : ℕ
      removed = cut - log.base_index - 1

      remaining : ℕ
      remaining = log.count - removed

  last_index-drop_before : last_index (drop_before log cut) ≡ last_index log
  unfolding drop_before
  last_index-drop_before =
      omega (arith, last_index_lem (drop_before log cut) drop_before-IsValid, last_index_lem log v)

-- `raft_log_truncate_before` keeps the log well formed, drops exactly the entries below the cut, keeps
-- the last index, and remembers the term of the entry just before the cut as the base term. At or
-- below the first entry it changes nothing.
pub truncate_before_refines :
    (log : Log) (before_index : ℕ)
    → IsValid log
    → let log' = truncate_before log before_index in
      let cut = cut_index log before_index in
      IsValid log'
      × (contents log' ≡ drop (cut - 1 - log.base_index) (contents log))
      × (last_index log' ≡ last_index log)
      × (log'.base_index ≡ max log.base_index (cut - 1))
      × (log'.base_term ≡ (
          if ltb (log.base_index + 1) cut
          then term_or log.base_term (get log (cut - 1))
          else log.base_term))
truncate_before_refines log before_index v =
    elim (Bool-cases (leb before_index (log.base_index + 1))) [
      | inl keep ↦ rw (truncate_before-cut log before_index v, keep) (unchanged keep)
      | inr cut ↦
          let above : log.base_index + 1 ≤ cut' = ground arith in
          rw (truncate_before-cut log before_index v, cut)
            (
              drop_before-IsValid log _ v (ground arith) (ground arith),
              contents-drop_before log _ v (ground arith) (ground arith),
              last_index-drop_before log _ v (ground arith) (ground arith),
              unfold drop_before in omega (arith, above),
              unfold drop_before in ground (arith, get_lem log (cut' - 1) v),
            )
    ]
  where
    cut' : ℕ
    cut' = cut_index log before_index

    unchanged :
        leb before_index (log.base_index + 1) ≡ true
        → IsValid log
          × (contents log ≡ drop (cut' - 1 - log.base_index) (contents log))
          × (last_index log ≡ last_index log)
          × (log.base_index ≡ max log.base_index (cut' - 1))
          × (log.base_term ≡ (
              if ltb (log.base_index + 1) cut'
              then term_or log.base_term (get log (cut' - 1))
              else log.base_term))
    unchanged keep = (
      v,
      ap (λ n. drop n (contents log)) {x = 0} (ground arith),
      refl,
      ground arith,
      ground arith,
    )
