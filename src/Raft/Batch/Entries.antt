-- ===== src/Raft/Batch/Entries.antt =====
-- The entries of a batch: what the storage answers for them, the log with some of them added, and
-- the way back from there.
use first_principle_cs.Base.{
  ℕ, ◌+◌, ◌-◌, ◌≤◌, ◌<◌, ◌≡◌, ◌≢◌, refl, ap, ◌∙◌, ◌⊎◌, inl, inr, List, [], ◌∷◌, ◌++◌, Option, some,
  Bool, if◌then◌else◌, length, take, map, u64, arith, length-append, take-append_le, sub64,
}
use mathlib.Core.List.{append_assoc}
use first_principle_cs.Raft.Types.{Status, ok, Entry, EntryType}
use first_principle_cs.Raft.Log
use first_principle_cs.Raft.Log.{Log}
use first_principle_cs.Raft.Log.View.{IsValid, contents, new_entry, append_refines, length-contents}
use first_principle_cs.Raft.Log.Truncate.{truncate_after_refines}
use first_principle_cs.Raft.Batch.{next_or_undo, fail_with}

-- Entries by what they say, but for their type.
abbrev pub facts : Entry → ℕ × ℕ × List ℕ
facts e = (e.term, e.index, e.command)

-- The commands as entries of term `term` behind index `i`.
abbrev pub numbered : ℕ → ℕ → List (List ℕ) → List (ℕ × ℕ × List ℕ)
numbered term i [] = []
numbered term i (command ∷ commands) = (term, i + 1, command) ∷ numbered term (i + 1) commands

-- The first answer, if it is a failure; otherwise the second.
abbrev pub first_failure : Status → Status → Status
first_failure Status.ok rest = rest
first_failure s rest = s

-- What the storage answers for the commands as entries of term `term` behind index `i`, in order, up to
-- the first failure; RAFT_OK if there is none, and without storage.
abbrev pub all_saved : Bool → (Entry → Status) → ℕ → ℕ → List (List ℕ) → Status
all_saved has_storage save term i [] = ok
all_saved has_storage save term i (command ∷ commands) =
    first_failure
      (if has_storage
        then save (record {
          term = term;
          index = i + 1;
          type = EntryType.command_entry;
          command = command;
        })
        else ok)
      (all_saved has_storage save term (i + 1) commands)

-- Behind the log `log`, which goes on from `old`: all is there, or exactly the entries of `old` are.
abbrev pub Done : Log → Log → ℕ → List (List ℕ) → Status → Log → Type 0
Done old log term commands s after =
    (after.base_index ≡ old.base_index)
    × (after.base_term ≡ old.base_term)
    × (((s ≡ ok)
          × (map facts (contents after)
              ≡ map facts (contents log) ++ numbered term (log.base_index + log.count) commands))
        ⊎ ((s ≢ ok) × (contents after ≡ contents old)))

-- `log` is `old` with entries added.
pub record Extends (old log : Log) : Type 0 where
  pub valid : IsValid log
  pub base_index : log.base_index ≡ old.base_index
  pub base_term : log.base_term ≡ old.base_term
  pub longer : old.count ≤ log.count
  pub before : take old.count (contents log) ≡ contents old

pub ok_or_not : (s : Status) → (s ≡ ok) ⊎ (s ≢ ok)
ok_or_not Status.ok = inl refl
ok_or_not Status.not_leader = inr (λ e. cc)
ok_or_not Status.not_found = inr (λ e. cc)
ok_or_not Status.io_error = inr (λ e. cc)
ok_or_not Status.invalid_arg = inr (λ e. cc)
ok_or_not Status.no_memory = inr (λ e. cc)
ok_or_not Status.corruption = inr (λ e. cc)
ok_or_not Status.stopped = inr (λ e. cc)

pub next_or_undo-fails :
    (s : Status) (rest : Option (Status × Log)) (log : Log) (first_index : ℕ)
    → s ≢ ok
    → next_or_undo s rest log first_index
      ≡ fail_with s (Log.truncate_after log (sub64 first_index 1))
next_or_undo-fails Status.ok rest log first_index h = absurd (h refl)
next_or_undo-fails Status.not_leader rest log first_index h = refl
next_or_undo-fails Status.not_found rest log first_index h = refl
next_or_undo-fails Status.io_error rest log first_index h = refl
next_or_undo-fails Status.invalid_arg rest log first_index h = refl
next_or_undo-fails Status.no_memory rest log first_index h = refl
next_or_undo-fails Status.corruption rest log first_index h = refl
next_or_undo-fails Status.stopped rest log first_index h = refl

pub first_failure-fails : (s rest : Status) → s ≢ ok → s ≡ first_failure s rest
first_failure-fails Status.ok rest h = absurd (h refl)
first_failure-fails Status.not_leader rest h = refl
first_failure-fails Status.not_found rest h = refl
first_failure-fails Status.io_error rest h = refl
first_failure-fails Status.invalid_arg rest h = refl
first_failure-fails Status.no_memory rest h = refl
first_failure-fails Status.corruption rest h = refl
first_failure-fails Status.stopped rest h = refl

-- Cutting back to `old`.
pub undone :
    (old log : Log) (s : Status)
    → Extends old log
    → s ≢ ok
    → (after : Log) × (fail_with s
          (Log.truncate_after log (sub64 (old.base_index + old.count + 1) 1))
        ≡ some (s, after))
      × (after.base_index ≡ old.base_index)
      × (after.base_term ≡ old.base_term)
      × (contents after ≡ contents old)
undone old log s x h =
    let v = x.valid in
    let (after, cut, valid, same, base, base_term) =
      truncate_after_refines log (old.base_index + old.count) v (omega (arith, x.base_index)) in
    let back : sub64 (old.base_index + old.count + 1) 1 ≡ old.base_index + old.count =
      omega (arith, x.base_index, x.longer) in
    let kept : old.base_index + old.count - log.base_index ≡ old.count =
      omega (arith, x.base_index) in
    (
      after,
      ap (λ i. fail_with s (Log.truncate_after log i)) back ∙ ap (fail_with s) cut,
      base ∙ x.base_index,
      base_term ∙ x.base_term,
      same ∙ ap (λ n. take n (contents log)) kept ∙ x.before,
    )

pub count-append :
    (log : Log) (term : ℕ) (command : List ℕ)
    → IsValid log
    → log.base_index + log.count + 2 < u64
    → (Log.append log term command).0.count ≡ log.count + 1
count-append log term command v small =
    let (valid, same, index, base, base_term) = append_refines log term command v small in
    omega (
      arith,
      length-contents (Log.append log term command).0 valid,
      ap length same,
      length-contents log v,
      length-append (contents log) (new_entry log term command ∷ []),
    )

map-append :
    (f : Entry → ℕ × ℕ × List ℕ) (xs ys : List Entry) → map f (xs ++ ys) ≡ map f xs ++ map f ys
map-append f [] ys = refl
map-append f (x ∷ xs) ys = ap (f x ∷◌) (map-append f xs ys)

-- One command and then the others, seen from the log before it.
pub numbered-append :
    (log : Log) (term : ℕ) (command : List ℕ) (commands : List (List ℕ))
    → IsValid log
    → log.base_index + log.count + 2 < u64
    → let log' = (Log.append log term command).0 in
      map facts (contents log') ++ numbered term (log'.base_index + log'.count) commands
      ≡ map facts (contents log) ++ numbered term (log.base_index + log.count) (command ∷ commands)
numbered-append log term command commands v small =
    let (valid, same, index, base, base_term) = append_refines log term command v small in
    let log' = (Log.append log term command).0 in
    let behind : log'.base_index + log'.count ≡ log.base_index + log.count + 1 =
      omega (arith, base, count-append log term command v small) in
    ap (λ es. map facts es ++ numbered term (log'.base_index + log'.count) commands) same
    ∙ ap
        (λ i.
          map facts (contents log ++ new_entry log term command ∷ []) ++ numbered term i commands)
        behind
    ∙ ap (λ fs. fs ++ numbered term (log.base_index + log.count + 1) commands)
        (map-append facts (contents log) (new_entry log term command ∷ []))
    ∙ append_assoc (map facts (contents log)) _ _

pub append-Extends :
    (old log : Log) (term : ℕ) (command : List ℕ)
    → Extends old log
    → log.base_index + log.count + 2 < u64
    → Extends old (Log.append log term command).0
append-Extends old log term command x small =
    let (valid, same, index, base, base_term) = append_refines log term command x.valid small in
    record {
      valid = valid;
      base_index = base ∙ x.base_index;
      base_term = base_term ∙ x.base_term;
      longer = omega (arith, x.longer, count-append log term command x.valid small);
      before =
          ap (take old.count) same
          ∙ take-append_le old.count (contents log) _
              (omega (arith, length-contents log x.valid, x.longer))
          ∙ x.before;
    }
