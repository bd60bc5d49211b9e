-- ===== src/Raft/Batch/Rollback.antt =====
-- A batch of proposals is appended whole, or not at all.
use first_principle_cs.Base.{
  ℕ, ◌+◌, ◌<◌, ◌≡◌, ◌≢◌, refl, sym, ap, subst, ◌∙◌, ◌⊎◌, inl, inr, List, [], ◌∷◌, ◌++◌, Option,
  none, some, Bool, true, length, map, u64, if_case, arith, take_all,
}
use mathlib.Core.List.{append-nil}
use first_principle_cs.Raft.Types.{Status, ok, Entry, Role}
use first_principle_cs.Raft.Node.{Node, is_leader_role}
use first_principle_cs.Raft.Log
use first_principle_cs.Raft.Log.{Log}
use first_principle_cs.Raft.Log.View.{IsValid, contents, append_refines, length-contents}
use first_principle_cs.Raft.Batch.{
  propose_batch, batch_checked, finish_batch, append_batch, next_or_undo, save_status, batch_entry,
}
use first_principle_cs.Raft.Batch.Entries.{
  facts, numbered, first_failure, all_saved, Done, Extends, ok_or_not, next_or_undo-fails,
  first_failure-fails, undone, count-append, numbered-append, append-Extends,
}

abbrev Result :
    Bool → (Entry → Status) → Log → Log → ℕ → List (List ℕ) → Option (Status × Log) → Type 0
Result has_storage save old log term commands r =
    (s : Status) × (after : Log) × (r ≡ some (s, after))
    × (s ≡ all_saved has_storage save term (log.base_index + log.count) commands)
    × Done old log term commands s after

append_batch-Done :
    (has_storage : Bool) (save : Entry → Status) (term : ℕ) (old : Log) (commands : List (List ℕ))
    (log : Log)
    → Extends old log
    → log.base_index + log.count + length commands + 1 < u64
    → Result has_storage save old log term commands
        (append_batch has_storage save term (old.base_index + old.count + 1) commands log)
unfolding append_batch
append_batch-Done has_storage save term old [] log x small = (
  ok,
  log,
  refl,
  refl,
  (x.base_index, x.base_term, inl (refl, sym (append-nil (map facts (contents log))))),
)
append_batch-Done has_storage save term old (command ∷ commands) log x small =
    let log' = (Log.append log term command).0 in
    let x' = append-Extends old log term command x (omega arith) in
    let (valid, same, index, base, base_term) =
      append_refines log term command x.valid (omega arith) in
    let (s, after, e, told, (b, t, alt)) =
      append_batch-Done has_storage save term old commands log' x'
        (omega (arith, base, count-append log term command x.valid (omega arith))) in
    let saved =
      save_status has_storage save (batch_entry term (Log.append log term command).1 command) in
    let head = ap (λ i. save_status has_storage save (batch_entry term i command)) index in
    let others = all_saved has_storage save term (log.base_index + log.count + 1) commands in
    let behind : log'.base_index + log'.count ≡ log.base_index + log.count + 1 =
      omega (arith, base, count-append log term command x.valid (omega arith)) in
    elim (ok_or_not saved) [
      | inl good ↦ (
        s,
        after,
        ap
              (λ r.
                next_or_undo r
                  (append_batch has_storage save term (old.base_index + old.count + 1) commands
                    log')
                  log' (old.base_index + old.count + 1))
              good
            ∙ e,
        told
            ∙ ap (λ i. all_saved has_storage save term i commands) behind
            ∙ ap (λ r. first_failure r others) (sym good ∙ head),
        (
          b,
          t,
          elim alt [
            | inl (fine, all) ↦
                inl (fine, all ∙ numbered-append log term command commands x.valid (omega arith))
            | inr fails ↦ inr fails
          ],
        ),
      )
      | inr bad ↦
          let (after', cut, b', t', back) = undone old log' saved x' bad in
          (
            saved,
            after',
            next_or_undo-fails saved _ _ _ bad ∙ cut,
            first_failure-fails saved others bad ∙ ap (λ r. first_failure r others) head,
            (b', t', inr (bad, back)),
          )
    ]

-- What has become of a batch: the storage has answered as reported, and all of it is in the log, behind what was there, and its first index is
-- reported; or the log holds exactly what it held.
pub record Batched (save : Entry → Status) (node : Node) (commands : List (List ℕ)) (s : Status)
    (next : Node) (out : Option ℕ) : Type 0 where
  pub status :
      s
      ≡ all_saved node.has_storage save node.current_term
          (node.log.base_index + node.log.count)
          commands
  pub base_index : next.log.base_index ≡ node.log.base_index
  pub base_term : next.log.base_term ≡ node.log.base_term
  pub whole :
      ((s ≡ ok)
        × (out ≡ some (node.log.base_index + node.log.count + 1))
        × (map facts (contents next.log)
            ≡ map facts (contents node.log)
              ++ numbered node.current_term (node.log.base_index + node.log.count) commands))
      ⊎ ((s ≢ ok) × (out ≡ none) × (contents next.log ≡ contents node.log))

abbrev Outcome :
    (Entry → Status) → Node → List (List ℕ) → Option (Status × Node × Option ℕ) → Type 0
Outcome save node commands r =
    (s : Status) × (next : Node) × (out : Option ℕ) × (r ≡ some (s, next, out))
    × Batched save node commands s next out

finish_batch-fails :
    (node : Node) (i : ℕ) (s : Status) (log : Log)
    → s ≢ ok
    → finish_batch node i (some (s, log)) ≡ some (s, record node { log = log }, none)
finish_batch-fails node i Status.ok log h = absurd (h refl)
finish_batch-fails node i Status.not_leader log h = refl
finish_batch-fails node i Status.not_found log h = refl
finish_batch-fails node i Status.io_error log h = refl
finish_batch-fails node i Status.invalid_arg log h = refl
finish_batch-fails node i Status.no_memory log h = refl
finish_batch-fails node i Status.corruption log h = refl
finish_batch-fails node i Status.stopped log h = refl

finish_batch-Outcome :
    (save : Entry → Status) (node : Node) (commands : List (List ℕ)) (first_index : ℕ) (s : Status)
    (after : Log)
    → first_index ≡ node.log.base_index + node.log.count + 1
    → (s
        ≡ all_saved node.has_storage save node.current_term
            (node.log.base_index + node.log.count)
            commands)
    → Done node.log node.log node.current_term commands s after
    → Outcome save node commands (finish_batch node first_index (some (s, after)))
finish_batch-Outcome save node commands i s after first told (b, t, alt) = elim (ok_or_not s) [
  | inl good ↦ (
    ok,
    _,
    some i,
    ap (λ r. finish_batch node i (some (r, after))) good,
    record {
      status = sym good ∙ told;
      base_index = b;
      base_term = t;
      whole = elim alt [
        | inl (fine, all) ↦ inl (refl, ap some first, all)
        | inr (fails, back) ↦ absurd (fails good)
      ];
    },
  )
  | inr bad ↦ (
    s,
    record node { log = after },
    none,
    finish_batch-fails node i s after bad,
    record {
      status = told;
      base_index = b;
      base_term = t;
      whole = elim alt [
        | inl (fine, all) ↦ absurd (bad fine)
        | inr (fails, back) ↦ inr (bad, refl, back)
      ];
    },
  )
]

Extends-self : (log : Log) → IsValid log → Extends log log
Extends-self log v = record {
  valid = v;
  base_index = refl;
  base_term = refl;
  longer = omega arith;
  before = take_all log.count (contents log) (omega (arith, length-contents log v));
}

batch_checked-Outcome :
    (save : Entry → Status) (node : Node) (command : List ℕ) (commands : List (List ℕ))
    → IsValid node.log
    → node.log.base_index + node.log.count + length commands + 2 < u64
    → Outcome save node (command ∷ commands) (batch_checked save node (command ∷ commands))
batch_checked-Outcome save node command commands v small =
    let i = (Log.append node.log node.current_term command).1 in
    let (valid, same, index, base, base_term) =
      append_refines node.log node.current_term command v (omega arith) in
    let (s, after, e, told, done) =
      append_batch-Done node.has_storage save node.current_term node.log (command ∷ commands)
        node.log (Extends-self node.log v) (omega arith) in
    let e' =
      ap (λ k. append_batch node.has_storage save node.current_term k (command ∷ commands) node.log)
        index
      ∙ e in
    subst (λ r. Outcome save node (command ∷ commands) (finish_batch node i r)) (sym e')
      (finish_batch-Outcome save node (command ∷ commands) i s after index told done)

-- A running leader with a well-formed log that is given one or more commands, with indices left for
-- them, never reaches outside the log's array. It answers with the first failure that the storage
-- reports for their entries in order, and RAFT_OK if there is none or no storage. With RAFT_OK it has
-- appended them all, in order, in its term, under the indices that follow its last one, and reports the
-- first of these; otherwise its log holds exactly the entries that it held.
pub propose_batch-Batched :
    (save : Entry → Status) (node : Node) (command : List ℕ) (commands : List (List ℕ))
    → node.running ≡ true
    → node.role ≡ Role.leader
    → IsValid node.log
    → node.log.base_index + node.log.count + length commands + 2 < u64
    → (s : Status) × (next : Node) × (out : Option ℕ) × (propose_batch save node
          (command ∷ commands)
        ≡ some (s, next, out))
      × Batched save node (command ∷ commands) s next out
unfolding propose_batch
propose_batch-Batched save node command commands runs leads v small =
    if_case (Outcome save node (command ∷ commands)) node.running _ _
      (λ _.
        if_case (Outcome save node (command ∷ commands)) (is_leader_role node.role) _ _
          (λ _. batch_checked-Outcome save node command commands v small)
          (λ other. absurd (cc (other, ap is_leader_role leads))))
      (λ stops. absurd (cc (stops, runs)))
