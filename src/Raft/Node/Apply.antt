-- ===== src/Raft/Node/Apply.antt =====
-- `raft_apply_committed`: what reaches the application, and when it does.
use first_principle_cs.Base.{
  ℕ, zero, suc, ◌+◌, ◌-◌, ◌≤◌, ◌<◌, ◌≡◌, refl, sym, ap, subst, ◌∙◌, List, [], ◌∷◌, ◌++◌, some, true,
  get_elem?, take, drop, u64, add64, arith, max, leb, get_elem?_within, if_case,
}
use mathlib.Core.List.{append_assoc, append-nil}
use mathlib.Core.Option.{some-injective}
use first_principle_cs.Raft.Types.{Entry}
use first_principle_cs.Raft.Log
use first_principle_cs.Raft.Log.View.{IsValid, contents, get_lem, length-contents}
use first_principle_cs.Raft.Node.{Node, apply_next, apply_rounds, apply_committed}

-- What follows from position `k` on, `n` entries of it.
take-drop-suc :
    (es : List Entry) (n k : ℕ) (e : Entry)
    → get_elem? es k ≡ some e
    → take (suc n) (drop k es) ≡ e ∷ take n (drop (suc k) es)
take-drop-suc [] n k e h = cc
take-drop-suc (x ∷ xs) n zero e h = ap (λ y. y ∷ take n xs) (some-injective x e h)
take-drop-suc (x ∷ xs) n (suc k) e h = take-drop-suc xs n k e h

-- `n` entries more are applied, in the order of the log, and all else is as it was.
pub record Applied (node next : Node) (n : ℕ) : Type 0 where
  pub reaches : next.last_applied ≡ node.last_applied + n
  pub in_order :
      next.applied
      ≡ node.applied ++ take n (drop (node.last_applied - node.log.base_index) (contents node.log))
  pub commit_index_eq : next.commit_index ≡ node.commit_index
  pub log_eq : next.log ≡ node.log

add64_base : (i base : ℕ) → base ≤ i → i + 1 < u64 → add64 i 1 - base ≡ suc (i - base)
add64_base i base low small = omega arith

-- The entry behind `last_applied`.
next_entry :
    (log : Log.Log) (i : ℕ)
    → IsValid log
    → log.base_index ≤ i
    → i < log.base_index + log.count
    → (e : Entry) × (get_elem? (contents log) (i - log.base_index) ≡ some e)
      × (Log.get log (add64 i 1) ≡ some e)
next_entry log i v low high =
    let (e, there) =
      get_elem?_within (contents log) (i - log.base_index) (omega (arith, length-contents log v)) in
    (
      e,
      there,
      ap (Log.get log) {y = i + 1} (omega arith)
          ∙ get_lem log (i + 1) v (omega arith)
          ∙ if_case (λ r. r ≡ some e) (leb (i + 1) log.base_index) _ _ (λ h. absurd (ground arith))
              (λ h. subst (λ k. get_elem? (contents log) k ≡ some e) (omega arith) there),
    )

apply_rounds-Applied :
    (n : ℕ) (node : Node)
    → IsValid node.log
    → node.log.base_index ≤ node.last_applied
    → node.last_applied + n ≤ node.log.base_index + node.log.count
    → Applied node (apply_rounds n node) n
unfolding apply_rounds apply_next
apply_rounds-Applied zero node v low high = record {
  reaches = omega arith;
  in_order = sym (append-nil node.applied);
  commit_index_eq = refl;
  log_eq = refl;
}
apply_rounds-Applied (suc n) node v low high =
    let base = node.log.base_index in
    let es = contents node.log in
    let (e, there, found) = next_entry node.log node.last_applied v low (omega arith) in
    let rest = apply_rounds-Applied n (apply_next node) v (omega arith) (omega arith) in
    record {
      reaches = omega (arith, rest.reaches);
      in_order =
          rest.in_order
          ∙ rw (found, add64_base node.last_applied base low (omega arith))
              (append_assoc node.applied (e ∷ [])
                (take n (drop (suc (node.last_applied - base)) es)))
          ∙ ap (node.applied ++◌) (sym (take-drop-suc es n (node.last_applied - base) e there));
      commit_index_eq = rest.commit_index_eq;
      log_eq = rest.log_eq;
    }

-- With an apply callback, a well-formed log, and the entries from `last_applied` on, up to the commit
-- index, in the log, `raft_apply_committed` calls the
-- application once for each entry behind `last_applied` up to the commit index, in the order of the
-- log, and moves `last_applied` to the commit index, or leaves it if it was there or beyond.
pub apply_committed-Applied :
    (node : Node)
    → IsValid node.log
    → node.has_apply ≡ true
    → node.log.base_index ≤ node.last_applied
    → node.last_applied ≤ node.log.base_index + node.log.count
    → node.commit_index ≤ node.log.base_index + node.log.count
    → let next = apply_committed node in
      (next.last_applied ≡ max node.last_applied node.commit_index)
      × Applied node next (node.commit_index - node.last_applied)
unfolding apply_committed
apply_committed-Applied node v calls low inside high =
    let done =
      apply_rounds-Applied (node.commit_index - node.last_applied) node v low (omega arith) in
    if_case
      (λ (next : Node).
        (next.last_applied ≡ max node.last_applied node.commit_index)
        × Applied node next (node.commit_index - node.last_applied))
      node.has_apply _ _ (λ _. (omega (arith, done.reaches), done))
      (λ none. absurd (cc (none, calls)))
