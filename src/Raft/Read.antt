-- ===== src/Raft/Read.antt =====
-- read.c: reads that wait until a majority has acknowledged the leader. The list of pending reads is
-- one for the whole process. A callback is known by the context that it is given; the calls of the
-- callbacks are listed, each with the request as it was then.
pub mod Events
pub mod Quorum
mod Tests
use first_principle_cs.Base.{
  ℕ, ◌/◌, ◌+◌, ℤ, pos, negsuc, List, [], ◌∷◌, ◌++◌, Bool, true, false, ltb, leb, ◌==◌,
  if◌then◌else◌, get_or, set, replicate, length,
}
use first_principle_cs.Raft.Types.{Status, ok, not_leader, stopped}
use first_principle_cs.Raft.Node.{Node, is_leader_role}

pub record ReadRequest : Type 0 where
  pub read_index : ℕ
  pub ctx : ℕ
  pub acks_needed : ℕ
  pub acks_received : ℕ
  pub acked : List Bool

-- The pending requests, and the calls of callbacks so far.
pub record Reads : Type 0 where
  pub pending : List ReadRequest
  pub called : List (ReadRequest × Status)

abbrev pub new_request : Node → ℕ → ReadRequest
new_request node ctx = record {
  read_index = node.commit_index;
  ctx = ctx;
  acks_needed = node.num_nodes / 2;
  acks_received = 0;
  acked = replicate node.num_nodes false;
}

-- With one node the callback is called at once.
unfoldable pub read_index : Node → ℕ → Reads → Status × Reads
read_index node ctx reads =
    if node.running
    then if is_leader_role node.role
      then if node.num_nodes == 1
        then (ok, record reads { called = reads.called ++ ((new_request node ctx, ok) ∷ []) })
        else (ok, record reads { pending = reads.pending ++ (new_request node ctx ∷ []) })
      else (not_leader, reads)
    else (stopped, reads)

-- An acknowledgement counts once for each node.
unfoldable pub count_ack : ReadRequest → ℕ → ReadRequest
count_ack req from =
    if get_or req.acked from true
    then req
    else record req { acked = set req.acked from true; acks_received = req.acks_received + 1 }

abbrev pub settle : ReadRequest → Reads → Reads
settle req reads =
    if leb req.acks_needed req.acks_received
    then record reads { called = (req, ok) ∷ reads.called }
    else record reads { pending = req ∷ reads.pending }

-- The loop over the pending requests: those that stay, and the callbacks that are called, in order.
unfoldable pub process_pending : List ReadRequest → ℕ → Reads
process_pending [] from = record { pending = []; called = [] }
process_pending (req ∷ reqs) from = settle (count_ack req from) (process_pending reqs from)

abbrev pub after_ack : Reads → Reads → Reads
after_ack reads done = record { pending = done.pending; called = reads.called ++ done.called }

unfoldable pub process_ack : Node → ℤ → Reads → Reads
process_ack node (negsuc i) reads = reads
process_ack node (pos from) reads =
    if leb node.num_nodes from
    then reads
    else if is_leader_role node.role
    then after_ack reads (process_pending reads.pending from)
    else reads

unfoldable pub cancel_pending : List ReadRequest → List (ReadRequest × Status)
cancel_pending [] = []
cancel_pending (req ∷ reqs) = (req, not_leader) ∷ cancel_pending reqs

unfoldable pub cancel_all : Reads → Reads
cancel_all reads = record { pending = []; called = reads.called ++ cancel_pending reads.pending }

unfoldable pub pending_count : Reads → ℕ
pending_count reads = length reads.pending
