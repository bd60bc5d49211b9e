-- ===== src/Raft/Read/Events.antt =====
-- Reads and what has been done with them: who has asked, who has acknowledged since.
use first_principle_cs.Base.{
  ℕ, ◌/◌, ◌≤◌, ◌<◌, ◌≡◌, ap, ◌⊎◌, inr, ℤ, pos, List, [], ◌∷◌, ◌++◌, true, false, get_or, length,
}
use first_principle_cs.Raft.Types.{Status, ok}
use first_principle_cs.Raft.Node.{Node, is_leader_role}
use first_principle_cs.Raft.Read.{ReadRequest, Reads, read_index, process_ack, cancel_all}
use first_principle_cs.Raft.Safety.Ballot.{count_true}

-- The request knows how many nodes have acknowledged, and how many it needs.
pub record Counted (n : ℕ) (req : ReadRequest) : Type 0 where
  pub sized : length req.acked ≡ n
  pub received : req.acks_received ≡ count_true req.acked
  pub needed : req.acks_needed ≡ n / 2

-- What is done with the reads: a read is asked for, an acknowledgement comes in, all are cancelled.
pub data Event : Type 0 where
  asked : (node : Node) (ctx : ℕ) → Event
  acknowledged : (node : Node) (from : ℤ) → Event
  cancelled : Event

-- Among the events, the last one first, is an acknowledgement by node `i` that came in at a leader.
abbrev pub Heard : ℕ → List Event → Type 0
Heard i [] = ⊥
Heard i (e ∷ events) =
    ((node : Node) × (e ≡ acknowledged node (pos i)) × (is_leader_role node.role ≡ true))
    ⊎ Heard i events

-- The request was asked for, of a leader and with its commit index as it was then, and each node that
-- is marked has acknowledged after that.
pub record Backed (events : List Event) (req : ReadRequest) : Type 0 where
  pub node : Node
  pub later : List Event
  pub earlier : List Event
  pub all : events ≡ later ++ asked node req.ctx ∷ earlier
  pub leads : is_leader_role node.role ≡ true
  pub index : req.read_index ≡ node.commit_index
  pub heard : (i : ℕ) → get_or req.acked i false ≡ true → Heard i later

abbrev pub Waiting : ℕ → List Event → ReadRequest → Type 0
Waiting n events req = Counted n req × Backed events req × (req.acks_received < req.acks_needed)

-- Of `n` nodes, half of them, rounded down, have acknowledged since the request was asked for.
abbrev pub Served : ℕ → List Event → ReadRequest × Status → Type 0
Served n events (req, s) =
    s ≡ ok → (length req.acked ≡ n) × (n / 2 ≤ count_true req.acked) × Backed events req

abbrev pub All {ℓ} : {A : Type ℓ} → (A → Type 0) → List A → Type 0
All P [] = Unit {0}
All P (x ∷ xs) = P x × All P xs

pub All-append {ℓ} :
    {A : Type ℓ} (P : A → Type 0) (xs ys : List A) → All P xs → All P ys → All P (xs ++ ys)
All-append P [] ys a b = b
All-append P (x ∷ xs) ys a b = (a.0, All-append P xs ys a.1 b)

All-map {ℓ} :
    {A : Type ℓ} (P Q : A → Type 0) (xs : List A) → ((x : A) → P x → Q x) → All P xs → All Q xs
All-map P Q [] f a = tt
All-map P Q (x ∷ xs) f a = (f x a.0, All-map P Q xs f a.1)

pub record ReadsInv (n : ℕ) (events : List Event) (reads : Reads) : Type 0 where
  pub waiting : All (Waiting n events) reads.pending
  pub served : All (Served n events) reads.called

-- What happens to the reads of a cluster of `n` nodes.
pub data Happens (n : ℕ) (reads : Reads) : Event → Reads → Type 0 where
  asks :
      (node : Node) (ctx : ℕ)
      → node.num_nodes ≡ n
      → Happens n reads (asked node ctx) (read_index node ctx reads).1
  acks :
      (node : Node) (from : ℤ)
      → node.num_nodes ≡ n
      → Happens n reads (acknowledged node from) (process_ack node from reads)
  cancels : Happens n reads cancelled (cancel_all reads)

pub data Follows (n : ℕ) (start : Reads) : List Event → Reads → Type 0 where
  none_yet : Follows n start [] start
  goes_on :
      {events : List Event} {e : Event} {r s : Reads}
      → Follows n start events r
      → Happens n r e s
      → Follows n start (e ∷ events) s

-- What has happened stays so.
pub Backed-later :
    (events : List Event) (e : Event) (req : ReadRequest)
    → Backed events req
    → Backed (e ∷ events) req
Backed-later events e req b = record {
  node = b.node;
  later = e ∷ b.later;
  earlier = b.earlier;
  all = ap (e ∷◌) b.all;
  leads = b.leads;
  index = b.index;
  heard = λ i marked. inr (b.heard i marked);
}

Served-later :
    (n : ℕ) (events : List Event) (e : Event) (call : ReadRequest × Status)
    → Served n events call
    → Served n (e ∷ events) call
Served-later n events e (req, s) v fine =
    let (sized, enough, b) = v fine in (sized, enough, Backed-later events e req b)

pub ReadsInv-later :
    (n : ℕ) (events : List Event) (e : Event) (reads : Reads)
    → ReadsInv n events reads
    → ReadsInv n (e ∷ events) reads
ReadsInv-later n events e reads v = record {
  waiting =
      All-map (Waiting n events) (Waiting n (e ∷ events)) reads.pending
        (λ req w. (w.0, Backed-later events e req w.1, w.2)) v.waiting;
  served =
      All-map (Served n events) (Served n (e ∷ events)) reads.called (Served-later n events e)
        v.served;
}
