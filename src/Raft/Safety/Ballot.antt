-- ===== src/Raft/Safety/Ballot.antt =====
-- What elections depend on in a node, the moves that the handlers make on it, and the invariant that
-- every move keeps.
use first_principle_cs.Base.{
  ℕ, zero, suc, ◌+◌, ◌/◌, ◌≤◌, ◌<◌, ◌≡◌, refl, ap, ◌≢◌, ◌⊎◌, inl, inr, ℤ, pos, no_id, List, [], ◌∷◌,
  ◌++◌, Bool, true, false, if◌then◌else◌, length, get_or, set,
}
use first_principle_cs.Raft.Types.{Role}
use first_principle_cs.Raft.Message.{
  Message, request_vote, request_vote_response, append_entries, append_entries_response, pre_vote,
  pre_vote_response, timeout_now,
}
use first_principle_cs.Raft.Node.{Node}

-- A predicate by recursion, which the tactics take apart.
abbrev pub In : {A : Type 0} → A → List A → Type 0
In a [] = ⊥
In a (x ∷ xs) = (x ≡ a) ⊎ In a xs

pub In-append_left : {A : Type 0} (a : A) (xs ys : List A) → In a xs → In a (xs ++ ys)
In-append_left a [] ys h = absurd h
In-append_left a (x ∷ xs) ys (inl e) = inl e
In-append_left a (x ∷ xs) ys (inr h) = inr (In-append_left a xs ys h)

pub In-append_right : {A : Type 0} (a : A) (xs ys : List A) → In a ys → In a (xs ++ ys)
In-append_right a [] ys h = h
In-append_right a (x ∷ xs) ys h = inr (In-append_right a xs ys h)

pub In-append_last : {A : Type 0} (xs : List A) (a : A) → In a (xs ++ a ∷ [])
In-append_last [] a = inl refl
In-append_last (x ∷ xs) a = inr (In-append_last xs a)

pub In-append_inv : {A : Type 0} (a : A) (xs ys : List A) → In a (xs ++ ys) → In a xs ⊎ In a ys
In-append_inv a [] ys h = inr h
In-append_inv a (x ∷ xs) ys (inl e) = inl (inl e)
In-append_inv a (x ∷ xs) ys (inr h) = elim (In-append_inv a xs ys h) [
  | inl old ↦ inl (inr old)
  | inr new ↦ inr new
]

-- In a list with one more element at its end.
pub In-last_inv :
    {A : Type 0} (a : A) (xs : List A) (x : A) → In a (xs ++ x ∷ []) → In a xs ⊎ (x ≡ a)
In-last_inv a xs x h = elim (In-append_inv a xs (x ∷ []) h) [
  | inl old ↦ inl old
  | inr (inl e) ↦ inr e
  | inr (inr none) ↦ absurd none
]

-- The last element, or `d` if there is none.
abbrev pub last_or : {A : Type 0} → A → List A → A
last_or d [] = d
last_or d (x ∷ xs) = last_or x xs

pub last_or-append : {A : Type 0} (d : A) (xs : List A) (x : A) → last_or d (xs ++ x ∷ []) ≡ x
last_or-append d [] x = refl
last_or-append d (y ∷ xs) x = last_or-append y xs x

-- How many votes an array of votes holds.
abbrev pub count_true : List Bool → ℕ
count_true [] = 0
count_true (true ∷ bs) = suc (count_true bs)
count_true (false ∷ bs) = count_true bs

pub count_true-set :
    (bs : List Bool) (i : ℕ)
    → get_or bs i true ≡ false
    → count_true (set bs i true) ≡ suc (count_true bs)
count_true-set [] i h = cc
count_true-set (true ∷ bs) zero h = cc
count_true-set (false ∷ bs) zero h = refl
count_true-set (true ∷ bs) (suc i) h = ap suc (count_true-set bs i h)
count_true-set (false ∷ bs) (suc i) h = count_true-set bs i h

pub get_or-set_inv :
    (bs : List Bool) (i j : ℕ)
    → get_or (set bs i true) j false ≡ true
    → (j ≡ i) ⊎ (get_or bs j false ≡ true)
get_or-set_inv [] i j h = inr h
get_or-set_inv (b ∷ bs) zero zero h = inl refl
get_or-set_inv (b ∷ bs) zero (suc j) h = inr h
get_or-set_inv (b ∷ bs) (suc i) zero h = inr h
get_or-set_inv (b ∷ bs) (suc i) (suc j) h = elim (get_or-set_inv bs i j h) [
  | inl e ↦ inl (ap suc e)
  | inr old ↦ inr old
]

-- The votes that a message grants, with their terms, and the candidates that it asks votes for.
abbrev pub grants_of : ℤ → Message → List (ℤ × ℕ)
grants_of to (request_vote_response r) = if r.vote_granted then (to, r.term) ∷ [] else []
grants_of to (request_vote r) = []
grants_of to (append_entries r bytes) = []
grants_of to (append_entries_response r) = []
grants_of to (pre_vote r) = []
grants_of to (pre_vote_response r) = []
grants_of to (timeout_now r) = []

abbrev pub asked_by : Message → List ℤ
asked_by (request_vote r) = r.candidate_id ∷ []
asked_by (request_vote_response r) = []
asked_by (append_entries r bytes) = []
asked_by (append_entries_response r) = []
asked_by (pre_vote r) = []
asked_by (pre_vote_response r) = []
asked_by (timeout_now r) = []

abbrev pub grants_in : List (ℤ × Message) → List (ℤ × ℕ)
grants_in [] = []
grants_in ((to, m) ∷ ms) = grants_of to m ++ grants_in ms

abbrev pub asked_in : List (ℤ × Message) → List ℤ
asked_in [] = []
asked_in ((to, m) ∷ ms) = asked_by m ++ asked_in ms

-- What elections depend on: the node's vote, its tally, the votes it has saved and granted, and the
-- candidates in whose name it has asked.
pub record Ballot : Type 0 where
  pub term : ℕ
  pub voted_for : ℤ
  pub role : Role
  pub votes : List Bool
  pub received : ℕ
  pub saved : List (ℕ × ℤ)
  pub grants : List (ℤ × ℕ)
  pub asked : List ℤ

abbrev pub ballot : Node → Ballot
ballot node = record {
  term = node.current_term;
  voted_for = node.voted_for;
  role = node.role;
  votes = node.votes_granted;
  received = node.votes_received;
  saved = node.saved;
  grants = grants_in node.sent;
  asked = asked_in node.sent;
}

-- Neither candidate nor leader.
abbrev pub is_idle : Role → Bool
is_idle Role.follower = true
is_idle Role.pre_candidate = true
is_idle Role.candidate = false
is_idle Role.leader = false

-- Node `self` of `n`. `Backed t j` says that node `j` is known to have saved a vote for it in term `t`.
module _ (self n : ℕ) (Backed : ℕ → ℕ → Type 0) where
  -- What a handler may do to a ballot.
  pub data Move : Ballot → Ballot → Type 0 where
    quiet : (b : Ballot) → Move b b
    retire :
        (b : Ballot) (role : Role) (votes : List Bool) (received : ℕ)
        → is_idle role ≡ true
        → Move b (record b { role = role; votes = votes; received = received })
    adopt :
        (b : Ballot) (t : ℕ) (votes : List Bool)
        → b.term < t
        → Move b (record b {
          term = t;
          voted_for = no_id;
          role = Role.follower;
          votes = votes;
          received = 0;
          saved = b.saved ++ (t, no_id) ∷ [];
        })
    stand :
        (b : Ballot) (votes : List Bool)
        → length votes ≡ n
        → 1 ≤ count_true votes
        → ((j : ℕ) → get_or votes j false ≡ true → j ≡ self)
        → Move b (record b {
          term = b.term + 1;
          voted_for = pos self;
          role = Role.candidate;
          votes = votes;
          received = 1;
          saved = b.saved ++ (b.term + 1, pos self) ∷ [];
        })
    ask : (b : Ballot) → Move b (record b { asked = b.asked ++ pos self ∷ [] })
    tally :
        (b : Ballot) (j : ℕ)
        → Backed b.term j
        → get_or b.votes j true ≡ false
        → Move b (record b { votes = set b.votes j true; received = b.received + 1 })
    win :
        (b : Ballot)
        → b.role ≡ Role.candidate
        → n / 2 < b.received
        → Move b (record b { role = Role.leader })
    vote :
        (b : Ballot) (w : ℤ)
        → w ≢ no_id
        → (b.voted_for ≡ no_id) ⊎ (b.voted_for ≡ w)
        → Move b (record b { voted_for = w; saved = b.saved ++ (b.term, w) ∷ [] })
    grant :
        (b : Ballot) (w : ℤ)
        → In (b.term, w) b.saved
        → Move b (record b { grants = b.grants ++ (w, b.term) ∷ [] })

  pub data Moves : Ballot → Ballot → Type 0 where
    done : (b : Ballot) → Moves b b
    more : {a b c : Ballot} → Moves a b → Move b c → Moves a c

  -- A node that stands or leads has saved a vote for itself, and its tally counts saved votes.
  pub record Standing (b : Ballot) : Type 0 where
    pub own : b.voted_for ≡ pos self
    pub own_saved : In (b.term, pos self) b.saved
    pub sized : length b.votes ≡ n
    pub counted : b.received ≤ count_true b.votes
    pub backed : (j : ℕ) → get_or b.votes j false ≡ true → (j ≡ self) ⊎ Backed b.term j

  -- The current term and vote are the last ones saved. Saved votes are never of a later term, agree
  -- with the current vote, and are one a term; granted votes are saved; a leader has a majority.
  pub record BallotInv (b : Ballot) : Type 0 where
    pub durable : last_or (0, no_id) b.saved ≡ (b.term, b.voted_for)
    pub current :
        (t : ℕ) (w : ℤ)
        → In (t, w) b.saved
        → w ≢ no_id
        → (t ≤ b.term) × (t ≡ b.term → b.voted_for ≡ w)
    pub once :
        (t : ℕ) (w w' : ℤ)
        → In (t, w) b.saved
        → In (t, w') b.saved
        → w ≢ no_id
        → w' ≢ no_id
        → w ≡ w'
    pub granted : (w : ℤ) (t : ℕ) → In (w, t) b.grants → In (t, w) b.saved
    pub asks : (w : ℤ) → In w b.asked → w ≡ pos self
    pub standing : is_idle b.role ≡ false → Standing b
    pub elected : b.role ≡ Role.leader → n / 2 < count_true b.votes
