-- ===== src/Raft/Log/View.antt =====
-- log.c seen as a list of entries behind a base index: appending and reading.
use first_principle_cs.Base.{
  ℕ, zero, suc, ◌+◌, ◌-◌, ◌≤◌, ◌<◌, ◌≡◌, refl, ap, ◌∙◌, List, [], ◌∷◌, ◌++◌, none, arith, length,
  get_elem?, get_or, take, replicate, u64, length-append, length-replicate, take-append_le,
  get_elem?-take, length-take, get_elem?_beyond, Bool-cases, if◌then◌else◌, inl, inr, leb, leb→le,
  ◌%◌,
}
use first_principle_cs.Raft.Types.{Entry, EntryType}
use first_principle_cs.Raft.Log.{
  Log, create, log_grow, with_room, fill, push_entry, next_log_index, append, get, last_index,
}

-- The entries in use, oldest first.
abbrev pub contents : Log → List Entry
contents log = take log.count log.slots

-- The slots are there, and no index of the log, the next one included, wraps round.
pub record IsValid (log : Log) : Type 0 where
  pub allocated : length log.slots ≡ log.capacity
  pub nonempty : 0 < log.capacity
  pub within : log.count ≤ log.capacity
  pub small : log.base_index + log.count + 1 < u64

-- The entries carry their own positions.
abbrev pub Indexed : ℕ → List Entry → Type 0
Indexed b [] = Unit {0}
Indexed b (e ∷ es) = (e.index ≡ suc b) × Indexed (suc b) es

length-fill :
    (es : List Entry) (i term index : ℕ) (command : List ℕ)
    → length (fill es i term index command) ≡ length es
length-fill [] i term index command = refl
length-fill (e ∷ es) zero term index command = refl
length-fill (e ∷ es) (suc i) term index command = ap suc (length-fill es i term index command)

take-fill :
    (es : List Entry) (i term index : ℕ) (command : List ℕ) (d : Entry)
    → i < length es
    → take (suc i) (fill es i term index command)
      ≡ take i es
        ++ record { term = term; index = index; type = (get_or es i d).type; command = command }
          ∷ []
take-fill [] i term index command d h = elim h [ ]
take-fill (e ∷ es) zero term index command d h = refl
take-fill (e ∷ es) (suc i) term index command d h =
    ap (◌∷◌ e) (take-fill es i term index command d (omega arith))

-- The type that the next entry will have: what its slot holds already.
abbrev pub slot_type : Log → EntryType
slot_type log = (get_or log.slots log.count log.fresh).type

abbrev pub new_entry : Log → ℕ → List ℕ → Entry
new_entry log term command = record {
  term = term;
  index = log.base_index + log.count + 1;
  type = slot_type log;
  command = command;
}

create-IsValid : (fresh : Entry) → IsValid (create fresh)
unfolding create
create-IsValid fresh = omega arith

push_entry-IsValid :
    (log : Log) (term : ℕ) (command : List ℕ)
    → IsValid log
    → log.count < log.capacity
    → log.base_index + log.count + 2 < u64
    → IsValid (push_entry log term command)
unfolding push_entry
push_entry-IsValid log term command v room small =
    omega (arith, length-fill log.slots log.count term (next_log_index log) command)

log_grow-IsValid : (log : Log) → IsValid log → IsValid (log_grow log)
unfolding log_grow
log_grow-IsValid log v = omega (
  arith,
  length-append {0} log.slots (replicate log.capacity log.fresh),
  length-replicate {0} log.capacity log.fresh,
)

contents-push_entry :
    (log : Log) (term : ℕ) (command : List ℕ)
    → IsValid log
    → log.count < log.capacity
    → log.base_index + log.count + 2 < u64
    → contents (push_entry log term command) ≡ contents log ++ new_entry log term command ∷ []
unfolding push_entry
contents-push_entry log term command v room small =
    rw (index, count) (take-fill log.slots log.count term _ command log.fresh (omega arith))
  where
    index : next_log_index log ≡ log.base_index + log.count + 1
    index = omega arith

    count : (log.count + 1) % u64 ≡ suc log.count
    count = omega arith

get_or-append-replicate :
    (xs : List Entry) (n i : ℕ) (d : Entry) → get_or (xs ++ replicate n d) i d ≡ get_or xs i d
get_or-append-replicate [] zero i d = refl
get_or-append-replicate [] (suc n) zero d = refl
get_or-append-replicate [] (suc n) (suc i) d = get_or-append-replicate [] n i d
get_or-append-replicate (x ∷ xs) n zero d = refl
get_or-append-replicate (x ∷ xs) n (suc i) d = get_or-append-replicate xs n i d

-- What growing leaves alone.
record HasRoom (log grown : Log) : Type 0 where
  valid : IsValid grown
  room : grown.count < grown.capacity
  count : grown.count ≡ log.count
  base_index : grown.base_index ≡ log.base_index
  base_term : grown.base_term ≡ log.base_term
  contents_eq : contents grown ≡ contents log
  type_eq : slot_type grown ≡ slot_type log

with_room-HasRoom : (log : Log) → IsValid log → HasRoom log (with_room log)
unfolding with_room
with_room-HasRoom log v = elim (Bool-cases (leb log.capacity log.count)) [
  | inl full ↦ rw full (record {
    valid = log_grow-IsValid log v;
    room = unfold log_grow in omega (arith, leb→le _ _ full);
    count = unfold log_grow in refl;
    base_index = unfold log_grow in refl;
    base_term = unfold log_grow in refl;
    contents_eq = unfold log_grow in take-append_le log.count log.slots _ (omega arith);
    type_eq =
        unfold log_grow in
        ap (λ e. e.type) (get_or-append-replicate log.slots log.capacity log.count log.fresh);
  })
  | inr free ↦ rw free (record {
    valid = v;
    room = ground arith;
    count = refl;
    base_index = refl;
    base_term = refl;
    contents_eq = refl;
    type_eq = refl;
  })
]

-- On a well-formed log with room for one more index, `raft_log_append` keeps the log well formed, and adds exactly one entry at the end: the given term
-- and command under the next index, which is also what it reports. The entry's type is the one that
-- its slot held before.
pub append_refines :
    (log : Log) (term : ℕ) (command : List ℕ)
    → IsValid log
    → log.base_index + log.count + 2 < u64
    → let (log', index) = append log term command in
      IsValid log'
      × (contents log' ≡ contents log ++ new_entry log term command ∷ [])
      × (index ≡ log.base_index + log.count + 1)
      × (log'.base_index ≡ log.base_index)
      × (log'.base_term ≡ log.base_term)
unfolding append
append_refines log term command v small =
    let h = with_room-HasRoom log v in
    (
      push_entry-IsValid (with_room log) term command h.valid h.room (omega arith),
      contents-push_entry (with_room log) term command h.valid h.room (omega arith)
          ∙ ground (arith, h.contents_eq, h.type_eq, h.count, h.base_index),
      omega arith,
      ground (arith, h.base_index),
      ground (arith, h.base_term),
    )

pub length-contents : (log : Log) → IsValid log → length (contents log) ≡ log.count
length-contents log v = omega (arith, length-take {0} log.count log.slots)

-- `raft_log_get` finds nothing at or below the base, and behind it the entry of that position, if the
-- log reaches so far.
pub get_lem :
    (log : Log) (index : ℕ)
    → IsValid log
    → index < u64
    → get log index ≡ (
        if leb index log.base_index
        then none
        else get_elem? (contents log) (index - log.base_index - 1))
unfolding get
get_lem log index v small = elim (Bool-cases (leb log.count (index - log.base_index - 1))) [
  | inl beyond ↦ ground (
    arith,
    get_elem?_beyond (contents log) (index - log.base_index - 1)
        (omega (arith, length-contents log v, leb→le _ _ beyond)),
  )
  | inr inside ↦ ground (arith, get_elem?-take log.count log.slots (index - log.base_index - 1))
]

pub last_index_lem : (log : Log) → IsValid log → last_index log ≡ log.base_index + log.count
unfolding last_index
last_index_lem log v = ground arith

Indexed-append :
    (b : ℕ) (es : List Entry) (e : Entry)
    → Indexed b es
    → e.index ≡ b + length es + 1
    → Indexed b (es ++ e ∷ [])
Indexed-append b [] e h p = (omega arith, tt)
Indexed-append b (x ∷ xs) e h p = (h.0, Indexed-append (suc b) xs e h.1 (omega arith))

-- Appending keeps every entry's index equal to its position.
pub append-Indexed :
    (log : Log) (term : ℕ) (command : List ℕ)
    → IsValid log
    → log.base_index + log.count + 2 < u64
    → Indexed log.base_index (contents log)
    → let log' = (append log term command).0 in Indexed log'.base_index (contents log')
append-Indexed log term command v small h =
    let (valid, same, index, base, base_term) = append_refines log term command v small in
    rw (base, same)
      (Indexed-append log.base_index (contents log) (new_entry log term command) h
        (omega (arith, length-contents log v)))
