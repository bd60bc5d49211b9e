-- ===== src/Raft/Safety/Keep.antt =====
-- Every move keeps the invariant of a ballot.
use first_principle_cs.Base.{
  ℕ, ◌+◌, ◌/◌, ◌≤◌, ◌<◌, ◌≡◌, refl, sym, ap, subst, ◌∙◌, ◌≢◌, ◌⊎◌, inl, inr, ℤ, pos, no_id, List,
  [], ◌∷◌, ◌++◌, Bool, true, false, length, get_or, set, arith, length-set,
}
use first_principle_cs.Raft.Types.{Role}
use first_principle_cs.Raft.Safety.Ballot.{
  In, In-append_left, In-append_last, In-last_inv, last_or-append, count_true, count_true-set,
  get_or-set_inv, Ballot, is_idle, Move, quiet, retire, adopt, stand, ask, tally, win, vote, grant,
  Moves, done, more, BallotInv,
}

-- A saved list with one more vote.
module _ (saved : List (ℕ × ℤ)) (term t : ℕ) (w : ℤ) where
  -- No vote of the new term has been saved, and the new one is of a term no earlier.
  abbrev Bounded : Type 0
  Bounded = (s : ℕ) (v : ℤ) → In (s, v) saved → v ≢ no_id → s ≤ term

  current-later :
      Bounded
      → term < t
      → (s : ℕ) (v : ℤ) → In (s, v) (saved ++ (t, w) ∷ [])
      → v ≢ no_id
      → (s ≤ t) × (s ≡ t → w ≡ v)
  current-later bounded later s v h ne = elim (In-last_inv (s, v) saved (t, w) h) [
    | inl old ↦ let le = bounded s v old ne in (omega arith, λ e. absurd (omega arith))
    | inr e ↦ ground arith
  ]

  abbrev Once : List (ℕ × ℤ) → Type 0
  Once votes =
      (s : ℕ) (v v' : ℤ) → In (s, v) votes → In (s, v') votes → v ≢ no_id → v' ≢ no_id → v ≡ v'

  -- Uniqueness, if the old votes of the term are the new one.
  Once-last :
      ((s : ℕ) (v : ℤ) → In (s, v) saved → s ≡ t → v ≢ no_id → w ≢ no_id → v ≡ w)
      → Once saved
      → Once (saved ++ (t, w) ∷ [])
  Once-last same once s v v' h h' ne ne' = elim (In-last_inv (s, v) saved (t, w) h) [
    | inl old ↦ elim (In-last_inv (s, v') saved (t, w) h') [
      | inl old' ↦ once s v v' old old' ne ne'
      | inr e' ↦
          same s v old (sym (ap (λ p. p.0) e')) ne (λ q. ne' (sym (ap (λ p. p.1) e') ∙ q))
          ∙ ap (λ p. p.1) e'
    ]
    | inr e ↦ elim (In-last_inv (s, v') saved (t, w) h') [
      | inl old' ↦
          sym (ap (λ p. p.1) e)
          ∙ sym (same s v' old' (sym (ap (λ p. p.0) e)) ne' (λ q. ne (sym (ap (λ p. p.1) e) ∙ q)))
      | inr e' ↦ sym (ap (λ p. p.1) e) ∙ ap (λ p. p.1) e'
    ]
  ]

module _ (self n : ℕ) (Backed : ℕ → ℕ → Type 0) where
  abbrev Inv : Ballot → Type 0
  Inv = BallotInv self n Backed

  retire-BallotInv :
      (b : Ballot) (role : Role) (votes : List Bool) (received : ℕ)
      → is_idle role ≡ true
      → Inv b
      → Inv (record b { role = role; votes = votes; received = received })
  retire-BallotInv b role votes received idle v = record {
    durable = v.durable;
    current = v.current;
    once = v.once;
    granted = v.granted;
    asks = v.asks;
    standing = λ h. cc;
    elected = λ h. cc (ap is_idle h);
  }

  adopt-BallotInv :
      (b : Ballot) (t : ℕ) (votes : List Bool)
      → b.term < t
      → Inv b
      → Inv (record b {
        term = t;
        voted_for = no_id;
        role = Role.follower;
        votes = votes;
        received = 0;
        saved = b.saved ++ (t, no_id) ∷ [];
      })
  adopt-BallotInv b t votes later v = record {
    durable = last_or-append (0, no_id) b.saved (t, no_id);
    current = current-later b.saved b.term t no_id (λ s w h ne. (v.current s w h ne).0) later;
    once = Once-last b.saved b.term t no_id (λ s w h e ne ne'. absurd (ne' refl)) v.once;
    granted = λ w s h. In-append_left (s, w) b.saved _ (v.granted w s h);
    asks = v.asks;
    standing = λ h. cc;
    elected = λ h. cc;
  }

  stand-BallotInv :
      (b : Ballot) (votes : List Bool)
      → length votes ≡ n
      → 1 ≤ count_true votes
      → ((j : ℕ) → get_or votes j false ≡ true → j ≡ self)
      → Inv b
      → Inv (record b {
        term = b.term + 1;
        voted_for = pos self;
        role = Role.candidate;
        votes = votes;
        received = 1;
        saved = b.saved ++ (b.term + 1, pos self) ∷ [];
      })
  stand-BallotInv b votes sized one only v = record {
    durable = last_or-append (0, no_id) b.saved (b.term + 1, pos self);
    current =
        current-later b.saved b.term (b.term + 1) (pos self) (λ s w h ne. (v.current s w h ne).0)
          (omega arith);
    once =
        Once-last b.saved b.term (b.term + 1) (pos self)
          (λ s w h e ne ne'. let le = (v.current s w h ne).0 in absurd (omega arith)) v.once;
    granted = λ w s h. In-append_left (s, w) b.saved _ (v.granted w s h);
    asks = v.asks;
    standing = λ h. record {
      own = refl;
      own_saved = In-append_last b.saved (b.term + 1, pos self);
      sized = sized;
      counted = one;
      backed = λ j g. inl (only j g);
    };
    elected = λ h. cc;
  }

  ask-BallotInv : (b : Ballot) → Inv b → Inv (record b { asked = b.asked ++ pos self ∷ [] })
  ask-BallotInv b v = record {
    durable = v.durable;
    current = v.current;
    once = v.once;
    granted = v.granted;
    asks =
        λ w h. elim (In-last_inv w b.asked (pos self) h) [ inl old ↦ v.asks w old | inr e ↦ sym e ];
    standing = λ h.
        let s = v.standing h in
        record {
          own = s.own;
          own_saved = s.own_saved;
          sized = s.sized;
          counted = s.counted;
          backed = s.backed;
        };
    elected = v.elected;
  }

  tally-BallotInv :
      (b : Ballot) (j : ℕ)
      → Backed b.term j
      → get_or b.votes j true ≡ false
      → Inv b
      → Inv (record b { votes = set b.votes j true; received = b.received + 1 })
  tally-BallotInv b j backed free v = record {
    durable = v.durable;
    current = v.current;
    once = v.once;
    granted = v.granted;
    asks = v.asks;
    standing = λ h.
        let s = v.standing h in
        record {
          own = s.own;
          own_saved = s.own_saved;
          sized = length-set b.votes j true ∙ s.sized;
          counted = omega (arith, s.counted, count_true-set b.votes j free);
          backed = λ i g. elim (get_or-set_inv b.votes j i g) [
            | inl e ↦ inr (subst (Backed b.term) (sym e) backed)
            | inr old ↦ s.backed i old
          ];
        };
    elected = λ h. omega (arith, v.elected h, count_true-set b.votes j free);
  }

  win-BallotInv :
      (b : Ballot)
      → b.role ≡ Role.candidate
      → n / 2 < b.received
      → Inv b
      → Inv (record b { role = Role.leader })
  win-BallotInv b candidate majority v =
      let s = v.standing (ap is_idle candidate) in
      record {
        durable = v.durable;
        current = v.current;
        once = v.once;
        granted = v.granted;
        asks = v.asks;
        standing = λ h. record {
          own = s.own;
          own_saved = s.own_saved;
          sized = s.sized;
          counted = s.counted;
          backed = s.backed;
        };
        elected = λ h. omega (arith, s.counted);
      }

  vote-BallotInv :
      (b : Ballot) (w : ℤ)
      → w ≢ no_id
      → (b.voted_for ≡ no_id) ⊎ (b.voted_for ≡ w)
      → Inv b
      → Inv (record b { voted_for = w; saved = b.saved ++ (b.term, w) ∷ [] })
  vote-BallotInv b w real free v = record {
    durable = last_or-append (0, no_id) b.saved (b.term, w);
    current = λ s u h ne. elim (In-last_inv (s, u) b.saved (b.term, w) h) [
      | inl old ↦ ((v.current s u old ne).0, λ e. sym (agree s u old e ne))
      | inr e ↦ (omega (arith, ap (λ p. p.0) e), λ _. ap (λ p. p.1) e)
    ];
    once = Once-last b.saved b.term b.term w (λ s u h e ne ne'. agree s u h e ne) v.once;
    granted = λ u s h. In-append_left (s, u) b.saved _ (v.granted u s h);
    asks = v.asks;
    standing = λ h.
        let s = v.standing h in
        record {
          own = elim free [ inl none ↦ cc (sym s.own ∙ none) | inr same ↦ sym same ∙ s.own ];
          own_saved = In-append_left _ b.saved _ s.own_saved;
          sized = s.sized;
          counted = s.counted;
          backed = s.backed;
        };
    elected = v.elected;
  }
    where
      agree : (s : ℕ) (u : ℤ) → In (s, u) b.saved → s ≡ b.term → u ≢ no_id → u ≡ w
      agree s u h e ne = elim free [
        | inl none ↦ absurd (ne (sym ((v.current s u h ne).1 e) ∙ none))
        | inr same ↦ sym ((v.current s u h ne).1 e) ∙ same
      ]

  grant-BallotInv :
      (b : Ballot) (w : ℤ)
      → In (b.term, w) b.saved
      → Inv b
      → Inv (record b { grants = b.grants ++ (w, b.term) ∷ [] })
  grant-BallotInv b w kept v = record {
    durable = v.durable;
    current = v.current;
    once = v.once;
    granted = λ u s h. elim (In-last_inv (u, s) b.grants (w, b.term) h) [
      | inl old ↦ v.granted u s old
      | inr e ↦ subst (λ p. In (p.1, p.0) b.saved) e kept
    ];
    asks = v.asks;
    standing = λ h.
        let s = v.standing h in
        record {
          own = s.own;
          own_saved = s.own_saved;
          sized = s.sized;
          counted = s.counted;
          backed = s.backed;
        };
    elected = v.elected;
  }

  -- Every move keeps the invariant, whatever is known of the other nodes.
  pub Move-BallotInv : {b c : Ballot} → Move self n Backed b c → Inv b → Inv c
  Move-BallotInv (quiet b) v = v
  Move-BallotInv (retire b role votes received idle) v =
      retire-BallotInv b role votes received idle v
  Move-BallotInv (adopt b t votes later) v = adopt-BallotInv b t votes later v
  Move-BallotInv (stand b votes sized one only) v = stand-BallotInv b votes sized one only v
  Move-BallotInv (ask b) v = ask-BallotInv b v
  Move-BallotInv (tally b j backed free) v = tally-BallotInv b j backed free v
  Move-BallotInv (win b candidate majority) v = win-BallotInv b candidate majority v
  Move-BallotInv (vote b w real free) v = vote-BallotInv b w real free v
  Move-BallotInv (grant b w kept) v = grant-BallotInv b w kept v

  pub Moves-BallotInv : {b c : Ballot} → Moves self n Backed b c → Inv b → Inv c
  Moves-BallotInv (done b) v = v
  Moves-BallotInv (more ms m) v = Move-BallotInv m (Moves-BallotInv ms v)

-- What a node has saved stays saved.
pub Move-saved :
    {self n : ℕ} {Backed : ℕ → ℕ → Type 0} {b c : Ballot} (p : ℕ × ℤ)
    → Move self n Backed b c
    → In p b.saved
    → In p c.saved
Move-saved p (quiet b) h = h
Move-saved p (retire b role votes received idle) h = h
Move-saved p (adopt b t votes later) h = In-append_left _ b.saved _ h
Move-saved p (stand b votes sized one only) h = In-append_left _ b.saved _ h
Move-saved p (ask b) h = h
Move-saved p (tally b j backed free) h = h
Move-saved p (win b candidate majority) h = h
Move-saved p (vote b w real free) h = In-append_left _ b.saved _ h
Move-saved p (grant b w kept) h = h

pub Moves-saved :
    {self n : ℕ} {Backed : ℕ → ℕ → Type 0} {b c : Ballot} (p : ℕ × ℤ)
    → Moves self n Backed b c
    → In p b.saved
    → In p c.saved
Moves-saved p (done b) h = h
Moves-saved p (more ms m) h = Move-saved p m (Moves-saved p ms h)
