-- ===== src/Messages/Recovery.antt =====
-- primary/src/messages.rs, `TC::get_winning_proposals`: the proposals of a timeout certificate.
use auto_pilot.Prelude.{
  ltb, if◌then◌else◌, lt→ltb, le→ltb_false, nat_eq, pair_eq, ◌≤◌, ◌<◌, ◌≡◌, refl, ap, ◌∙◌, ◌⊎◌, inl,
  inr, Option, [], arith,
}
use auto_pilot.Crypto.{Dalek, PublicKey, Signature}
use auto_pilot.Config.Committee.{Committee}
use auto_pilot.Messages.Types.{
  View, Slot, Proposals, Qc, AggregateReport, Tc, Timeouts, OptionMessage, tc_timeouts, prepare,
  confirm, commit, new_tc, no_timeouts, cons_timeout, new_timeout, no_message, some_message,
}
use auto_pilot.Messages.Winning.{
  Winning, nothing_won, count_prepare, winning_from, get_winning_proposals,
}

abbrev pub append_timeouts : Timeouts → Timeouts → Timeouts
append_timeouts no_timeouts us = us
append_timeouts (cons_timeout t ts) us = cons_timeout t (append_timeouts ts us)

-- A high QC other than a Commit.
abbrev pub NotCommit : OptionMessage → Type 0
NotCommit (some_message (commit _ _ _ _ _)) = ⊥
NotCommit _ = Unit {0}

abbrev pub NoCommits : Timeouts → Type 0
NoCommits no_timeouts = Unit {0}
NoCommits (cons_timeout (new_timeout s v qc prop a g) ts) = NotCommit qc × NoCommits ts

-- The message's view is at most `v`, and it is no Commit.
abbrev pub ViewBelow : View → OptionMessage → Type 0
ViewBelow v no_message = Unit {0}
ViewBelow v (some_message (prepare _ view _ _ _ _)) = view ≤ v
ViewBelow v (some_message (confirm _ view _ _ _)) = view ≤ v
ViewBelow v (some_message (commit _ _ _ _ _)) = ⊥

abbrev pub ViewsBelow : View → Timeouts → Type 0
ViewsBelow v no_timeouts = Unit {0}
ViewsBelow v (cons_timeout (new_timeout s u qc prop a g) ts) =
    ViewBelow v qc × ViewBelow v prop × ViewsBelow v ts

-- A message with these proposals.
abbrev pub Holds : Proposals → OptionMessage → Type 0
Holds p no_message = ⊥
Holds p (some_message (prepare _ _ _ _ q _)) = p ≡ q
Holds p (some_message (confirm _ _ _ q _)) = p ≡ q
Holds p (some_message (commit _ _ _ q _)) = p ≡ q

-- A timeout whose high QC or high proposal has these proposals.
abbrev pub Carries : Proposals → Timeouts → Type 0
Carries p no_timeouts = ⊥
Carries p (cons_timeout (new_timeout s v qc prop a g) ts) =
    (Holds p qc ⊎ Holds p prop) ⊎ Carries p ts

-- Proposals that step from `w` to `q` by one message and from `q` to `p` by the rest.
chain :
    {C : Type 0} (p q w : Proposals) (m : OptionMessage)
    → (q ≡ w) ⊎ Holds q m
    → (p ≡ q) ⊎ C
    → (p ≡ w) ⊎ (Holds p m ⊎ C)
chain p q w m (inl e) (inl h) = inl (h ∙ e)
chain p q w m (inr e) (inl h) = inr (inl (rw h e))
chain p q w m e (inr h) = inr (inr h)

skip : {A B C D : Type 0} → A ⊎ (B ⊎ C) → A ⊎ ((D ⊎ B) ⊎ C)
skip (inl a) = inl a
skip (inr (inl b)) = inr (inl (inr b))
skip (inr (inr c)) = inr (inr c)

join : {A B C D : Type 0} → A ⊎ (D ⊎ (B ⊎ C)) → A ⊎ ((D ⊎ B) ⊎ C)
join (inl a) = inl a
join (inr (inl d)) = inr (inl (inl d))
join (inr (inr (inl b))) = inr (inl (inr b))
join (inr (inr (inr c))) = inr (inr c)

module _ (d : Dalek) (c : Committee) where
  winning_from-commit :
      (pre post : Timeouts) (s s' : Slot) (v v' : View) (qc : Qc) (p : Proposals)
      (r : Option AggregateReport) (prop : OptionMessage) (a : PublicKey) (g : Signature)
      (w : Winning)
      → NoCommits pre
      → (winning_from d c
          (append_timeouts pre
            (cons_timeout (new_timeout s v (some_message (commit s' v' qc p r)) prop a g) post))
          w).proposals
        ≡ p
  unfolding winning_from
  winning_from-commit no_timeouts post s s' v v' qc p r prop a g w h = refl
  winning_from-commit (cons_timeout (new_timeout t u no_message q b e) pre) post s s' v v' qc p r
        prop a g w h =
      winning_from-commit pre post s s' v v' qc p r prop a g _ h.1
  winning_from-commit
        (cons_timeout (new_timeout t u (some_message (prepare _ _ _ _ _ _)) q b e) pre) post s s' v
        v' qc p r prop a g w h =
      winning_from-commit pre post s s' v v' qc p r prop a g _ h.1
  winning_from-commit (cons_timeout (new_timeout t u (some_message (confirm _ _ _ _ _)) q b e) pre)
        post s s' v v' qc p r prop a g w h =
      winning_from-commit pre post s s' v v' qc p r prop a g _ h.1
  winning_from-commit (cons_timeout (new_timeout t u (some_message (commit _ _ _ _ _)) q b e) pre)
        post s s' v v' qc p r prop a g w h =
      absurd h.0

  -- If a timeout carries a Commit as its high QC and no timeout before it does, then the proposals of
  -- that Commit win, whatever the other timeouts carry.
  pub get_winning_proposals-commit :
      (slot : Slot) (view : View) (pre post : Timeouts) (s s' : Slot) (v v' : View) (qc : Qc)
      (p : Proposals) (r : Option AggregateReport) (prop : OptionMessage) (a : PublicKey)
      (g : Signature)
      → NoCommits pre
      → get_winning_proposals d c (
          new_tc slot view (
            append_timeouts pre
              (cons_timeout (new_timeout s v (some_message (commit s' v' qc p r)) prop a g) post)))
        ≡ p
  unfolding get_winning_proposals
  get_winning_proposals-commit slot view pre post s s' v v' qc p r prop a g h =
      winning_from-commit pre post s s' v v' qc p r prop a g nothing_won h

  count_prepare-below :
      (v : View) (a : PublicKey) (prop : OptionMessage) (w : Winning)
      → v ≤ w.view
      → ViewBelow v prop
      → count_prepare d c a prop w ≡ w
  unfolding count_prepare
  count_prepare-below v a no_message w le h = refl
  count_prepare-below v a (some_message (prepare s view t q p r)) w le h =
      rw (le→ltb_false view w.view (omega arith))
  count_prepare-below v a (some_message (confirm s view q p r)) w le h = refl
  count_prepare-below v a (some_message (commit s view q p r)) w le h = refl

  winning_from-below :
      (v : View) (ts : Timeouts) (w : Winning)
      → v ≤ w.view
      → ViewsBelow v ts
      → winning_from d c ts w ≡ w
  unfolding winning_from
  winning_from-below v no_timeouts w le h = refl
  winning_from-below v (cons_timeout (new_timeout s u no_message prop a g) ts) w le h =
      rw (count_prepare-below v a prop w le h.1) (winning_from-below v ts w le h.2)
  winning_from-below v
        (cons_timeout (new_timeout s u (some_message (prepare _ _ _ _ _ _)) prop a g) ts) w le h =
      rw (count_prepare-below v a prop w le h.1) (winning_from-below v ts w le h.2)
  winning_from-below v
        (cons_timeout (new_timeout s u (some_message (confirm _ x _ _ _)) prop a g) ts) w le h =
      rw (le→ltb_false x w.view (omega arith))
        (rw (count_prepare-below v a prop w le h.1) (winning_from-below v ts w le h.2))
  winning_from-below v
        (cons_timeout (new_timeout s u (some_message (commit _ _ _ _ _)) prop a g) ts) w le h =
      absurd h.0

  winning_from-first_confirm :
      (s s' : Slot) (v x : View) (qc : Qc) (p : Proposals) (r : Option AggregateReport)
      (prop : OptionMessage) (a : PublicKey) (g : Signature) (ts : Timeouts) (w : Winning)
      → w.view < x
      → ViewBelow v prop
      → ViewsBelow v ts
      → winning_from d c
          (cons_timeout (new_timeout s v (some_message (confirm s' x qc p r)) prop a g) ts)
          w
        ≡ record w { view = v; proposals = p }
  unfolding winning_from
  winning_from-first_confirm s s' v x qc p r prop a g ts w pos hp hts =
      let won : Winning = record w { view = v; proposals = p } in
      rw (lt→ltb w.view x pos) (
        rw (count_prepare-below v a prop won (omega arith) hp)
          (winning_from-below v ts won (omega arith) hts))

  -- Let the first timeout carry a Confirm of a view above 0 as its high QC, and let no message of the
  -- timeouts have a view above that timeout's view or be a Commit. Then the first Confirm's proposals
  -- win, also over a later Confirm of a higher view.
  pub get_winning_proposals-first_confirm :
      (slot : Slot) (view : View) (s s' : Slot) (v x : View) (qc : Qc) (p : Proposals)
      (r : Option AggregateReport) (prop : OptionMessage) (a : PublicKey) (g : Signature)
      (ts : Timeouts)
      → 0 < x
      → ViewBelow v prop
      → ViewsBelow v ts
      → get_winning_proposals d c (
          new_tc slot view
            (cons_timeout (new_timeout s v (some_message (confirm s' x qc p r)) prop a g) ts))
        ≡ p
  unfolding get_winning_proposals
  get_winning_proposals-first_confirm slot view s s' v x qc p r prop a g ts pos hp hts =
      ap (λ (w : Winning). w.proposals)
        (winning_from-first_confirm s s' v x qc p r prop a g ts nothing_won pos hp hts)

  -- The proposals are those so far, or those of the message.
  count_prepare_cases :
      (a : PublicKey) (prop : OptionMessage) (w : Winning)
      → ((count_prepare d c a prop w).proposals ≡ w.proposals)
        ⊎ Holds (count_prepare d c a prop w).proposals prop
  unfolding count_prepare
  count_prepare_cases a no_message w = inl refl
  count_prepare_cases a (some_message (prepare s view t q p r)) w = ground arith
  count_prepare_cases a (some_message (confirm s view q p r)) w = inl refl
  count_prepare_cases a (some_message (commit s view q p r)) w = inl refl

  winning_from_cases :
      (ts : Timeouts) (w : Winning)
      → ((winning_from d c ts w).proposals ≡ w.proposals)
        ⊎ Carries (winning_from d c ts w).proposals ts
  unfolding winning_from
  winning_from_cases no_timeouts w = inl refl
  winning_from_cases (cons_timeout (new_timeout s u no_message prop a g) ts) w = skip (
      chain (winning_from d c ts (count_prepare d c a prop w)).proposals
        (count_prepare d c a prop w).proposals w.proposals prop (count_prepare_cases a prop w)
        (winning_from_cases ts (count_prepare d c a prop w)))
  winning_from_cases
        (cons_timeout (new_timeout s u (some_message (prepare _ _ _ _ _ _)) prop a g) ts) w =
      skip (
        chain (winning_from d c ts (count_prepare d c a prop w)).proposals
          (count_prepare d c a prop w).proposals w.proposals prop (count_prepare_cases a prop w)
          (winning_from_cases ts (count_prepare d c a prop w)))
  winning_from_cases
        (cons_timeout (new_timeout s u (some_message (confirm s' x qc p r)) prop a g) ts) w =
      let w' = if ltb w.view x then record w { view = u; proposals = p } else w in
      let w'' = count_prepare d c a prop w' in
      join (
        chain (winning_from d c ts w'').proposals w'.proposals w.proposals
          (some_message (confirm s' x qc p r)) (ground arith)
          (chain (winning_from d c ts w'').proposals w''.proposals w'.proposals prop
            (count_prepare_cases a prop w') (winning_from_cases ts w'')))
  winning_from_cases (cons_timeout (new_timeout s u (some_message (commit _ _ _ p _)) prop a g) ts)
        w =
      inr (inl (inl refl))

  -- The winning proposals are none, or those of a high QC or high proposal in the certificate: the
  -- next leader's proposals are never made up.
  pub get_winning_proposals_cases :
      (tc : Tc)
      → (get_winning_proposals d c tc ≡ [])
        ⊎ Carries (get_winning_proposals d c tc) (tc_timeouts tc)
  unfolding get_winning_proposals
  get_winning_proposals_cases tc = winning_from_cases (tc_timeouts tc) nothing_won
