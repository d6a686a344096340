-- ===== src/Synchronizer/Search.antt =====
-- primary/src/synchronizer.rs: a search for each proposal on its own, and one turn of the loop of
-- `get_proposals`.
use auto_pilot.Crypto.{PublicKey, Dalek}
use auto_pilot.Messages.Errors.{DagResult}
use auto_pilot.Messages.Types.{Height, Proposal, Proposals, ConsensusMessage, Header}
use auto_pilot.Messages.Digests.{header_digest}
use auto_pilot.Core.State.{◌and_then◌}
use auto_pilot.Core.Accepted.{some_injective}
use auto_pilot.Committer.Order.{and_then_some}
use auto_pilot.Synchronizer.{
  StoreView, SyncState, Gathering, push_header, miss_proposal, is_passed, is_delivered, take_stored,
  take_proposal,
}
use auto_pilot.Prelude.{
  ◌==◌, if◌then◌else◌, Bool-cases, nat_eq, pair_eq, All, lookup, ok, err, ◌≡◌, refl, sym, ap, ◌∙◌,
  ◌⊎◌, inl, inr, Option, none, some, List, [], ◌∷◌, ◌++◌,
}

-- The value of a handler that returned with `ok`.
pub value_of :
    {A : Type 0} {s s' : SyncState} {g g' : A}
    → ◌≡◌ {A = SyncState × DagResult A} (s, ok g) (s', ok g')
    → g ≡ g'
value_of {A} {s} {s'} {g} {g'} h =
    let e : ◌≡◌ {A = DagResult A} (ok g) (ok g') = ap (λ r. r.1) h in cc

abbrev found_in : DagResult (Option Header) → Option Header
found_in (ok found) = found
found_in (err _) = none

module _ (d : Dalek) (view : StoreView) where
  -- The header that a proposal names: the genesis header of its lane, the header that delivers the
  -- Prepare, or a stored one.
  abbrev pub find_proposal :
      ConsensusMessage → Header → List (PublicKey × Header) → PublicKey → Proposal → Option Header
  find_proposal m delivered genesis_headers pk proposal =
      lookup pk genesis_headers and_then λ (genesis : Header).
      if proposal.header_digest == header_digest d genesis
      then some genesis
      else if is_delivered d view m delivered proposal
      then some delivered
      else found_in (view.header_of proposal.header_digest)

  -- The headers of all the proposals that are not passed over, or `none` where one is missing.
  unfoldable pub find_proposals :
      ConsensusMessage → Header → List (PublicKey × Header) → Proposals → Option (List Header)
  unfolding lookup
  find_proposals m delivered genesis_headers [] = some []
  find_proposals m delivered genesis_headers ((pk, proposal) ∷ proposals) =
      let rest = find_proposals m delivered genesis_headers proposals in
      if is_passed m proposal
      then rest
      else (find_proposal m delivered genesis_headers pk proposal and_then λ h.
          rest and_then λ hs. some (h ∷ hs))

  -- The store has no header for a proposal that is asked for.
  abbrev pub IsAbsent : PublicKey × Proposal × Height → Type 0
  IsAbsent (pk, proposal, lower_bound) = view.header_of proposal.header_digest ≡ ok none

  -- Proposals were missed, and are put down.
  pub record Lacks (s s' : SyncState) (g g' : Gathering) : Type 0 where
    pub first : PublicKey × Proposal × Height
    pub others : List (PublicKey × Proposal × Height)
    pub noted : g'.missing ≡ g.missing ++ first ∷ others
    pub absent : All IsAbsent (first ∷ others)
    pub silent : s'.sent ≡ s.sent
    pub lanes : s'.genesis_headers ≡ s.genesis_headers

  -- The outcome for proposals that the search answers with `found`.
  abbrev pub Gathers : Option (List Header) → SyncState → SyncState → Gathering → Gathering → Type 0
  Gathers found s s' g g' =
      ((hs : List Header) × (found ≡ some hs)
        × (s ≡ s')
        × (g' ≡ record g { proposals_vector = g.proposals_vector ++ hs }))
      ⊎ ((found ≡ none) × Lacks s s' g g')

  abbrev pub one : Option Header → Option (List Header)
  one none = none
  one (some h) = some (h ∷ [])

  miss_proposal-Lacks :
      (pk : PublicKey) (proposal : Proposal) (s s' : SyncState) (g g' : Gathering)
      → view.header_of proposal.header_digest ≡ ok none
      → miss_proposal pk proposal s g ≡ some (s', g')
      → Lacks s s' g g'
  unfolding miss_proposal
  miss_proposal-Lacks pk proposal s s' g g' absent run =
      let entry : Height → PublicKey × Proposal × Height =
        λ lower_bound. (pk, proposal, lower_bound) in
      elim (Bool-cases s.use_fast_sync) [
        | inl fast ↦
            let (lower_bound, _, same) =
              and_then_some (lookup pk s.last_fast_sync_heights) _ (s', g') (rw fast at run) in
            let e = some_injective same in
            record {
              first = entry lower_bound;
              others = [];
              noted = ap (λ r. r.1.missing) (sym e);
              absent = (absent, tt);
              silent = ap (λ r. r.0.sent) (sym e);
              lanes = ap (λ r. r.0.genesis_headers) (sym e);
            }
        | inr slow ↦
            let e = some_injective (rw slow at run) in
            record {
              first = entry 1;
              others = [];
              noted = ap (λ r. r.1.missing) (sym e);
              absent = (absent, tt);
              silent = ap (λ r. r.0.sent) (sym e);
              lanes = ap (λ r. r.0.genesis_headers) (sym e);
            }
      ]

  pushed-Gathers :
      (h : Header) (s s' : SyncState) (g g' : Gathering)
      → ◌≡◌ {A = Option (SyncState × DagResult Gathering)}
          (some (s, ok (push_header g h)))
          (some (s', ok g'))
      → Gathers (some (h ∷ [])) s s' g g'
  pushed-Gathers h s s' g g' run =
      let e = some_injective run in inl (h ∷ [], refl, ap (λ r. r.0) e, sym (value_of e))

  take_stored-Gathers :
      (pk : PublicKey) (proposal : Proposal) (r : DagResult (Option Header)) (s s' : SyncState)
      (g g' : Gathering)
      → view.header_of proposal.header_digest ≡ r
      → take_stored d view pk proposal r s g ≡ some (s', ok g')
      → Gathers (one (found_in r)) s s' g g'
  unfolding take_stored
  take_stored-Gathers pk proposal (err e) s s' g g' read run = absurd (
      let bad : ◌≡◌ {A = DagResult Gathering} (err e) (ok g') =
        ap (λ r. r.1) (some_injective run) in
      cc)
  take_stored-Gathers pk proposal (ok (some h)) s s' g g' read run = pushed-Gathers h s s' g g' run
  take_stored-Gathers pk proposal (ok none) s s' g g' read run =
      let (r, missed, same) = and_then_some (miss_proposal pk proposal s g) _ (s', ok g') run in
      let e = some_injective same in
      let l = miss_proposal-Lacks pk proposal s r.0 g r.1 read missed in
      inr (
        refl,
        record {
          first = l.first;
          others = l.others;
          noted = ap (λ t. t.missing) (sym (value_of e)) ∙ l.noted;
          absent = l.absent;
          silent = ap (λ t. t.0.sent) (sym e) ∙ l.silent;
          lanes = ap (λ t. t.0.genesis_headers) (sym e) ∙ l.lanes;
        },
      )

  -- A proposal of a lane whose genesis header is `genesis`.
  in_lane-Gathers :
      (m : ConsensusMessage) (delivered : Header) (pk : PublicKey) (proposal : Proposal)
      (genesis : Header) (s s' : SyncState) (g g' : Gathering)
      → (if proposal.header_digest == header_digest d genesis
          then some (s, ok (push_header g genesis))
          else if is_delivered d view m delivered proposal
          then some (s, ok (push_header g delivered))
          else take_stored d view pk proposal (view.header_of proposal.header_digest) s g)
        ≡ some (s', ok g')
      → Gathers
          (one (
            if proposal.header_digest == header_digest d genesis
            then some genesis
            else if is_delivered d view m delivered proposal
            then some delivered
            else found_in (view.header_of proposal.header_digest)))
          s
          s'
          g
          g'
  in_lane-Gathers m delivered pk proposal genesis s s' g g' rest =
      elim (Bool-cases (proposal.header_digest == header_digest d genesis)) [
        | inl e ↦ rw e (pushed-Gathers genesis s s' g g' (rw e at rest))
        | inr e ↦ elim (Bool-cases (is_delivered d view m delivered proposal)) [
          | inl f ↦ rw (e, f) (pushed-Gathers delivered s s' g g' (rw (e, f) at rest))
          | inr f ↦
              rw (e, f)
                (take_stored-Gathers pk proposal (view.header_of proposal.header_digest) s s' g g'
                  refl (rw (e, f) at rest))
        ]
      ]

  pub take_proposal-Gathers :
      (m : ConsensusMessage) (delivered : Header) (pk : PublicKey) (proposal : Proposal)
      (s s' : SyncState) (g g' : Gathering)
      → take_proposal d view m delivered pk proposal s g ≡ some (s', ok g')
      → Gathers (one (find_proposal m delivered s.genesis_headers pk proposal)) s s' g g'
  unfolding take_proposal
  take_proposal-Gathers m delivered pk proposal s s' g g' run =
      let (genesis, lane, rest) = and_then_some (lookup pk s.genesis_headers) _ (s', ok g') run in
      rw lane (in_lane-Gathers m delivered pk proposal genesis s s' g g' rest)
