-- ===== src/Synchronizer/Missing.antt =====
-- primary/src/synchronizer.rs, `get_proposals`, against a search for each proposal on its own.
use mathlib.Core.List.{append-nil, append_assoc}
use auto_pilot.Crypto.{PublicKey, Dalek}
use auto_pilot.Messages.Errors.{DagResult}
use auto_pilot.Messages.Types.{Height, Proposal, Proposals, ConsensusMessage, Header}
use auto_pilot.Core.State.{◌and_then◌}
use auto_pilot.Core.Accepted.{some_injective}
use auto_pilot.Core.HandOver.{All-append}
use auto_pilot.Committer.Order.{and_then_some}
use auto_pilot.Synchronizer.Search.{
  value_of, find_proposal, find_proposals, IsAbsent, Lacks, Gathers, one, take_proposal-Gathers,
}
use auto_pilot.Synchronizer.{
  StoreView, sync_proposals, SyncState, Gathering, proposals_of, is_passed, take_proposal, gather,
  conclude, get_proposals,
}
use auto_pilot.Prelude.{
  Bool-cases, nat_eq, pair_eq, all, All, ok, err, ◌≡◌, refl, sym, ap, ◌∙◌, ◌⊎◌, inl, inr, false,
  Option, none, some, List, [], ◌∷◌, ◌++◌, arith,
}

module _ (d : Dalek) (view : StoreView) where
  -- The rest of the proposals after one that was found.
  found-Gathers :
      (h : List Header) (rest : Option (List Header)) (s t s' : SyncState) (g g1 g' : Gathering)
      → s ≡ t
      → g1 ≡ record g { proposals_vector = g.proposals_vector ++ h }
      → Gathers d view rest t s' g1 g'
      → Gathers d view (rest and_then λ hs. some (h ++ hs)) s s' g g'
  found-Gathers h rest s t s' g g1 g' e pushed (inl (hs, found, same, more)) = inl (
    h ++ hs,
    rw found refl,
    e ∙ same,
    more
        ∙ rw pushed
            (ap (λ v. record g { proposals_vector = v }) (append_assoc g.proposals_vector h hs)),
  )
  found-Gathers h rest s t s' g g1 g' e pushed (inr (lost, l)) = inr (
    rw lost refl,
    record {
      first = l.first;
      others = l.others;
      noted = l.noted ∙ ap (λ v. v.missing ++ l.first ∷ l.others) pushed;
      absent = l.absent;
      silent = l.silent ∙ ap (λ t. t.sent) (sym e);
      lanes = l.lanes ∙ ap (λ t. t.genesis_headers) (sym e);
    },
  )

  lost-Gathers :
      (rest : Option (List Header)) (s t s' : SyncState) (g g1 g' : Gathering)
      → Lacks d view s t g g1
      → Gathers d view rest t s' g1 g'
      → Lacks d view s s' g g'
  lost-Gathers rest s t s' g g1 g' l (inl (hs, found, same, more)) = record {
    first = l.first;
    others = l.others;
    noted = ap (λ v. v.missing) more ∙ l.noted;
    absent = l.absent;
    silent = ap (λ t. t.sent) (sym same) ∙ l.silent;
    lanes = ap (λ t. t.genesis_headers) (sym same) ∙ l.lanes;
  }
  lost-Gathers rest s t s' g g1 g' l (inr (lost, k)) = record {
    first = l.first;
    others = l.others ++ k.first ∷ k.others;
    noted =
        k.noted
        ∙ (ap (λ v. v ++ k.first ∷ k.others) l.noted
            ∙ append_assoc g.missing (l.first ∷ l.others) (k.first ∷ k.others));
    absent = (
      l.absent.0,
      All-append (IsAbsent d view) l.others (k.first ∷ k.others) l.absent.1 k.absent,
    );
    silent = k.silent ∙ l.silent;
    lanes = k.lanes ∙ l.lanes;
  }

  Gathers-lanes :
      (found : Option (List Header)) (s s' : SyncState) (g g' : Gathering)
      → Gathers d view found s s' g g'
      → s'.genesis_headers ≡ s.genesis_headers
  Gathers-lanes found s s' g g' (inl (hs, _, same, _)) = ap (λ t. t.genesis_headers) (sym same)
  Gathers-lanes found s s' g g' (inr (_, l)) = l.lanes

  both-Gathers :
      (o : Option Header) (rest : Option (List Header)) (s t s' : SyncState) (g g1 g' : Gathering)
      → Gathers d view (one d view o) s t g g1
      → Gathers d view rest t s' g1 g'
      → Gathers d view (o and_then λ h. rest and_then λ hs. some (h ∷ hs)) s s' g g'
  both-Gathers none rest s t s' g g1 g' (inl (hs, found, _, _)) k = absurd (ground arith)
  both-Gathers none rest s t s' g g1 g' (inr (_, l)) k =
      inr (refl, lost-Gathers rest s t s' g g1 g' l k)
  both-Gathers (some h) rest s t s' g g1 g' (inl (hs, found, same, pushed)) k =
      let e = some_injective found in
      found-Gathers (h ∷ []) rest s t s' g g1 g' same (rw e pushed) k
  both-Gathers (some h) rest s t s' g g1 g' (inr (lost, l)) k = absurd (let bad = lost in cc)

  -- The rest of the loop, once the first proposal has been taken.
  after-Gathers :
      (m : ConsensusMessage) (delivered : Header) (pk : PublicKey) (proposal : Proposal)
      (proposals : Proposals) (s t s' : SyncState) (g g' : Gathering) (r : DagResult Gathering)
      → take_proposal d view m delivered pk proposal s g ≡ some (t, r)
      → ((g1 : Gathering)
          → gather d view m delivered proposals t g1 ≡ some (s', ok g')
          → Gathers d view
              (find_proposals d view m delivered t.genesis_headers proposals)
              t
              s'
              g1
              g')
      → (elim r [ ok g1 ↦ gather d view m delivered proposals t g1 | err e ↦ some (t, err e) ])
        ≡ some (s', ok g')
      → Gathers d view
          (find_proposal d view m delivered s.genesis_headers pk proposal and_then λ h.
            find_proposals d view m delivered s.genesis_headers proposals and_then λ hs.
            some (h ∷ hs))
          s
          s'
          g
          g'
  after-Gathers m delivered pk proposal proposals s t s' g g' (err e) first ih rest = absurd (
      let bad : ◌≡◌ {A = DagResult Gathering} (err e) (ok g') =
        ap (λ r. r.1) (some_injective rest) in
      cc)
  after-Gathers m delivered pk proposal proposals s t s' g g' (ok g1) first ih rest =
      let one = take_proposal-Gathers d view m delivered pk proposal s t g g1 first in
      let lanes = Gathers-lanes _ s t g g1 one in
      both-Gathers (find_proposal d view m delivered s.genesis_headers pk proposal)
        (find_proposals d view m delivered s.genesis_headers proposals) s t s' g g1 g' one
        (rw (sym lanes) (ih g1 rest))

  gather-Gathers :
      (m : ConsensusMessage) (delivered : Header) (proposals : Proposals) (s s' : SyncState)
      (g g' : Gathering)
      → gather d view m delivered proposals s g ≡ some (s', ok g')
      → Gathers d view (find_proposals d view m delivered s.genesis_headers proposals) s s' g g'
  unfolding gather find_proposals
  gather-Gathers m delivered [] s s' g g' run =
      let e = some_injective run in
      inl (
        [],
        refl,
        ap (λ r. r.0) e,
        sym (value_of e)
            ∙ ap (λ v. record g { proposals_vector = v }) (sym (append-nil g.proposals_vector)),
      )
  gather-Gathers m delivered ((pk, proposal) ∷ proposals) s s' g g' run =
      elim (Bool-cases (is_passed m proposal)) [
        | inl p ↦ rw p (gather-Gathers m delivered proposals s s' g g' (rw p at run))
        | inr p ↦
            let (r, first, rest) =
              and_then_some (take_proposal d view m delivered pk proposal s g) _ (s', ok g')
                (rw p at run) in
            rw p (
              after-Gathers m delivered pk proposal proposals s r.0 s' g g' r.1 first
                (λ g1 more. gather-Gathers m delivered proposals r.0 s' g1 g' more) rest)
      ]

  -- One request goes out, and no header is returned.
  pub record Requests (m : ConsensusMessage) (delivered : Header) (s s' : SyncState)
      (hs : List Header) : Type 0 where
    pub first : PublicKey × Proposal × Height
    pub others : List (PublicKey × Proposal × Height)
    pub absent : All (IsAbsent d view) (first ∷ others)
    pub sent : s'.sent ≡ s.sent ++ sync_proposals (first ∷ others) m delivered ∷ []
    pub nothing : hs ≡ []

  conclude_cases :
      (m : ConsensusMessage) (delivered : Header) (found : Option (List Header))
      (s t s' : SyncState) (g : Gathering) (hs : List Header)
      → Gathers d view found s t
          (record { proposals_vector = []; missing = []; missing_proposals = false })
          g
      → conclude d view m delivered g t ≡ (s', ok hs)
      → ((found ≡ some hs) × (s ≡ s')) ⊎ ((found ≡ none) × Requests m delivered s s' hs)
  unfolding conclude
  conclude_cases m delivered found s t s' g hs (inl (vs, is_found, same, pushed)) end =
      let e = rw pushed at end in inl (is_found ∙ ap some (value_of e), same ∙ ap (λ r. r.0) e)
  conclude_cases m delivered found s t s' g hs (inr (lost, l)) end =
      let e = rw (l.noted) at end in
      inr (
        lost,
        record {
          first = l.first;
          others = l.others;
          absent = l.absent;
          sent =
              ap (λ r. r.0.sent) (sym e)
              ∙ ap (λ o. o ++ sync_proposals (l.first ∷ l.others) m delivered ∷ []) l.silent;
          nothing = sym (value_of e);
        },
      )

  after_gather_cases :
      (m : ConsensusMessage) (delivered : Header) (s t s' : SyncState) (hs : List Header)
      (r : DagResult Gathering)
      → gather d view m delivered
          (proposals_of m)
          s
          (record { proposals_vector = []; missing = []; missing_proposals = false })
        ≡ some (t, r)
      → (elim r [ ok g ↦ some (conclude d view m delivered g t) | err e ↦ some (t, err e) ])
        ≡ some (s', ok hs)
      → ((find_proposals d view m delivered s.genesis_headers (proposals_of m) ≡ some hs)
          × (s ≡ s'))
        ⊎ ((find_proposals d view m delivered s.genesis_headers (proposals_of m) ≡ none)
            × Requests m delivered s s' hs)
  after_gather_cases m delivered s t s' hs (err e) all rest = absurd (
      let bad : ◌≡◌ {A = DagResult (List Header)} (err e) (ok hs) =
        ap (λ r. r.1) (some_injective rest) in
      cc)
  after_gather_cases m delivered s t s' hs (ok g) all rest =
      conclude_cases m delivered _ s t s' g hs
        (gather-Gathers m delivered (proposals_of m) s t _ g all) (some_injective rest)

  -- Where `get_proposals` returns without an error, it agrees with the search for each proposal on its
  -- own. If that finds a header for every proposal, other than those of height 0 in a Commit, the
  -- result lists these headers and nothing changes. If not, the result is empty and one request
  -- goes to the header waiter, for proposals that the store has no header for.
  pub get_proposals-find_proposals :
      (m : ConsensusMessage) (delivered : Header) (s s' : SyncState) (hs : List Header)
      → get_proposals d view m delivered s ≡ some (s', ok hs)
      → ((find_proposals d view m delivered s.genesis_headers (proposals_of m) ≡ some hs)
          × (s ≡ s'))
        ⊎ ((find_proposals d view m delivered s.genesis_headers (proposals_of m) ≡ none)
            × Requests m delivered s s' hs)
  unfolding get_proposals
  get_proposals-find_proposals m delivered s s' hs run =
      let empty : Gathering = record {
        proposals_vector = [];
        missing = [];
        missing_proposals = false;
      } in
      let (r, all, rest) =
        and_then_some (gather d view m delivered (proposals_of m) s empty) _ (s', ok hs) run in
      after_gather_cases m delivered s r.0 s' hs r.1 all rest
