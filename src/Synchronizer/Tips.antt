-- ===== src/Synchronizer/Tips.antt =====
-- primary/src/synchronizer.rs, `optimistic_tips_ready`: the tips that a Prepare proposes.
use auto_pilot.Crypto.{PublicKey, Dalek}
use auto_pilot.Messages.Errors.{DagResult}
use auto_pilot.Messages.Types.{Height, Proposal, Proposals, ConsensusMessage, Header, prepare}
use auto_pilot.Messages.Digests.{header_digest}
use auto_pilot.Core.State.{◌and_then◌}
use auto_pilot.Synchronizer.{
  StoreView, sync_proposals, SyncState, SyncHandler, Gathering, send_waiter,
}
use auto_pilot.Prelude.{
  ltb, ◌==◌, if◌then◌else◌, nat_eq, pair_eq, lookup, insert, ok, err, Bool, true, false, not, ◌||◌,
  Option, some, [], ◌∷◌, ◌++◌,
}

-- A tip that is not stored is asked for, with fast sync only above the last height asked for.
unfoldable pub miss_tip :
    PublicKey → Proposal → SyncState → Gathering → Option (SyncState × Gathering)
unfolding insert lookup
miss_tip pk proposal s g =
    let missed = record g { missing_proposals = true } in
    let ask = λ (lower_bound : Height). record missed {
      missing = g.missing ++ (pk, proposal, lower_bound) ∷ [];
    } in
    if s.use_fast_sync
    then (lookup pk s.last_fast_sync_heights and_then λ lower_bound. some (
        if ltb lower_bound proposal.height
        then (
          record s { last_fast_sync_heights = insert pk proposal.height s.last_fast_sync_heights },
          ask lower_bound,
        )
        else (s, missed)))
    else some (s, ask 1)

module _ (d : Dalek) (view : StoreView) where
  -- The tip once the store has been read.
  unfoldable pub take_tip :
      PublicKey → Proposal → DagResult Bool → SyncState → Gathering → SyncHandler Gathering
  unfolding miss_tip
  take_tip pk proposal (err e) s g = some (s, err e)
  take_tip pk proposal (ok true) s g = some (s, ok g)
  take_tip pk proposal (ok false) s g = miss_tip pk proposal s g and_then λ r. some (r.0, ok r.1)

  unfoldable pub gather_tips : Header → Proposals → SyncState → Gathering → SyncHandler Gathering
  unfolding take_tip lookup
  gather_tips delivered [] s g = some (s, ok g)
  gather_tips delivered ((pk, proposal) ∷ proposals) s g =
      (lookup pk s.genesis_headers and_then λ (genesis : Header).
      if (proposal.header_digest == header_digest d genesis)
        || (proposal.header_digest == header_digest d delivered)
      then some (s, ok g)
      else take_tip pk proposal (view.has_tip proposal.header_digest) s g)
      and_then λ r. elim (r.1) [
        | ok g' ↦ gather_tips delivered proposals r.0 g'
        | err e ↦ some (r.0, err e)
      ]

  -- The end of `optimistic_tips_ready`.
  unfoldable pub conclude_tips :
      ConsensusMessage → Header → Gathering → SyncState → SyncState × DagResult Bool
  conclude_tips m delivered g s = elim (g.missing) [
    | [] ↦ (s, ok (not g.missing_proposals))
    | x ∷ missing ↦ (send_waiter s (sync_proposals (x ∷ missing) m delivered), ok false)
  ]

  abbrev tips_of : ConsensusMessage → Proposals
  tips_of (prepare _ _ _ _ proposals _) = proposals
  tips_of _ = []

  unfoldable pub optimistic_tips_ready : ConsensusMessage → Header → SyncState → SyncHandler Bool
  unfolding gather_tips conclude_tips
  optimistic_tips_ready m delivered s =
      gather_tips delivered (tips_of m) s
        (record { proposals_vector = []; missing = []; missing_proposals = false })
      and_then λ r. elim (r.1) [
        | ok g ↦ some (conclude_tips m delivered g r.0)
        | err e ↦ some (r.0, err e)
      ]
