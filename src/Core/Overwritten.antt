-- ===== src/Core/Overwritten.antt =====
-- primary/src/core.rs, `process_consensus_request`: the own consensus message and a request of
-- another primary.
use auto_pilot.Crypto.{Digest, PublicKey, Signature}
use auto_pilot.Messages.Errors.{DagError}
use auto_pilot.Messages.Types.{
  View, Slot, Proposals, AggregateReport, CommitQc, ConsensusMessage, OptionTc, prepare,
}
use auto_pilot.Messages.Digests.{digest}
use auto_pilot.Messages.Verify.{verify_request}
use auto_pilot.Synchronizer.{StoreView, SyncState}
use auto_pilot.Core.State.{Node, Core}
use auto_pilot.Core.Requests.{
  World, WorldHandler, enter_instance, once_checked, process_consensus_request,
}
use auto_pilot.Prelude.{
  ◌==◌, nat_eq, pair_beq_iff, pair_eq, lookup, lookup-insert, err, ◌≡◌, refl, ◌∙◌, false, Option,
  some,
}

-- A request that another primary makes for a Prepare, and that does not verify, is refused with the
-- error of its verification. Yet its Prepare is then the consensus message that the primary keeps
-- for every Prepare of that slot, view and report, its own one included, whatever the proposals.
pub process_consensus_request_overwrites :
    (own : ConsensusMessage → World → WorldHandler (Unit {0})) (n : Node) (view : StoreView)
    (author : PublicKey) (sig : Signature) (slot : Slot) (v : View) (tc own_tc : OptionTc)
    (ticket own_ticket : Option CommitQc) (proposals own_proposals : Proposals)
    (report : Option AggregateReport) (e : DagError) (s : Core) (sync : SyncState)
    → (author == n.name) ≡ false
    → verify_request n.dalek n.committee
        (record { author = author; message = prepare slot v tc ticket proposals report; sig = sig })
      ≡ err e
    → (s' : Core) × (process_consensus_request own n view
          (record {
            author = author;
            message = prepare slot v tc ticket proposals report;
            sig = sig;
          })
          (s, sync)
        ≡ some ((s', sync), err e))
      × (lookup {K = Slot × Digest}
            (slot, digest n.dalek (prepare slot v own_tc own_ticket own_proposals report))
            s'.consensus_instances
          ≡ some (prepare slot v tc ticket proposals report))
unfolding process_consensus_request once_checked enter_instance digest
process_consensus_request_overwrites own n view author sig slot v tc own_tc ticket own_ticket
      proposals own_proposals report e s sync other refused =
    let m = prepare slot v tc ticket proposals report in
    let key : Slot × Digest = (slot, digest n.dalek m) in
    (
      enter_instance n m s,
      rw (other, refused) refl,
      lookup-insert key key m s.consensus_instances ∙ rw ((pair_beq_iff key key).1 refl) refl,
    )
