-- ===== src/Core/Voting.antt =====
-- primary/src/core.rs: the votes on consensus messages (`process_prepare_message`,
-- `process_confirm_message`).
use auto_pilot.Crypto.{Digest, Signature}
use auto_pilot.Messages.Types.{
  View, Slot, Proposals, AggregateReport, ConsensusMessage, prepare, confirm, no_tc,
}
use auto_pilot.Messages.Digests.{digest}
use auto_pilot.Core.Slots.{effective_k_for_prepare_slot}
use auto_pilot.Core.State.{Node, Core, start_timer, set_insert, add_u64, ◌and_then◌}
use auto_pilot.Core.Tickets.{is_prepare_ticket_ready}
use auto_pilot.Prelude.{
  ltb, leb, if◌then◌else◌, nat_eq, pair_eq, contains, insert, contains_key, ◌-◌, not, ◌&&◌, ◌||◌,
  Option, none, some, List, [], ◌∷◌, ◌++◌,
}

abbrev pub Ballot : Type 0
Ballot = Slot × Digest × Signature

-- The vote of a primary for a message.
unfoldable pub ballot_for : Node → Slot → ConsensusMessage → Ballot
unfolding digest
ballot_for n slot m = (slot, digest n.dalek m, n.sign (digest n.dalek m))

-- The timer of the next slot, if the slot may be open and is not committed.
unfoldable pub start_next_timer : Core → Slot → Core
unfolding effective_k_for_prepare_slot contains_key
start_next_timer s next =
    let k = effective_k_for_prepare_slot s next in
    if ltb 1 k
      && not (contains_key next s.committed_slots)
      && not (contains {A = Slot × View} s.timers (next, 1))
      && (leb next k || contains_key (next - k) s.committed_slots)
    then record s {
      timers = set_insert {A = Slot × View} (next, 1) s.timers;
      out = s.out ++ start_timer next 1 s.timeout_delay ∷ [];
    }
    else s

-- The part of `process_prepare_message` that votes.
unfoldable pub record_vote : Core → Slot → View → Proposals → Option AggregateReport → Core
unfolding insert
record_vote s slot view proposals report = record s {
  last_voted_consensus = set_insert {A = Slot × View} (slot, view) s.last_voted_consensus;
  high_proposals =
      if s.use_fast_path
      then insert slot (prepare slot view no_tc none proposals report) s.high_proposals
      else s.high_proposals;
}

-- `process_prepare_message` once the ticket is handled.
unfoldable pub cast_ballot :
    Node
    → Slot
    → View
    → ConsensusMessage
    → Proposals
    → Option AggregateReport
    → Core
    → Core × List Ballot
unfolding start_next_timer record_vote ballot_for
cast_ballot n slot view m proposals report s = (
  record_vote (start_next_timer s (add_u64 slot 1)) slot view proposals report,
  ballot_for n slot m ∷ [],
)

unfoldable pub process_prepare_message :
    Node → Core → ConsensusMessage → Option (Core × List Ballot)
unfolding cast_ballot is_prepare_ticket_ready
process_prepare_message n s (prepare slot view tc ticket proposals report) =
    let m = prepare slot view tc ticket proposals report in
    is_prepare_ticket_ready n s m and_then λ s'.
    some (cast_ballot n slot view m proposals report s')
process_prepare_message n s _ = some (s, [])

unfoldable pub process_confirm_message : Node → Core → ConsensusMessage → Core × List Ballot
unfolding ballot_for insert
process_confirm_message n s (confirm slot view qc proposals report) =
    let m = confirm slot view qc proposals report in
    (record s { high_qcs = insert slot m s.high_qcs }, ballot_for n slot m ∷ [])
process_confirm_message n s _ = (s, [])
