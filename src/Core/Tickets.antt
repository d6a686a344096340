-- ===== src/Core/Tickets.antt =====
-- primary/src/core.rs: when a primary starts the next slot (`enough_coverage`,
-- `is_prepare_ticket_ready`, `try_prepare_waiting_slots`). `none` is a panic of the source. Without
-- ride sharing the source also processes the Prepare that it sends, here an event of its own.
use auto_pilot.Messages.Types.{Slot, Proposal, Proposals, ConsensusMessage, prepare, no_tc}
use auto_pilot.Core.Slots.{epoch_index_for_slot, effective_k_for_prepare_slot}
use auto_pilot.Core.State.{Node, Core, set_insert, add_u64, ◌and_then◌}
use auto_pilot.Core.ViewChange.{is_leader, current_tips, share}
use auto_pilot.Prelude.{
  ltb, leb, if◌then◌else◌, nat_eq, pair_eq, length, contains, lookup, contains_key, ℕ, zero, suc,
  ◌-◌, ◌%◌, Bool, not, ◌&&◌, Option, none, some, [], ◌∷◌, ◌++◌,
}

-- The tips above those of the ticket; an authority that the ticket does not list is a panic.
unfoldable pub count_new_tips : Proposals → Proposals → Option ℕ
unfolding lookup
count_new_tips [] ticket = some 0
count_new_tips ((pk, proposal) ∷ tips) ticket =
    let rest = count_new_tips tips ticket in
    lookup pk ticket and_then λ (old : Proposal).
    rest and_then λ count. some (if ltb old.height proposal.height then suc count else count)

-- `new_tips.len() as u8` drops all but the low byte.
unfoldable pub enough_coverage : Core → Proposals → Option Bool
unfolding count_new_tips
enough_coverage s ticket = count_new_tips (current_tips s) ticket and_then λ count.
    some (leb s.cut_condition_type (count % 256))

-- The new Prepare of the slot after the ticket's, and its QC ticket.
unfoldable pub next_prepare : Core → Slot → ConsensusMessage
unfolding lookup effective_k_for_prepare_slot epoch_index_for_slot
next_prepare s next =
    let k = effective_k_for_prepare_slot s next in
    prepare next 1 no_tc (if ltb k next then lookup (next - k) s.committed_slots else none) []
      (lookup (epoch_index_for_slot s next) s.pending_aggregate_reports)

unfoldable pub propose_next : Node → Core → Slot → Core
unfolding next_prepare
propose_next n s next =
    share n (next_prepare s next)
      (record s { already_proposed_slots = set_insert next s.already_proposed_slots })

-- The ticket goes to the back of the queue.
abbrev pub keep_ticket : ConsensusMessage → Core → Core
keep_ticket m s = record s { prepare_tickets = s.prepare_tickets ++ m ∷ [] }

-- `slot - k` has not committed: too many instances are open.
abbrev pub is_bounded_out : Core → Slot → Bool
is_bounded_out s next =
    let k = effective_k_for_prepare_slot s next in
    ltb k next && not (contains_key (next - k) s.committed_slots)

unfoldable pub is_prepare_ticket_ready : Node → Core → ConsensusMessage → Option Core
unfolding enough_coverage propose_next effective_k_for_prepare_slot contains_key
is_prepare_ticket_ready n s (prepare slot view tc ticket proposals report) =
    let next = add_u64 slot 1 in
    let m = prepare slot view tc ticket proposals report in
    if not (is_leader n next 1)
    then some s
    else if contains s.already_proposed_slots next
    then some s
    else if is_bounded_out s next
    then some (keep_ticket m s)
    else enough_coverage s proposals and_then λ enough.
        some (if enough then propose_next n s next else keep_ticket m s)
is_prepare_ticket_ready n s _ = some s

-- The loop, for the number of tickets that waited at its start.
unfoldable pub try_tickets : ℕ → Node → Core → Option Core
unfolding is_prepare_ticket_ready
try_tickets zero n s = some s
try_tickets (suc i) n s = elim s.prepare_tickets [
  | [] ↦ none
  | m ∷ ms ↦
      is_prepare_ticket_ready n (record s { prepare_tickets = ms }) m and_then try_tickets i n
]

unfoldable pub try_prepare_waiting_slots : Node → Core → Option Core
unfolding try_tickets
try_prepare_waiting_slots n s = try_tickets (length s.prepare_tickets) n s
