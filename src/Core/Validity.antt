-- ===== src/Core/Validity.antt =====
-- primary/src/core.rs, `is_valid`: whether a consensus message is accepted, and what the check
-- records. `none` is a panic of the source.
use auto_pilot.Messages.Types.{
  View, Slot, Proposal, Proposals, AggregateReport, CommitQc, ConsensusMessage, OptionTc, Tc,
  tc_view, transform_commit_qc, prepare, confirm, commit, no_tc, some_tc,
}
use auto_pilot.Messages.Certificates.{verify_tc}
use auto_pilot.Messages.Verify.{verify_confirm, verify_commit}
use auto_pilot.Messages.Winning.{get_winning_proposals}
use auto_pilot.Messages.Reports.{verify_aggregate}
use auto_pilot.Core.Slots.{epoch_index_for_slot, effective_k_for_qc_slot}
use auto_pilot.Core.State.{Node, Core, add_u64, get_or, ◌and_then◌}
use auto_pilot.Prelude.{
  ltb, leb, ◌==◌, if◌then◌else◌, nat_eq, pair_eq, contains, lookup, insert, contains_key, is_ok, ℕ,
  ◌-◌, Bool, true, false, not, ◌&&◌, Option, none, some, List, [], ◌∷◌,
}

unfoldable pub proposal_eq : Proposal → Proposal → Bool
proposal_eq p q = (p.height == q.height) && (p.header_digest == q.header_digest)

-- The loop over the proposals of a Prepare with a timeout certificate. `&&` skips the `unwrap` once
-- the ticket is not valid.
unfoldable pub match_winning : Bool → Proposals → Proposals → Option Bool
unfolding proposal_eq lookup
match_winning valid winning [] = some valid
match_winning valid winning ((pk, proposal) ∷ proposals) =
    if not valid
    then match_winning false winning proposals
    else lookup pk winning and_then λ w. match_winning (proposal_eq proposal w) winning proposals

-- What the ticket of a Prepare shows: an early `return false`, or `ticket_valid`.
pub data TicketCheck : Type 0 where
  refused : TicketCheck
  checked : Bool → TicketCheck

-- The case of a timeout certificate.
unfoldable pub check_tc : Node → View → Tc → Proposals → Option TicketCheck
unfolding match_winning
check_tc n view tc proposals =
    if not (add_u64 (tc_view tc) 1 == view)
    then some refused
    else (let valid = is_ok (verify_tc n.dalek n.committee tc) in
        elim (get_winning_proposals n.dalek n.committee tc) [
          | [] ↦ some (checked valid)
          | w ∷ ws ↦ match_winning valid (w ∷ ws) proposals and_then λ ok. some (checked ok)
        ])

abbrev pub ticket_bound : Core → Option CommitQc → ℕ
ticket_bound s none = s.k
ticket_bound s (some c) = effective_k_for_qc_slot s c.slot

-- A ticket that has to show the commit of `slot - k`.
unfoldable pub check_ticket : Node → Slot → ℕ → Option CommitQc → TicketCheck
unfolding transform_commit_qc
check_ticket n slot k none = refused
check_ticket n slot k (some c) =
    if not (add_u64 c.slot k == slot)
    then refused
    else checked (verify_commit n.dalek n.committee (transform_commit_qc c))

-- The case of no timeout certificate.
unfoldable pub check_first_view : Node → Core → Slot → View → Option CommitQc → TicketCheck
unfolding check_ticket contains_key
check_first_view n s slot view ticket =
    let k = ticket_bound s ticket in
    let ticket_valid =
      if ltb k slot && not (contains_key (slot - k) s.committed_slots)
      then check_ticket n slot k ticket
      else checked true in
    elim ticket_valid [ refused ↦ refused | checked valid ↦ checked (valid && (view == 1)) ]

unfoldable pub check_prepare_ticket :
    Node → Core → Slot → View → OptionTc → Option CommitQc → Proposals → Option TicketCheck
unfolding check_tc check_first_view
check_prepare_ticket n s slot view (some_tc tc) ticket proposals = check_tc n view tc proposals
check_prepare_ticket n s slot view no_tc ticket proposals =
    if s.use_parallel_proposals then some (check_first_view n s slot view ticket) else none

-- `or_insert_with`.
abbrev pub insert_if_absent :
    ℕ → AggregateReport → List (ℕ × AggregateReport) → List (ℕ × AggregateReport)
insert_if_absent epoch report reports =
    if contains_key epoch reports then reports else insert epoch report reports

-- A report that verifies becomes the candidate of its slot and view and, before a certificate, of its
-- epoch; `none` is a report that does not verify.
unfoldable pub accept_report : Node → Core → Slot → View → Option AggregateReport → Option Core
unfolding verify_aggregate
accept_report n s slot view none = some s
accept_report n s slot view (some report) =
    let epoch = epoch_index_for_slot s slot in
    if is_ok (verify_aggregate n.dalek n.committee report epoch)
    then some (record s {
      certifiable_aggregate_reports =
          insert {K = Slot × View} (slot, view) report s.certifiable_aggregate_reports;
      pending_aggregate_reports =
          if contains s.certified_aggregate_epochs epoch
          then s.pending_aggregate_reports
          else insert_if_absent epoch report s.pending_aggregate_reports;
    })
    else none

-- `*self.views.get(slot).unwrap_or(&0)`.
abbrev pub current_view : Core → Slot → View
current_view s slot = get_or 0 (lookup slot s.views)

-- A Prepare of a later view moves the slot to it.
unfoldable pub raise_view : Core → Slot → View → Core
unfolding insert lookup
raise_view s slot view =
    if ltb (current_view s slot) view then record s { views = insert slot view s.views } else s

-- The end of the Prepare case; the `unwrap` panics for a view 0 of a slot with no view.
unfoldable pub may_vote : Core → Slot → View → Bool → Option (Core × Bool)
unfolding lookup
may_vote s slot view ticket_valid =
    if not (contains {A = Slot × View} s.last_voted_consensus (slot, view)) && ticket_valid
    then (lookup slot s.views and_then λ v. some (s, v == view))
    else some (s, false)

-- The Prepare case after its report.
unfoldable pub after_report : Core → Slot → View → Bool → Option Core → Option (Core × Bool)
unfolding raise_view may_vote
after_report s slot view valid none = some (s, false)
after_report s slot view valid (some s') = may_vote (raise_view s' slot view) slot view valid

-- The Prepare case after the ticket.
unfoldable pub finish_prepare :
    Node → Core → Slot → View → Option AggregateReport → Option TicketCheck → Option (Core × Bool)
unfolding accept_report after_report
finish_prepare n s slot view report none = none
finish_prepare n s slot view report (some refused) = some (s, false)
finish_prepare n s slot view report (some (checked valid)) =
    after_report s slot view valid (accept_report n s slot view report)

unfoldable pub is_valid : Node → Core → ConsensusMessage → Option (Core × Bool)
unfolding check_prepare_ticket finish_prepare
is_valid n s (prepare slot view tc ticket proposals report) =
    finish_prepare n s slot view report (check_prepare_ticket n s slot view tc ticket proposals)
is_valid n s (confirm slot view qc proposals report) =
    if leb (current_view s slot) view
      && verify_confirm n.dalek n.committee (confirm slot view qc proposals report)
    then some (record s { views = insert slot view s.views }, true)
    else some (s, false)
is_valid n s (commit slot view qc proposals report) =
    some (s, verify_commit n.dalek n.committee (commit slot view qc proposals report))
