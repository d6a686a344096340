-- ===== src/Core/Silent.antt =====
-- primary/src/core.rs: the handlers that `process_header` calls, and the votes on headers.
use auto_pilot.Messages.Errors.{DagResult}
use auto_pilot.Messages.Types.{
  View, Slot, Proposals, AggregateReport, ConsensusMessage, Certificate, Header, prepare, confirm,
  commit,
}
use auto_pilot.Synchronizer.{StoreView, SyncState, get_proposals}
use auto_pilot.Core.State.{Node, Core, write_certificate, emit, add_u64, start_timer}
use auto_pilot.Core.Tickets.{try_prepare_waiting_slots, is_prepare_ticket_ready}
use auto_pilot.Core.Validity.{
  accept_report, raise_view, may_vote, after_report, finish_prepare, is_valid, check_prepare_ticket,
  TicketCheck, refused, checked, current_view,
}
use auto_pilot.Core.Voting.{
  Ballot, record_vote, start_next_timer, cast_ballot, process_prepare_message,
  process_confirm_message,
}
use auto_pilot.Core.Quiet.{header_votes, Quiet, Quiet-trans, Quiet-same, Quiet-emits}
use auto_pilot.Core.Kept.{try_tickets-Keeps, is_prepare_ticket_ready-Keeps}
use auto_pilot.Core.Accepted.{some_injective}
use auto_pilot.Core.Committed.{process_commit-Quiet}
use auto_pilot.Messages.Reports.{verify_aggregate}
use auto_pilot.Messages.Verify.{verify_confirm}
use auto_pilot.Messages.Digests.{header_digest}
use auto_pilot.Core.Slots.{effective_k_for_prepare_slot, epoch_index_for_slot}
use auto_pilot.Core.Commits.{process_commit}
use auto_pilot.Core.Requests.{World}
use auto_pilot.Core.Headers.{tip_of, process_certificate, raise_tip, process_instance}
use auto_pilot.Committer.Order.{and_then_some}
use auto_pilot.Prelude.{
  ltb, leb, Bool-cases, nat_eq, pair_eq, length, contains, lookup, insert, contains_key, is_ok, ok,
  err, ◌-◌, ◌≡◌, refl, sym, ap, ◌∙◌, inl, inr, Bool, true, not, ◌&&◌, ◌||◌, Option, none, some,
  List, [], ◌∷◌,
}
pub mod Votes
pub mod Instances

try_prepare_waiting_slots-Quiet :
    (n : Node) (s s' : Core) → try_prepare_waiting_slots n s ≡ some s' → Quiet s s'
unfolding try_prepare_waiting_slots
try_prepare_waiting_slots-Quiet n s s' h =
    (try_tickets-Keeps (length s.prepare_tickets) n s s' h).quiet

pub process_certificate-Quiet :
    (n : Node) (cert : Certificate) (s s' : Core)
    → process_certificate n cert s ≡ some s'
    → Quiet s s'
unfolding process_certificate
process_certificate-Quiet n cert s s' h =
    let stored = emit s (write_certificate cert) in
    let wrote : Quiet s stored =
      Quiet-emits s stored (write_certificate cert ∷ []) refl refl refl in
    let (tip, _, rest) = and_then_some (lookup cert.author s.current_certified_tips) _ s' h in
    elim (Bool-cases (ltb tip.height cert.height)) [
      | inl higher ↦
          let raised = record stored {
            current_certified_tips =
                insert cert.author (tip_of cert.header_digest cert.height)
                  stored.current_certified_tips;
          } in
          let q = try_prepare_waiting_slots-Quiet n raised s' (rw higher at rest) in
          record { voted = q.voted ∙ wrote.voted; votes = q.votes ∙ wrote.votes }
      | inr lower ↦
          Quiet-trans s stored s' wrote (Quiet-same stored s' (some_injective (rw lower at rest)))
    ]

pub raise_tip-Quiet :
    (n : Node) (header : Header) (s s' : Core) → raise_tip n header s ≡ some s' → Quiet s s'
unfolding raise_tip
raise_tip-Quiet n header s s' h = elim (Bool-cases s.use_optimistic_tips) [
  | inr off ↦
      let e = some_injective (rw off at h) in
      record {
        voted = ap (λ t. t.last_voted) (sym e);
        votes = ap (λ t. header_votes t.out) (sym e);
      }
  | inl on ↦
      let (tip, _, rest) =
        and_then_some (lookup header.author s.current_proposal_tips) _ s' (rw on at h) in
      elim (Bool-cases (ltb tip.height header.height)) [
        | inl higher ↦
            let raised = record s {
              use_optimistic_tips = true;
              current_proposal_tips =
                  insert header.author (tip_of (header_digest n.dalek header) header.height)
                    s.current_proposal_tips;
            } in
            let q = try_prepare_waiting_slots-Quiet n raised s' (rw higher at rest) in
            record { voted = q.voted; votes = q.votes }
        | inr lower ↦
            let e = some_injective (rw lower at rest) in
            record {
              voted = ap (λ t. t.last_voted) (sym e);
              votes = ap (λ t. header_votes t.out) (sym e);
            }
      ]
]

accept_report-Quiet :
    (n : Node) (s s' : Core) (slot : Slot) (view : View) (report : Option AggregateReport)
    → accept_report n s slot view report ≡ some s'
    → Quiet s s'
unfolding accept_report
accept_report-Quiet n s s' slot view none h = Quiet-same s s' (some_injective h)
accept_report-Quiet n s s' slot view (some report) h =
    elim (Bool-cases
      (is_ok (verify_aggregate n.dalek n.committee report (epoch_index_for_slot s slot)))) [
        | inl fine ↦
            let e = some_injective (rw fine at h) in
            record {
              voted = ap (λ t. t.last_voted) (sym e);
              votes = ap (λ t. header_votes t.out) (sym e);
            }
        | inr bad ↦ absurd (let no = rw bad at h in cc)
      ]

raise_view-Quiet : (s : Core) (slot : Slot) (view : View) → Quiet s (raise_view s slot view)
unfolding raise_view
raise_view-Quiet s slot view = elim (Bool-cases (ltb (current_view s slot) view)) [
  | inl later ↦ rw later (record { voted = refl; votes = refl })
  | inr same ↦ rw same (Quiet-same s s refl)
]

may_vote-Quiet :
    (s s' : Core) (slot : Slot) (view : View) (valid b : Bool)
    → may_vote s slot view valid ≡ some (s', b)
    → Quiet s s'
unfolding may_vote
may_vote-Quiet s s' slot view valid b h =
    elim (Bool-cases
      (not (contains {A = Slot × View} s.last_voted_consensus (slot, view)) && valid)) [
        | inl may ↦
            let (v, _, rest) = and_then_some (lookup slot s.views) _ (s', b) (rw may at h) in
            Quiet-same s s' (ap (λ r. r.0) (some_injective rest))
        | inr never ↦ Quiet-same s s' (ap (λ r. r.0) (some_injective (rw never at h)))
      ]

finish_prepare-Quiet :
    (n : Node) (s s' : Core) (slot : Slot) (view : View) (report : Option AggregateReport)
    (o : Option TicketCheck) (b : Bool)
    → finish_prepare n s slot view report o ≡ some (s', b)
    → Quiet s s'
unfolding finish_prepare after_report
finish_prepare-Quiet n s s' slot view report none b h = absurd (let bad = h in cc)
finish_prepare-Quiet n s s' slot view report (some refused) b h =
    Quiet-same s s' (ap (λ r. r.0) (some_injective h))
finish_prepare-Quiet n s s' slot view report (some (checked valid)) b h =
    after (accept_report n s slot view report) refl h
  where
    after :
        (o : Option Core)
        → accept_report n s slot view report ≡ o
        → after_report s slot view valid o ≡ some (s', b)
        → Quiet s s'
    after none e k = Quiet-same s s' (ap (λ r. r.0) (some_injective k))
    after (some t) e k = Quiet-trans s t s' (accept_report-Quiet n s t slot view report e) (
        Quiet-trans t (raise_view t slot view) s' (raise_view-Quiet t slot view)
          (may_vote-Quiet (raise_view t slot view) s' slot view valid b k))

pub is_valid-Quiet :
    (n : Node) (s s' : Core) (m : ConsensusMessage) (b : Bool)
    → is_valid n s m ≡ some (s', b)
    → Quiet s s'
unfolding is_valid
is_valid-Quiet n s s' (prepare slot view tc ticket proposals report) b h =
    finish_prepare-Quiet n s s' slot view report
      (check_prepare_ticket n s slot view tc ticket proposals) b h
is_valid-Quiet n s s' (confirm slot view qc proposals report) b h =
    elim (Bool-cases (
      leb (current_view s slot) view
      && verify_confirm n.dalek n.committee (confirm slot view qc proposals report))) [
        | inl fine ↦
            let e = ap (λ r. r.0) (some_injective (rw fine at h)) in
            record {
              voted = ap (λ t. t.last_voted) (sym e);
              votes = ap (λ t. header_votes t.out) (sym e);
            }
        | inr bad ↦ Quiet-same s s' (ap (λ r. r.0) (some_injective (rw bad at h)))
      ]
is_valid-Quiet n s s' (commit slot view qc proposals report) b h =
    Quiet-same s s' (ap (λ r. r.0) (some_injective h))

start_next_timer-Quiet : (s : Core) (next : Slot) → Quiet s (start_next_timer s next)
unfolding start_next_timer
start_next_timer-Quiet s next =
    let k = effective_k_for_prepare_slot s next in
    elim (Bool-cases (
      ltb 1 k
      && not (contains_key next s.committed_slots)
      && not (contains {A = Slot × View} s.timers (next, 1))
      && (leb next k || contains_key (next - k) s.committed_slots))) [
        | inl due ↦
            rw due (Quiet-emits s _ (start_timer next 1 s.timeout_delay ∷ []) refl refl refl)
        | inr early ↦ rw early (Quiet-same s s refl)
      ]

cast_ballot-Quiet :
    (n : Node) (slot : Slot) (view : View) (m : ConsensusMessage) (proposals : Proposals)
    (report : Option AggregateReport) (s : Core)
    → Quiet s (cast_ballot n slot view m proposals report s).0
unfolding cast_ballot record_vote
cast_ballot-Quiet n slot view m proposals report s =
    let q = start_next_timer-Quiet s (add_u64 slot 1) in record { voted = q.voted; votes = q.votes }

pub process_prepare_message-Quiet :
    (n : Node) (s s' : Core) (m : ConsensusMessage) (ballots : List Ballot)
    → process_prepare_message n s m ≡ some (s', ballots)
    → Quiet s s'
unfolding process_prepare_message
process_prepare_message-Quiet n s s' (confirm _ _ _ _ _) ballots h =
    Quiet-same s s' (ap (λ r. r.0) (some_injective h))
process_prepare_message-Quiet n s s' (commit _ _ _ _ _) ballots h =
    Quiet-same s s' (ap (λ r. r.0) (some_injective h))
process_prepare_message-Quiet n s s' (prepare slot view tc ticket proposals report) ballots h =
    let m = prepare slot view tc ticket proposals report in
    let (t, one, rest) = and_then_some (is_prepare_ticket_ready n s m) _ (s', ballots) h in
    let cast = cast_ballot n slot view m proposals report t in
    Quiet-trans s t s' (is_prepare_ticket_ready-Keeps n s t m one).quiet (
      Quiet-trans t cast.0 s' (cast_ballot-Quiet n slot view m proposals report t)
        (Quiet-same cast.0 s' (ap (λ r. r.0) (some_injective rest))))
