-- ===== src/Core/Committed.antt =====
-- primary/src/core.rs, `process_commit_message`: the slots that a primary knows as committed.
use auto_pilot.Messages.Types.{View, Slot, Proposals, Qc, AggregateReport, CommitQc, Header, commit}
use auto_pilot.Synchronizer.{StoreView, SyncState, get_proposals}
use auto_pilot.Core.State.{Node, Core}
use auto_pilot.Core.Tickets.{try_prepare_waiting_slots}
use auto_pilot.Core.Accepted.{some_injective}
use auto_pilot.Committer.Order.{and_then_some}
use auto_pilot.Core.Quiet.{Quiet, Quiet-trans}
use auto_pilot.Core.Kept.{
  Keeps, Keeps-trans, Keeps-same, try_tickets-Keeps, finish_transition-Keeps, persist-Keeps,
  trigger_metrics-Keeps, start_commit_timer-Keeps, forward_commit-Keeps,
}
use auto_pilot.Core.Commits.{
  finish_transition, max, record_commit, persist_coordination_certificate, trigger_metrics,
  start_commit_timer, forward_commit, process_commit,
}
use auto_pilot.Prelude.{
  ltb, ◌==◌, if◌then◌else◌, ==_iff, Bool-cases, nat_eq, pair_eq, length, filter, lookup, insert,
  lookup-insert, ◌≤◌, ◌≡◌, refl, sym, ap, ◌∙◌, ◌⊎◌, inl, inr, true, false, not, Option, some, arith,
}

-- The slot is committed with `cq` and the others stay, the last committed slot is the greatest, and
-- nothing is collected of the consensus instances and the certificate makers.
pub record Commits (slot : Slot) (cq : CommitQc) (s s' : Core) : Type 0 where
  pub found :
      (j : Slot)
      → lookup j s'.committed_slots ≡ (if j == slot then some cq else lookup j s.committed_slots)
  pub last : s'.last_committed_slot ≡ max slot s.last_committed_slot
  pub instances : s'.consensus_instances ≡ s.consensus_instances
  pub makers : s'.qc_makers ≡ s.qc_makers

Commits-Keeps :
    (slot : Slot) (cq : CommitQc) (a b c : Core)
    → Commits slot cq a b
    → Keeps b c
    → Commits slot cq a c
Commits-Keeps slot cq a b c h k = record {
  found = λ j. ap (λ m. lookup j m) k.committed ∙ h.found j;
  last = k.last ∙ h.last;
  instances = k.instances ∙ h.instances;
  makers = k.makers ∙ h.makers;
}

abbrev pub commit_of : Slot → View → Qc → Proposals → Option AggregateReport → CommitQc
commit_of slot view qc proposals report = record {
  slot = slot;
  view = view;
  qc = qc;
  proposals = proposals;
  aggregate_report = report;
}

record_commit-Commits :
    (slot : Slot) (view : View) (qc : Qc) (proposals : Proposals) (report : Option AggregateReport)
    (s : Core)
    → Commits slot
        (commit_of slot view qc proposals report)
        s
        (record_commit slot view qc proposals report s)
unfolding record_commit
record_commit-Commits slot view qc proposals report s =
    let updated = record s {
      timers = filter (λ t. not (t.0 == slot)) s.timers;
      high_qcs = insert slot (commit slot view qc proposals report) s.high_qcs;
      last_committed_slot = max slot s.last_committed_slot;
    } in
    let k = finish_transition-Keeps updated in
    record {
      found = λ j.
          lookup-insert slot j (commit_of slot view qc proposals report)
            (finish_transition updated).committed_slots
          ∙ ap
              (λ m.
                if j == slot then some (commit_of slot view qc proposals report) else lookup j m)
              k.committed;
      last = k.last;
      instances = k.instances;
      makers = k.makers;
    }

process_commit-Keeps :
    (n : Node) (view : StoreView) (slot : Slot) (v : View) (qc : Qc) (proposals : Proposals)
    (report : Option AggregateReport) (header : Header) (s s' : Core) (sync sync' : SyncState)
    → process_commit n view (commit slot v qc proposals report) header (s, sync) ≡ some (s', sync')
    → Keeps (record_commit slot v qc proposals report s) s'
unfolding process_commit try_prepare_waiting_slots
process_commit-Keeps n view slot v qc proposals report header s s' sync sync' h =
    let recorded = record_commit slot v qc proposals report s in
    let persisted = persist_coordination_certificate n slot v qc recorded in
    let (s1, triggered, rest1) = and_then_some (trigger_metrics persisted) _ (s', sync') h in
    let timed = start_commit_timer slot s1 in
    let (found, _, rest2) =
      and_then_some (get_proposals n.dalek view (commit slot v qc proposals report) header sync) _
        (s', sync') rest1 in
    let (s2, forwarded, rest3) =
      and_then_some (forward_commit (commit slot v qc proposals report) found.1 timed) _ (s', sync')
        rest2 in
    let (s3, tried, end) =
      and_then_some (try_prepare_waiting_slots n s2) (λ t. some (t, found.0)) (s', sync') rest3 in
    let e : s3 ≡ s' = ap (λ r. r.0) (some_injective end) in
    Keeps-trans recorded persisted s' (persist-Keeps n slot v qc recorded) (
      Keeps-trans persisted s1 s' (trigger_metrics-Keeps persisted s1 triggered) (
        Keeps-trans s1 timed s' (start_commit_timer-Keeps slot s1) (
          Keeps-trans timed s2 s'
            (forward_commit-Keeps (commit slot v qc proposals report) found.1 timed s2 forwarded)
            (Keeps-trans s2 s3 s' (try_tickets-Keeps (length s2.prepare_tickets) n s2 s3 tried)
              (Keeps-same s3 s' e)))))

pub process_commit-Quiet :
    (n : Node) (view : StoreView) (slot : Slot) (v : View) (qc : Qc) (proposals : Proposals)
    (report : Option AggregateReport) (header : Header) (s s' : Core) (sync sync' : SyncState)
    → process_commit n view (commit slot v qc proposals report) header (s, sync) ≡ some (s', sync')
    → Quiet s s'
unfolding record_commit
process_commit-Quiet n view slot v qc proposals report header s s' sync sync' h =
    let k = finish_transition-Keeps (record s {
      timers = filter (λ t. not (t.0 == slot)) s.timers;
      high_qcs = insert slot (commit slot v qc proposals report) s.high_qcs;
      last_committed_slot = max slot s.last_committed_slot;
    }) in
    Quiet-trans s (record_commit slot v qc proposals report s) s'
      (record { voted = k.quiet.voted; votes = k.quiet.votes })
      (process_commit-Keeps n view slot v qc proposals report header s s' sync sync' h).quiet

-- With ride sharing, a Commit that is handled with a return enters its slot as committed with its
-- certificate, keeps the other committed slots, and raises the last committed slot to it. The
-- consensus instances and the certificate makers stay as they are: nothing of a committed slot is
-- collected. (Without ride sharing the source goes on to handle the Prepares that it sends itself.)
pub process_commit-Commits :
    (n : Node) (view : StoreView) (slot : Slot) (v : View) (qc : Qc) (proposals : Proposals)
    (report : Option AggregateReport) (header : Header) (s s' : Core) (sync sync' : SyncState)
    → s.use_ride_share ≡ true
    → process_commit n view (commit slot v qc proposals report) header (s, sync) ≡ some (s', sync')
    → Commits slot (commit_of slot v qc proposals report) s s'
process_commit-Commits n view slot v qc proposals report header s s' sync sync' _ h =
    Commits-Keeps slot _ s (record_commit slot v qc proposals report s) s'
      (record_commit-Commits slot v qc proposals report s)
      (process_commit-Keeps n view slot v qc proposals report header s s' sync sync' h)

-- The last committed slot is committed, or 0 if none is, and none is above it.
record LastIsGreatest (s : Core) : Type 0 where
  pub above :
      (j : Slot) (cq : CommitQc) → lookup j s.committed_slots ≡ some cq → j ≤ s.last_committed_slot
  pub attained :
      (s.last_committed_slot ≡ 0)
      ⊎ ((cq : CommitQc) × (lookup s.last_committed_slot s.committed_slots ≡ some cq))

-- With ride sharing, a Commit that is handled with a return keeps that the last committed slot is the
-- greatest committed one.
process_commit-LastIsGreatest :
    (n : Node) (view : StoreView) (slot : Slot) (v : View) (qc : Qc) (proposals : Proposals)
    (report : Option AggregateReport) (header : Header) (s s' : Core) (sync sync' : SyncState)
    → s.use_ride_share ≡ true
    → LastIsGreatest s
    → process_commit n view (commit slot v qc proposals report) header (s, sync) ≡ some (s', sync')
    → LastIsGreatest s'
process_commit-LastIsGreatest n view slot v qc proposals report header s s' sync sync' ride g h =
    let c =
      process_commit-Commits n view slot v qc proposals report header s s' sync sync' ride h in
    record {
      above = λ j cq found.
          let read = sym (c.found j) ∙ found in
          let top : s'.last_committed_slot ≡ max slot s.last_committed_slot = c.last in
          elim (Bool-cases (j == slot)) [
            | inl here ↦ let e : j ≡ slot = (==_iff j slot).0 here in ground (arith)
            | inr other ↦
                let old : j ≤ s.last_committed_slot = g.above j cq (rw other at read) in
                ground (arith)
          ];
      attained = elim (Bool-cases (ltb slot s.last_committed_slot)) [
        | inl lower ↦
            let kept : s'.last_committed_slot ≡ s.last_committed_slot = c.last ∙ rw lower refl in
            let apart : (s.last_committed_slot == slot) ≡ false = ground arith in
            elim (g.attained) [
              | inl none_yet ↦ absurd (ground arith)
              | inr (cq, there) ↦ inr (
                cq,
                ap (λ j. lookup j s'.committed_slots) kept
                    ∙ (c.found s.last_committed_slot ∙ rw apart there),
              )
            ]
        | inr top ↦
            let raised : s'.last_committed_slot ≡ slot = c.last ∙ rw top refl in
            let here : (slot == slot) ≡ true = (==_iff slot slot).1 refl in
            inr (
              commit_of slot v qc proposals report,
              ap (λ j. lookup j s'.committed_slots) raised ∙ (c.found slot ∙ rw here refl),
            )
      ];
    }
