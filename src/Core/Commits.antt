-- ===== src/Core/Commits.antt =====
-- primary/src/core.rs: what a primary does with a Commit (`process_commit_message`, in a primary that
-- simulates no asynchrony and has no parameter update pending), and its coordination certificates.
-- `none` is a panic of the source. `clean_slot_periods` is called there without `.await`, so its
-- future is dropped and does nothing.
use auto_pilot.Config.Committee
use auto_pilot.Config.Committee.{Committee}
use auto_pilot.Messages.Errors.{DagResult}
use auto_pilot.Messages.Types.{
  View, Slot, Proposals, Qc, AggregateReport, ConsensusMessage, Header, commit,
}
use auto_pilot.Messages.Digests.{aggregate_digest}
use auto_pilot.Store.{remove}
use auto_pilot.Synchronizer.{StoreView, SyncState, get_proposals, pred_u64}
use auto_pilot.Core.State.{
  Node, Core, CoordinationPath, start_timer, send_committer, write_coordination, request_metrics,
  set_insert, emit, add_u64, ◌and_then◌,
}
use auto_pilot.Core.Slots.{effective_k_for_qc_slot}
use auto_pilot.Core.Tickets.{try_prepare_waiting_slots}
use auto_pilot.Prelude.{
  ltb, leb, ◌==◌, if◌then◌else◌, nat_eq, pair_eq, length, filter, contains, lookup, insert,
  contains_key, ok, err, ℕ, ◌/◌, ◌%◌, Bool, not, ◌&&◌, ◌||◌, Option, none, some, List, [], ◌∷◌,
  ◌++◌,
}

-- `k_transition_end_slot` is reset once a slot from there on has committed.
unfoldable pub finish_transition : Core → Core
finish_transition s = elim (s.k_transition_end_slot) [
  | none ↦ s
  | some transition_end ↦
      if leb transition_end s.last_committed_slot
      then record s { k_transition_end_slot = none }
      else s
]

abbrev pub max : ℕ → ℕ → ℕ
max a b = if ltb a b then b else a

unfoldable pub record_commit : Slot → View → Qc → Proposals → Option AggregateReport → Core → Core
unfolding finish_transition insert
record_commit slot view qc proposals report s =
    let s' = finish_transition (record s {
      timers = filter (λ t. not (t.0 == slot)) s.timers;
      high_qcs = insert slot (commit slot view qc proposals report) s.high_qcs;
      last_committed_slot = max slot s.last_committed_slot;
    }) in
    record s' {
      committed_slots =
          insert slot
            (record {
              slot = slot;
              view = view;
              qc = qc;
              proposals = proposals;
              aggregate_report = report;
            })
            s'.committed_slots;
    }

-- The certificate of the report that the Prepare of a slot and view carried; the file that
-- `extract_and_write_global_state` then writes is left out.
unfoldable pub certify_report : Node → Slot → View → Qc → AggregateReport → Core → Core
unfolding remove aggregate_digest Committee.size
certify_report n slot view qc report s =
    if contains s.certified_aggregate_epochs report.epoch then s else record s {
      certified_aggregate_epochs = set_insert report.epoch s.certified_aggregate_epochs;
      pending_aggregate_reports = remove report.epoch s.pending_aggregate_reports;
      certifiable_aggregate_reports =
          filter (λ e. not (e.0.0 == slot)) s.certifiable_aggregate_reports;
      out =
          s.out
          ++ write_coordination (record {
            epoch = report.epoch;
            slot = slot;
            view = view;
            aggregate_report_digest = aggregate_digest n.dalek report;
            path =
                if length qc.votes == Committee.size n.committee
                then CoordinationPath.fast
                else CoordinationPath.slow;
            qc_votes = length qc.votes;
          })
            ∷ [];
    }

unfoldable pub persist_coordination_certificate : Node → Slot → View → Qc → Core → Core
unfolding certify_report lookup
persist_coordination_certificate n slot view qc s =
    elim (lookup {K = Slot × View} (slot, view) s.certifiable_aggregate_reports) [
      | none ↦ s
      | some report ↦ certify_report n slot view qc report s
    ]

-- The window of an epoch has committed, and no request went out for the epoch.
unfoldable pub is_window_complete : Core → Bool
is_window_complete s =
    leb s.window_size (s.last_committed_slot % s.epoch_slots)
    && ((s.last_triggered_slot == 0)
        || ltb (s.last_triggered_slot / s.epoch_slots) (s.last_committed_slot / s.epoch_slots))

-- The metrics of an epoch are asked for; epochs without slots make the source panic.
unfoldable pub trigger_metrics : Core → Option Core
unfolding is_window_complete
trigger_metrics s =
    if not (ltb 0 s.window_size)
    then some s
    else if s.epoch_slots == 0
    then none
    else if is_window_complete s
    then some (record s {
      last_triggered_slot = s.last_committed_slot;
      out = s.out ++ request_metrics s.last_committed_slot ∷ [];
    })
    else some s

-- The slot `k` after a committed one.
abbrev pub next_slot : Slot → Core → Slot
next_slot slot s = add_u64 slot (effective_k_for_qc_slot s slot)

-- Its timer does not run yet and, for `k` other than 1, the slot before it has a view.
unfoldable pub is_timer_due : Slot → Core → Bool
unfolding effective_k_for_qc_slot contains_key
is_timer_due slot s =
    not (contains {A = Slot × View} s.timers (next_slot slot s, 1))
    && ((effective_k_for_qc_slot s slot == 1) || contains_key (pred_u64 (next_slot slot s)) s.views)

unfoldable pub start_commit_timer : Slot → Core → Core
unfolding is_timer_due
start_commit_timer slot s =
    if is_timer_due slot s
    then record s {
      timers = set_insert {A = Slot × View} (next_slot slot s, 1) s.timers;
      out = s.out ++ start_timer (next_slot slot s) 1 s.timeout_delay ∷ [];
    }
    else s

-- A Commit goes to the committer if the synchronizer has returned headers; its error is a panic.
unfoldable pub forward_commit : ConsensusMessage → DagResult (List Header) → Core → Option Core
forward_commit m (err e) s = none
forward_commit m (ok []) s = some s
forward_commit m (ok (_ ∷ _)) s = some (emit s (send_committer m))

-- `process_commit_message`; a Prepare that it sends without ride sharing is processed apart.
unfoldable pub process_commit :
    Node → StoreView → ConsensusMessage → Header → Core × SyncState → Option (Core × SyncState)
unfolding record_commit persist_coordination_certificate trigger_metrics start_commit_timer
    forward_commit get_proposals try_prepare_waiting_slots
process_commit n view (commit slot v qc proposals report) header (s, sync) =
    let m = commit slot v qc proposals report in
    trigger_metrics
      (persist_coordination_certificate n slot v qc (record_commit slot v qc proposals report s))
    and_then λ s1. get_proposals n.dalek view m header sync and_then λ found.
        forward_commit m (found.1) (start_commit_timer slot s1) and_then λ s2.
        try_prepare_waiting_slots n s2 and_then λ s3. some (s3, found.0)
process_commit n view _ header (s, sync) = some (s, sync)

-- `clean_slot_periods`, without the handlers of network sends.
unfoldable pub clean_slot_periods : Slot → Core → Core
unfolding effective_k_for_qc_slot
clean_slot_periods slot s =
    let k = max 1 (effective_k_for_qc_slot s slot) in
    record s {
      consensus_instances =
          filter (λ e. not (e.0.0 % k == slot % k) && leb e.0.0 slot) s.consensus_instances;
      qc_makers = filter (λ e. not (e.0.0 % k == slot % k) && leb e.0.0 slot) s.qc_makers;
    }
