-- ===== src/Core/Kept.antt =====
-- primary/src/core.rs: what the handlers of tickets and the parts of `process_commit_message` keep.
use auto_pilot.Messages.Errors.{DagResult}
use auto_pilot.Messages.Types.{
  View, Slot, Qc, AggregateReport, ConsensusMessage, Header, prepare, confirm, commit,
}
use auto_pilot.Core.Quiet.{Quiet, Quiet-trans, Quiet-same, Quiet-emits}
use auto_pilot.Core.State.{
  send_info, send_request, Node, Core, request_metrics, send_committer, add_u64, set_insert,
  ◌and_then◌,
}
use auto_pilot.Core.ViewChange.{set_consensus_proposal, is_leader, share, send_consensus_req}
use auto_pilot.Core.Tickets.{
  enough_coverage, propose_next, keep_ticket, next_prepare, is_bounded_out, is_prepare_ticket_ready,
  try_tickets,
}
use auto_pilot.Core.Proposing.{last_branch, third_branch}
use auto_pilot.Core.Queue.{tickets_cases}
use auto_pilot.Core.Accepted.{some_injective}
use auto_pilot.Committer.Order.{and_then_some}
use auto_pilot.Core.Commits.{
  finish_transition, certify_report, persist_coordination_certificate, is_window_complete,
  trigger_metrics, is_timer_due, start_commit_timer, forward_commit,
}
use auto_pilot.Prelude.{
  ltb, ◌==◌, if◌then◌else◌, Bool-cases, Option-cases, nat_eq, pair_eq, contains, lookup, ok, err, ℕ,
  zero, suc, ◌≡◌, refl, sym, ap, ◌∙◌, inl, inr, Bool, true, false, Option, none, some, List, [],
  ◌∷◌, arith,
}

-- The committed slots and the consensus instances stay, and no header is voted for.
pub record Keeps (s s' : Core) : Type 0 where
  pub committed : s'.committed_slots ≡ s.committed_slots
  pub last : s'.last_committed_slot ≡ s.last_committed_slot
  pub instances : s'.consensus_instances ≡ s.consensus_instances
  pub makers : s'.qc_makers ≡ s.qc_makers
  pub quiet : Quiet s s'

pub Keeps-trans : (a b c : Core) → Keeps a b → Keeps b c → Keeps a c
Keeps-trans a b c h k = record {
  committed = k.committed ∙ h.committed;
  last = k.last ∙ h.last;
  instances = k.instances ∙ h.instances;
  makers = k.makers ∙ h.makers;
  quiet = Quiet-trans a b c h.quiet k.quiet;
}

pub Keeps-same : (s s' : Core) → s ≡ s' → Keeps s s'
Keeps-same s s' e = record {
  committed = ap (λ t. t.committed_slots) (sym e);
  last = ap (λ t. t.last_committed_slot) (sym e);
  instances = ap (λ t. t.consensus_instances) (sym e);
  makers = ap (λ t. t.qc_makers) (sym e);
  quiet = Quiet-same s s' e;
}

share-Keeps : (n : Node) (m : ConsensusMessage) (s : Core) → Keeps s (share n m s)
unfolding send_consensus_req
share-Keeps n m s = elim (Bool-cases s.use_ride_share) [
  | inl e ↦ record {
    committed = simp e;
    last = simp e;
    instances = simp e;
    makers = simp e;
    quiet = Quiet-emits s (share n m s) (send_info m ∷ []) refl (simp e) (simp e);
  }
  | inr e ↦ record {
    committed = simp e;
    last = simp e;
    instances = simp e;
    makers = simp e;
    quiet =
        Quiet-emits s (share n m s) (send_request (set_consensus_proposal n s m) ∷ []) refl (simp e)
          (simp e);
  }
]

propose_next-Keeps : (n : Node) (s : Core) (next : Slot) → Keeps s (propose_next n s next)
unfolding propose_next
propose_next-Keeps n s next =
    let started = record s { already_proposed_slots = set_insert next s.already_proposed_slots } in
    let k = share-Keeps n (next_prepare s next) started in
    record {
      committed = k.committed;
      last = k.last;
      instances = k.instances;
      makers = k.makers;
      quiet = record { voted = k.quiet.voted; votes = k.quiet.votes };
    }

keep_ticket-Keeps : (m : ConsensusMessage) (s : Core) → Keeps s (keep_ticket m s)
keep_ticket-Keeps m s = record {
  committed = refl;
  last = refl;
  instances = refl;
  makers = refl;
  quiet = record { voted = refl; votes = refl };
}

covered-Keeps :
    (n : Node) (s s' : Core) (m : ConsensusMessage) (next : Slot) (o : Option Bool)
    → (o and_then λ enough. some (if enough then propose_next n s next else keep_ticket m s))
      ≡ some s'
    → Keeps s s'
covered-Keeps n s s' m next none h = absurd (let bad = h in cc)
covered-Keeps n s s' m next (some true) h =
    rw (sym (some_injective h)) (propose_next-Keeps n s next)
covered-Keeps n s s' m next (some false) h = rw (sym (some_injective h)) (keep_ticket-Keeps m s)

pub is_prepare_ticket_ready-Keeps :
    (n : Node) (s s' : Core) (m : ConsensusMessage)
    → is_prepare_ticket_ready n s m ≡ some s'
    → Keeps s s'
unfolding is_prepare_ticket_ready
is_prepare_ticket_ready-Keeps n s s' (confirm _ _ _ _ _) h = Keeps-same s s' (some_injective h)
is_prepare_ticket_ready-Keeps n s s' (commit _ _ _ _ _) h = Keeps-same s s' (some_injective h)
is_prepare_ticket_ready-Keeps n s s' (prepare slot view tc ticket proposals report) h =
    let next = add_u64 slot 1 in
    let m = prepare slot view tc ticket proposals report in
    elim (Bool-cases (is_leader n next 1)) [
      | inr l ↦ Keeps-same s s' (some_injective (rw l at h))
      | inl l ↦ elim (Bool-cases (contains s.already_proposed_slots next)) [
        | inl f ↦ Keeps-same s s' (some_injective (rw (l, f) at h))
        | inr f ↦ elim (Bool-cases (is_bounded_out s next)) [
          | inl b ↦
              rw (sym (some_injective (sym (third_branch _ _ _ _ l f b) ∙ h)))
                (keep_ticket-Keeps m s)
          | inr b ↦
              covered-Keeps n s s' m next (enough_coverage s proposals)
                (sym (last_branch _ _ _ _ l f b) ∙ h)
        ]
      ]
    ]

pub try_tickets-Keeps : (i : ℕ) (n : Node) (s s' : Core) → try_tickets i n s ≡ some s' → Keeps s s'
unfolding try_tickets
try_tickets-Keeps zero n s s' h = Keeps-same s s' (some_injective h)
try_tickets-Keeps (suc i) n s s' h = elim (tickets_cases s.prepare_tickets) [
  | inl e ↦ absurd (let bad = rw e at h in cc)
  | inr (m, ms, e) ↦
      let popped = record s { prepare_tickets = ms } in
      let (t, one, rest) =
        and_then_some (is_prepare_ticket_ready n popped m) (try_tickets i n) s' (rw e at h) in
      let k = is_prepare_ticket_ready-Keeps n popped t m one in
      Keeps-trans s t s'
        (record {
          committed = k.committed;
          last = k.last;
          instances = k.instances;
          makers = k.makers;
          quiet = record { voted = k.quiet.voted; votes = k.quiet.votes };
        })
        (try_tickets-Keeps i n t s' rest)
]

pub finish_transition-Keeps : (s : Core) → Keeps s (finish_transition s)
unfolding finish_transition
finish_transition-Keeps s = record {
  committed = ground arith;
  last = ground arith;
  instances = ground arith;
  makers = ground arith;
  quiet = record { voted = ground arith; votes = ground arith };
}

certify_report-Keeps :
    (n : Node) (slot : Slot) (view : View) (qc : Qc) (report : AggregateReport) (s : Core)
    → Keeps s (certify_report n slot view qc report s)
unfolding certify_report
certify_report-Keeps n slot view qc report s =
    elim (Bool-cases (contains s.certified_aggregate_epochs report.epoch)) [
      | inl done ↦ rw done (Keeps-same s s refl)
      | inr new ↦ record {
        committed = rw new refl;
        last = rw new refl;
        instances = rw new refl;
        makers = rw new refl;
        quiet = rw new (Quiet-emits s _ _ refl refl refl);
      }
    ]

pub persist-Keeps :
    (n : Node) (slot : Slot) (view : View) (qc : Qc) (s : Core)
    → Keeps s (persist_coordination_certificate n slot view qc s)
unfolding persist_coordination_certificate certify_report
persist-Keeps n slot view qc s =
    elim (Option-cases (lookup {K = Slot × View} (slot, view) s.certifiable_aggregate_reports)) [
      | inl e ↦ rw (persist_coordination_certificate, e) (Keeps-same s s refl)
      | inr (report, e) ↦
          rw (persist_coordination_certificate, e) (certify_report-Keeps n slot view qc report s)
    ]

pub trigger_metrics-Keeps : (s s' : Core) → trigger_metrics s ≡ some s' → Keeps s s'
unfolding trigger_metrics
trigger_metrics-Keeps s s' h = elim (Bool-cases (ltb 0 s.window_size)) [
  | inr no_window ↦ Keeps-same s s' (some_injective (rw no_window at h))
  | inl window ↦ elim (Bool-cases (s.epoch_slots == 0)) [
    | inl no_epochs ↦ absurd (let bad = rw (window, no_epochs) at h in cc)
    | inr epochs ↦ elim (Bool-cases (is_window_complete s)) [
      | inl complete ↦
          let e = some_injective (rw (window, epochs, complete) at h) in
          record {
            committed = ap (λ t. t.committed_slots) (sym e);
            last = ap (λ t. t.last_committed_slot) (sym e);
            instances = ap (λ t. t.consensus_instances) (sym e);
            makers = ap (λ t. t.qc_makers) (sym e);
            quiet =
                Quiet-emits s s' (request_metrics s.last_committed_slot ∷ []) refl
                  (ap (λ t. t.out) (sym e)) (ap (λ t. t.last_voted) (sym e));
          }
      | inr open_window ↦ Keeps-same s s' (some_injective (rw (window, epochs, open_window) at h))
    ]
  ]
]

pub start_commit_timer-Keeps : (slot : Slot) (s : Core) → Keeps s (start_commit_timer slot s)
unfolding start_commit_timer
start_commit_timer-Keeps slot s = elim (Bool-cases (is_timer_due slot s)) [
  | inl due ↦ record {
    committed = rw due refl;
    last = rw due refl;
    instances = rw due refl;
    makers = rw due refl;
    quiet = rw due (Quiet-emits s _ _ refl refl refl);
  }
  | inr not_due ↦ rw not_due (Keeps-same s s refl)
]

pub forward_commit-Keeps :
    (m : ConsensusMessage) (r : DagResult (List Header)) (s s' : Core)
    → forward_commit m r s ≡ some s'
    → Keeps s s'
unfolding forward_commit
forward_commit-Keeps m (err e) s s' h = absurd (let bad = h in cc)
forward_commit-Keeps m (ok []) s s' h = Keeps-same s s' (some_injective h)
forward_commit-Keeps m (ok (x ∷ xs)) s s' h =
    let e = some_injective h in
    record {
      committed = ap (λ t. t.committed_slots) (sym e);
      last = ap (λ t. t.last_committed_slot) (sym e);
      instances = ap (λ t. t.consensus_instances) (sym e);
      makers = ap (λ t. t.qc_makers) (sym e);
      quiet =
          Quiet-emits s s' (send_committer m ∷ []) refl (ap (λ t. t.out) (sym e))
            (ap (λ t. t.last_voted) (sym e));
    }
