-- ===== src/Core/Accepted.antt =====
-- primary/src/core.rs, `is_valid`: accepted messages, and the views after a check.
use auto_pilot.Messages.Types.{
  View, Slot, Proposals, AggregateReport, CommitQc, ConsensusMessage, OptionTc, prepare, confirm,
  commit,
}
use auto_pilot.Messages.Reports.{verify_aggregate}
use auto_pilot.Messages.Verify.{verify_confirm}
use auto_pilot.Core.State.{Node, Core}
use auto_pilot.Core.Validity.{
  TicketCheck, refused, checked, check_prepare_ticket, accept_report, current_view, raise_view,
  may_vote, after_report, finish_prepare, is_valid,
}
use auto_pilot.Core.Slots.{epoch_index_for_slot}
use auto_pilot.Core.Views.{view-insert}
use auto_pilot.Prelude.{
  ltb, leb, ◌==◌, ltb→lt, leb→le, ==_iff, Bool-cases, Option-cases, nat_eq, pair_eq, contains,
  lookup, is_ok, ◌≤◌, ◌≡◌, refl, sym, ap, ◌∙◌, inl, inr, Bool, true, false, not, ◌&&◌, Option, none,
  some, arith,
}

-- The state has the votes and the views of another.
record SameVotes (s s' : Core) : Type 0 where
  voted : s'.last_voted_consensus ≡ s.last_voted_consensus
  views : s'.views ≡ s.views

pub some_injective : {A : Type 0} {a b : A} → some a ≡ some b → a ≡ b
some_injective h = cc

accept_report_keeps :
    (n : Node) (s : Core) (slot : Slot) (view : View) (report : Option AggregateReport) (s' : Core)
    → accept_report n s slot view report ≡ some s'
    → SameVotes s s'
unfolding accept_report
accept_report_keeps n s slot view none s' h =
    let e : s ≡ s' = cc in record { voted = rw (sym e) refl; views = rw (sym e) refl }
accept_report_keeps n s slot view (some report) s' h =
    elim (Bool-cases
      (is_ok (verify_aggregate n.dalek n.committee report (epoch_index_for_slot s slot)))) [
        | inl v ↦
            let e = some_injective (rw v at h) in
            record {
              voted = ap (λ t. t.last_voted_consensus) (sym e);
              views = ap (λ t. t.views) (sym e);
            }
        | inr v ↦ absurd (let bad = rw v at h in cc)
      ]

-- What `may_vote` shows where it answers with `true`.
record VotesIn (s s' : Core) (slot : Slot) (view : View) (valid : Bool) : Type 0 where
  same : s' ≡ s
  fresh : contains {A = Slot × View} s.last_voted_consensus (slot, view) ≡ false
  ticket : valid ≡ true
  here : lookup slot s.views ≡ some view

may_vote-true :
    (s s' : Core) (slot : Slot) (view : View) (valid : Bool)
    → may_vote s slot view valid ≡ some (s', true)
    → VotesIn s s' slot view valid
unfolding may_vote
may_vote-true s s' slot view valid h =
    elim (Bool-cases (contains {A = Slot × View} s.last_voted_consensus (slot, view))) [
      | inl c ↦ absurd (let bad = rw c at h in cc)
      | inr c ↦ elim (Bool-cases valid) [
        | inr t ↦ absurd (let bad = rw (c, t) at h in cc)
        | inl t ↦ elim (Option-cases (lookup slot s.views)) [
          | inl l ↦ absurd (let bad = rw (c, t, l) at h in cc)
          | inr (v, l) ↦
              let e = some_injective (rw (c, t, l) at h) in
              let same : s ≡ s' = ap (λ p. p.0) e in
              let now : (v == view) ≡ true = ap (λ p. p.1) e in
              record {
                same = sym same;
                fresh = c;
                ticket = t;
                here = rw (sym ((==_iff v view).0 now)) l;
              }
        ]
      ]
    ]

may_vote_same :
    (s s' : Core) (slot : Slot) (view : View) (valid b : Bool)
    → may_vote s slot view valid ≡ some (s', b)
    → s' ≡ s
unfolding may_vote
may_vote_same s s' slot view valid b h =
    elim (Bool-cases
      (not (contains {A = Slot × View} s.last_voted_consensus (slot, view)) && valid)) [
        | inl c ↦ elim (Option-cases (lookup slot s.views)) [
          | inl l ↦ absurd (let bad = rw (c, l) at h in cc)
          | inr (v, l) ↦ sym (ap (λ p. p.0) (some_injective (rw (c, l) at h)))
        ]
        | inr c ↦ sym (ap (λ p. p.0) (some_injective (rw c at h)))
      ]

raise_view_voted :
    (s : Core) (slot : Slot) (view : View)
    → (raise_view s slot view).last_voted_consensus ≡ s.last_voted_consensus
unfolding raise_view
raise_view_voted s slot view = ground arith

raise_view-current_view :
    (s : Core) (slot : Slot) (view : View) (other : Slot)
    → current_view s other ≤ current_view (raise_view s slot view) other
unfolding raise_view
raise_view-current_view s slot view other = elim (Bool-cases (ltb (current_view s slot) view)) [
  | inl e ↦ rw e (
      view-insert s.views slot other view
        (let l = ltb→lt (current_view s slot) view e in omega arith))
  | inr e ↦ rw e (omega arith)
]

-- An accepted Prepare that the primary may vote for: it has not voted in its slot and view, the slot
-- is in that view after the check, and the votes stay as they are.
pub record IsVotable (s s' : Core) (slot : Slot) (view : View) : Type 0 where
  pub fresh : contains {A = Slot × View} s.last_voted_consensus (slot, view) ≡ false
  pub voted : s'.last_voted_consensus ≡ s.last_voted_consensus
  pub here : lookup slot s'.views ≡ some view

after_report-IsVotable :
    (n : Node) (s s' : Core) (slot : Slot) (view : View) (report : Option AggregateReport)
    (valid : Bool) (o : Option Core)
    → accept_report n s slot view report ≡ o
    → after_report s slot view valid o ≡ some (s', true)
    → IsVotable s s' slot view
unfolding after_report
after_report-IsVotable n s s' slot view report valid none a h = absurd (let bad = h in cc)
after_report-IsVotable n s s' slot view report valid (some s1) a h =
    let kept = accept_report_keeps n s slot view report s1 a in
    let v = may_vote-true (raise_view s1 slot view) s' slot view valid h in
    let raised : (raise_view s1 slot view).last_voted_consensus ≡ s.last_voted_consensus =
      raise_view_voted s1 slot view ∙ kept.voted in
    record {
      fresh = rw (sym raised) (v.fresh);
      voted = ap (λ t. t.last_voted_consensus) v.same ∙ raised;
      here = rw (v.same) (v.here);
    }

finish_prepare-IsVotable :
    (n : Node) (s s' : Core) (slot : Slot) (view : View) (report : Option AggregateReport)
    (check : Option TicketCheck)
    → finish_prepare n s slot view report check ≡ some (s', true)
    → IsVotable s s' slot view
unfolding finish_prepare
finish_prepare-IsVotable n s s' slot view report none h = absurd (let bad = h in cc)
finish_prepare-IsVotable n s s' slot view report (some refused) h = absurd (let bad = h in cc)
finish_prepare-IsVotable n s s' slot view report (some (checked valid)) h =
    after_report-IsVotable n s s' slot view report valid (accept_report n s slot view report) refl h

-- A Prepare that `is_valid` accepts has a slot and view in which the primary has not voted, and the
-- slot is then in that view.
pub is_valid-IsVotable :
    (n : Node) (s s' : Core) (slot : Slot) (view : View) (tc : OptionTc) (ticket : Option CommitQc)
    (proposals : Proposals) (report : Option AggregateReport)
    → is_valid n s (prepare slot view tc ticket proposals report) ≡ some (s', true)
    → IsVotable s s' slot view
unfolding is_valid
is_valid-IsVotable n s s' slot view tc ticket proposals report h =
    finish_prepare-IsVotable n s s' slot view report
      (check_prepare_ticket n s slot view tc ticket proposals) h

after_report-current_view :
    (n : Node) (s s' : Core) (b : Bool) (slot : Slot) (view : View)
    (report : Option AggregateReport) (valid : Bool) (other : Slot) (o : Option Core)
    → accept_report n s slot view report ≡ o
    → after_report s slot view valid o ≡ some (s', b)
    → current_view s other ≤ current_view s' other
unfolding after_report
after_report-current_view n s s' b slot view report valid other none a h =
    let e : s ≡ s' = ap (λ p. p.0) (some_injective h) in rw (sym e) (omega arith)
after_report-current_view n s s' b slot view report valid other (some s1) a h =
    let kept = accept_report_keeps n s slot view report s1 a in
    let v = may_vote_same (raise_view s1 slot view) s' slot view valid b h in
    rw (v, sym (kept.views)) (raise_view-current_view s1 slot view other)

finish_prepare-current_view :
    (n : Node) (s s' : Core) (b : Bool) (slot : Slot) (view : View)
    (report : Option AggregateReport) (check : Option TicketCheck) (other : Slot)
    → finish_prepare n s slot view report check ≡ some (s', b)
    → current_view s other ≤ current_view s' other
unfolding finish_prepare
finish_prepare-current_view n s s' b slot view report none other h = absurd (let bad = h in cc)
finish_prepare-current_view n s s' b slot view report (some refused) other h =
    let e : s ≡ s' = ap (λ p. p.0) (some_injective h) in rw (sym e) (omega arith)
finish_prepare-current_view n s s' b slot view report (some (checked valid)) other h =
    after_report-current_view n s s' b slot view report valid other
      (accept_report n s slot view report) refl h

-- Checking a message, accepted or not, never lowers the view of any slot.
pub is_valid-current_view :
    (n : Node) (s s' : Core) (m : ConsensusMessage) (b : Bool) (other : Slot)
    → is_valid n s m ≡ some (s', b)
    → current_view s other ≤ current_view s' other
unfolding is_valid
is_valid-current_view n s s' (prepare slot view tc ticket proposals report) b other h =
    finish_prepare-current_view n s s' b slot view report
      (check_prepare_ticket n s slot view tc ticket proposals) other h
is_valid-current_view n s s' (confirm slot view qc proposals report) b other h =
    elim (Bool-cases (leb (current_view s slot) view)) [
      | inr l ↦
          (let e : s ≡ s' = ap (λ p. p.0) (some_injective (rw l at h)) in rw (sym e) (omega arith))
      | inl l ↦
          elim (Bool-cases
            (verify_confirm n.dalek n.committee (confirm slot view qc proposals report))) [
              | inl v ↦
                  (let e = ap (λ p. p.0) (some_injective (rw (l, v) at h)) in
                    rw (sym e)
                      (view-insert s.views slot other view (leb→le (current_view s slot) view l)))
              | inr v ↦
                  (let e : s ≡ s' = ap (λ p. p.0) (some_injective (rw (l, v) at h)) in
                    rw (sym e) (omega arith))
            ]
    ]
is_valid-current_view n s s' (commit slot view qc proposals report) b other h =
    let e : s ≡ s' = ap (λ p. p.0) (some_injective h) in rw (sym e) (omega arith)
