-- ===== src/Core/Expiring.antt =====
-- primary/src/core.rs: the end of the time in which an epoch collects state reports.
use auto_pilot.Messages.Types.{AggregateReport}
use auto_pilot.Messages.Reports.{new_aggregate}
use auto_pilot.Core.State.{Node, Core}
use auto_pilot.Core.Collection.{
  reports_at, report_threshold, insert_new, build_aggregate, try_build_aggregate_report,
  expire_collection_timer,
}
use auto_pilot.Core.Collected.{
  IsCollected, IsProposable, IsCollected-same, try_build_aggregate_report-IsCollected,
  enough_reports,
}
use auto_pilot.Prelude.{
  ltb, ltb_false→le, ==_iff, Bool-cases, Option-cases, nat_eq, pair_eq, length, contains, values,
  lookup, contains_key, lookup-insert, ℕ, suc, ◌≤◌, ◌≡◌, refl, ◌∙◌, ◌⊎◌, inl, inr, true, false,
  some, List, arith,
}

expire_collection_timer-IsCollected :
    (n : Node) (epoch : ℕ) (s : Core)
    → IsCollected n s
    → IsCollected n (expire_collection_timer n epoch s)
unfolding expire_collection_timer
expire_collection_timer-IsCollected n epoch s h =
    try_build_aggregate_report-IsCollected n epoch true _ (IsCollected-same n s _ refl refl h)

insert_new_found :
    (epoch : ℕ) (new : AggregateReport) (m : List (ℕ × AggregateReport))
    → (r : AggregateReport) × (lookup epoch (insert_new epoch new m) ≡ some r)
unfolding insert_new contains_key
insert_new_found epoch new m = elim (Option-cases (lookup epoch m)) [
  | inl e ↦ (
    new,
    rw (insert_new, contains_key, e)
        (lookup-insert epoch epoch new m ∙ rw ((==_iff epoch epoch).1 refl) refl),
  )
  | inr (r, e) ↦ (r, rw (insert_new, contains_key, e) e)
]

-- The aggregate of an epoch is made, or the reports are too few and none is made.
pub record Expires (n : Node) (epoch : ℕ) (s s' : Core) : Type 0 where
  pub collected : IsCollected n s'
  pub outcome :
      ((suc (length (reports_at epoch s)) ≤ enough_reports n.committee)
        × (s'.pending_aggregate_reports ≡ s.pending_aggregate_reports)
        × (s'.aggregated_epochs ≡ s.aggregated_epochs))
      ⊎ ((enough_reports n.committee ≤ length (reports_at epoch s))
          × (contains s'.aggregated_epochs epoch ≡ true)
          × ((r : AggregateReport) × (lookup epoch s'.pending_aggregate_reports ≡ some r)
              × IsProposable n epoch r))

-- The collection timer of an epoch that has no aggregate yet keeps the invariant of the collection. If
-- at least `2 f + 1` authorities have reported, the epoch is then aggregated, and its pending aggregate
-- has at least `2 f + 1` reports and is accepted by `AggregateReport::verify`. If fewer have, no
-- aggregate is made.
pub expire_collection_timer-Expires :
    (n : Node) (epoch : ℕ) (s : Core)
    → IsCollected n s
    → contains s.aggregated_epochs epoch ≡ false
    → Expires n epoch s (expire_collection_timer n epoch s)
unfolding expire_collection_timer try_build_aggregate_report build_aggregate report_threshold
expire_collection_timer-Expires n epoch s h open_epoch =
    let kept = expire_collection_timer-IsCollected n epoch s h in
    record {
      collected = kept;
      outcome = elim (Option-cases (lookup epoch s.state_reports)) [
        | inl e ↦ inl (
          rw e (omega arith),
          rw (expire_collection_timer, try_build_aggregate_report, open_epoch, e) refl,
          rw (expire_collection_timer, try_build_aggregate_report, open_epoch, e) refl,
        )
        | inr (rs, e) ↦ elim (Bool-cases (ltb (length rs) (report_threshold n.committee true))) [
          | inl few ↦ inl (
            rw e (ground arith),
            rw (expire_collection_timer, try_build_aggregate_report, open_epoch, e, few) refl,
            rw (expire_collection_timer, try_build_aggregate_report, open_epoch, e, few) refl,
          )
          | inr enough ↦
              let (r, found) =
                insert_new_found epoch (new_aggregate epoch (values rs))
                  s.pending_aggregate_reports in
              let there : lookup epoch (expire_collection_timer n epoch s).pending_aggregate_reports
                  ≡ some r =
                rw (expire_collection_timer, try_build_aggregate_report, open_epoch, e, enough)
                  found in
              inr (
                rw e (omega (arith, ltb_false→le _ _ enough)),
                rw (expire_collection_timer, try_build_aggregate_report, open_epoch, e, enough)
                    (rw open_epoch (rw ((==_iff epoch epoch).1 refl) refl)),
                (r, there, kept.pending epoch r there),
              )
        ]
      ];
    }
