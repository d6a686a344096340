-- ===== src/Core/Collection.antt =====
-- primary/src/core.rs: the collection of state reports (`handle_state_report`, the collection timer).
use auto_pilot.Crypto.{PublicKey}
use auto_pilot.Config.Committee
use auto_pilot.Config.Committee.{Committee}
use auto_pilot.Messages.Types.{StateReport, AggregateReport}
use auto_pilot.Messages.Reports.{verify_report, new_aggregate}
use auto_pilot.Core.State.{Node, Core, start_collection_timer, set_insert, get_or}
use auto_pilot.Prelude.{
  ltb, ◌==◌, if◌then◌else◌, nat_eq, pair_eq, length, filter, contains, values, lookup, insert,
  contains_key, is_ok, ℕ, ◌+◌, ◌-◌, ◌*◌, ◌/◌, Bool, true, false, not, none, some, List, [], ◌∷◌,
  ◌++◌,
}

-- The reports of an epoch, by their authors.
abbrev pub reports_at : ℕ → Core → List (PublicKey × StateReport)
reports_at epoch s = get_or [] (lookup epoch s.state_reports)

-- `record_state_report`: a later report of an author takes the place of the earlier one; true if
-- there was none.
unfoldable pub record_state_report : StateReport → Core → Core × Bool
unfolding insert contains_key
record_state_report report s =
    let epoch_reports = reports_at report.epoch s in
    (
      record s {
        state_reports =
            insert report.epoch (insert report.author report epoch_reports) s.state_reports;
      },
      not (contains_key report.author epoch_reports),
    )

unfoldable pub ensure_collection_timer : ℕ → Core → Core
ensure_collection_timer epoch s =
    if contains s.active_collection_timers epoch then s else record s {
      active_collection_timers = set_insert epoch s.active_collection_timers;
      out = s.out ++ start_collection_timer epoch ∷ [];
    }

-- The reports an aggregate needs: those of all but `f` authorities, or of all of `3 f + 1`.
unfoldable pub report_threshold : Committee → Bool → ℕ
unfolding Committee.size
report_threshold c allow_fallback =
    let f = (Committee.size c - 1) / 3 in if allow_fallback then 2 * f + 1 else 3 * f + 1

-- `entry(epoch).or_insert(aggregate)`.
unfoldable pub insert_new :
    ℕ → AggregateReport → List (ℕ × AggregateReport) → List (ℕ × AggregateReport)
unfolding insert contains_key
insert_new epoch aggregate m = if contains_key epoch m then m else insert epoch aggregate m

-- The aggregate of the reports of an epoch, if they are enough.
unfoldable pub build_aggregate : Node → ℕ → Bool → List (PublicKey × StateReport) → Core → Core
unfolding report_threshold insert_new new_aggregate
build_aggregate n epoch allow_fallback reports s =
    if ltb (length reports) (report_threshold n.committee allow_fallback) then s else record s {
      pending_aggregate_reports =
          insert_new epoch (new_aggregate epoch (values reports)) s.pending_aggregate_reports;
      aggregated_epochs = set_insert epoch s.aggregated_epochs;
    }

unfoldable pub try_build_aggregate_report : Node → ℕ → Bool → Core → Core
unfolding build_aggregate lookup
try_build_aggregate_report n epoch allow_fallback s =
    if contains s.aggregated_epochs epoch then s else elim (lookup epoch s.state_reports) [
      | none ↦ s
      | some reports ↦ build_aggregate n epoch allow_fallback reports s
    ]

unfoldable pub handle_state_report : Node → StateReport → Core → Core
unfolding record_state_report ensure_collection_timer try_build_aggregate_report verify_report
handle_state_report n report s =
    let (recorded, inserted) = record_state_report report s in
    if not (is_ok (verify_report n.dalek n.committee report))
    then s
    else if inserted
    then try_build_aggregate_report n report.epoch false
        (ensure_collection_timer report.epoch recorded)
    else recorded

-- The collection timer of an epoch fires: the aggregate may leave out `f` reports.
unfoldable pub expire_collection_timer : Node → ℕ → Core → Core
unfolding try_build_aggregate_report
expire_collection_timer n epoch s = try_build_aggregate_report n epoch true (record s {
  active_collection_timers = filter (λ e. not (e == epoch)) s.active_collection_timers;
})
