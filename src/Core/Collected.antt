-- ===== src/Core/Collected.antt =====
-- primary/src/core.rs: the invariant of the state reports that a primary collects.
use auto_pilot.Prelude.{
  ltb, ◌==◌, if◌then◌else◌, ltb_false→le, ==_iff, Bool-cases, Option-cases, nat_eq, pair_eq, length,
  All, contains, IsDistinct, keys, values, lookup, insert, contains_key, lookup-insert, ok, err, ℕ,
  suc, ◌+◌, ◌-◌, ◌*◌, ◌/◌, ◌≤◌, ◌≡◌, refl, sym, ap, ◌∙◌, inl, inr, Bool, true, false, ◌||◌, Option,
  none, some, List, [], ◌∷◌, map, arith,
}
use auto_pilot.Crypto.{PublicKey}
use auto_pilot.Config.Committee
use auto_pilot.Config.Committee.{Committee}
use auto_pilot.Messages.Errors.{DagResult}
use auto_pilot.Messages.Types.{StateReport, AggregateReport}
use auto_pilot.Messages.Reports.{author_of, new_aggregate, verify_report, verify_aggregate}
use auto_pilot.Messages.Coordination.{verify_aggregate_iff}
use auto_pilot.Messages.Sorting.{All-sort_reports, IsDistinct-sort_reports, length-sort_reports}
use auto_pilot.Core.State.{Node, Core, get_or}
use auto_pilot.Core.Accepted.{some_injective}
use auto_pilot.Core.Collection.{
  reports_at, record_state_report, ensure_collection_timer, report_threshold, insert_new,
  build_aggregate, try_build_aggregate_report, handle_state_report,
}

-- A report of the epoch, under its author, that verifies.
abbrev pub IsReport : Node → ℕ → PublicKey × StateReport → Type 0
IsReport n epoch (pk, r) =
    (r.author ≡ pk) × (r.epoch ≡ epoch) × (verify_report n.dalek n.committee r ≡ ok tt)

abbrev pub AreReports : Node → ℕ → List (PublicKey × StateReport) → Type 0
AreReports n epoch rs = IsDistinct (keys rs) × All (IsReport n epoch) rs

-- Enough reports for an aggregate: those of all authorities but `f`, of which `2 f + 1` are left.
abbrev pub enough_reports : Committee → ℕ
enough_reports c = 2 * ((Committee.size c - 1) / 3) + 1

-- An aggregate that every primary of the committee accepts for the epoch, with enough reports.
abbrev pub IsProposable : Node → ℕ → AggregateReport → Type 0
IsProposable n epoch r =
    (verify_aggregate n.dalek n.committee r epoch ≡ ok tt)
    × (enough_reports n.committee ≤ length r.reports)

pub record IsCollected (n : Node) (s : Core) : Type 0 where
  pub reports :
      (epoch : ℕ) (rs : List (PublicKey × StateReport))
      → lookup epoch s.state_reports ≡ some rs
      → AreReports n epoch rs
  pub pending :
      (epoch : ℕ) (r : AggregateReport)
      → lookup epoch s.pending_aggregate_reports ≡ some r
      → IsProposable n epoch r

module _ {V : Type 0} where
  keys-insert :
      (k j : ℕ) (v : V) (m : List (ℕ × V))
      → contains (keys (insert k v m)) j ≡ ((j == k) || contains (keys m) j)
  unfolding insert
  keys-insert k j v [] = refl
  keys-insert k j v ((i, w) ∷ m) = ground (arith, keys-insert k j v m)

  IsDistinct-insert :
      (k : ℕ) (v : V) (m : List (ℕ × V)) → IsDistinct (keys m) → IsDistinct (keys (insert k v m))
  unfolding insert
  IsDistinct-insert k v [] h = (refl, tt)
  IsDistinct-insert k v ((i, w) ∷ m) h = elim (Bool-cases (k == i)) [
    | inl same ↦ rw same (ground arith)
    | inr other ↦ rw other (ground (arith, keys-insert k i v m), IsDistinct-insert k v m h.1)
  ]

  All-insert :
      (P : ℕ × V → Type 0) (k : ℕ) (v : V) (m : List (ℕ × V))
      → P (k, v)
      → All P m
      → All P (insert k v m)
  unfolding insert
  All-insert P k v [] p h = (p, tt)
  All-insert P k v ((i, w) ∷ m) p h = elim (Bool-cases (k == i)) [
    | inl same ↦ rw same (p, h.1)
    | inr other ↦ rw other (h.0, All-insert P k v m p h.1)
  ]

values-All :
    (P : PublicKey × StateReport → Type 0) (Q : StateReport → Type 0)
    (rs : List (PublicKey × StateReport))
    → ((e : PublicKey × StateReport) → P e → Q e.1)
    → All P rs
    → All Q (values rs)
values-All P Q [] f h = tt
values-All P Q ((pk, r) ∷ rs) f h = (f (pk, r) h.0, values-All P Q rs f h.1)

authors-values :
    (n : Node) (epoch : ℕ) (rs : List (PublicKey × StateReport))
    → All (IsReport n epoch) rs
    → map author_of (values rs) ≡ keys rs
authors-values n epoch [] h = refl
authors-values n epoch ((pk, r) ∷ rs) h = rw (h.0.0, authors-values n epoch rs h.1)

length-values : (rs : List (PublicKey × StateReport)) → length (values rs) ≡ length rs
length-values [] = refl
length-values ((pk, r) ∷ rs) = ap suc (length-values rs)

enough-le : (c : Committee) (fallback : Bool) → enough_reports c ≤ report_threshold c fallback
unfolding report_threshold
enough-le c true = omega arith
enough-le c false = omega arith

-- The aggregate of enough reports.
new_aggregate-IsProposable :
    (n : Node) (epoch : ℕ) (rs : List (PublicKey × StateReport))
    → AreReports n epoch rs
    → enough_reports n.committee ≤ length rs
    → IsProposable n epoch (new_aggregate epoch (values rs))
unfolding new_aggregate
new_aggregate-IsProposable n epoch rs (distinct, each) enough = (
  (verify_aggregate_iff n.dalek n.committee (new_aggregate epoch (values rs)) epoch).1 (
    refl,
    record {
      one_epoch =
          All-sort_reports (λ r. r.epoch ≡ epoch) (values rs)
            (values-All (IsReport n epoch) _ rs (λ e h. h.1) each);
      verified =
          All-sort_reports (λ r. verify_report n.dalek n.committee r ≡ ok tt) (values rs)
            (values-All (IsReport n epoch) _ rs (λ e h. h.2) each);
      distinct = IsDistinct-sort_reports (values rs) (rw (authors-values n epoch rs each) distinct);
    },
  ),
  omega (arith, enough, length-sort_reports (values rs), length-values rs),
)

-- A state with the reports and the aggregates of another.
pub IsCollected-same :
    (n : Node) (s s' : Core)
    → s'.state_reports ≡ s.state_reports
    → s'.pending_aggregate_reports ≡ s.pending_aggregate_reports
    → IsCollected n s
    → IsCollected n s'
IsCollected-same n s s' e f h = record {
  reports = λ epoch rs found. h.reports epoch rs (ap (λ m. lookup epoch m) (sym e) ∙ found);
  pending = λ epoch r found. h.pending epoch r (ap (λ m. lookup epoch m) (sym f) ∙ found);
}

reports_at-AreReports :
    (n : Node) (epoch : ℕ) (s : Core) (o : Option (List (PublicKey × StateReport)))
    → lookup epoch s.state_reports ≡ o
    → IsCollected n s
    → AreReports n epoch (get_or [] o)
reports_at-AreReports n epoch s none e h = (tt, tt)
reports_at-AreReports n epoch s (some rs) e h = h.reports epoch rs e

record_state_report-IsCollected :
    (n : Node) (r : StateReport) (s : Core)
    → verify_report n.dalek n.committee r ≡ ok tt
    → IsCollected n s
    → IsCollected n (record_state_report r s).0
unfolding record_state_report
record_state_report-IsCollected n r s v h =
    let rs = reports_at r.epoch s in
    let (distinct, each) = reports_at-AreReports n r.epoch s _ refl h in
    let now : AreReports n r.epoch (insert r.author r rs) = (
      IsDistinct-insert r.author r rs distinct,
      All-insert (IsReport n r.epoch) r.author r rs (refl, refl, v) each,
    ) in
    record {
      reports = λ epoch qs found.
          let read : (if epoch == r.epoch
                then some (insert r.author r rs)
                else lookup epoch s.state_reports)
              ≡ some qs =
            sym (lookup-insert r.epoch epoch (insert r.author r rs) s.state_reports) ∙ found in
          elim (Bool-cases (epoch == r.epoch)) [
            | inl same ↦
                let e : insert r.author r rs ≡ qs = some_injective (rw same at read) in
                let here : epoch ≡ r.epoch = (==_iff epoch r.epoch).0 same in rw (sym e, here) now
            | inr other ↦ h.reports epoch qs (rw other at read)
          ];
      pending = h.pending;
    }

insert_new-IsProposable :
    (n : Node) (epoch : ℕ) (new : AggregateReport) (m : List (ℕ × AggregateReport))
    → IsProposable n epoch new
    → ((e : ℕ) (r : AggregateReport) → lookup e m ≡ some r → IsProposable n e r)
    → (e : ℕ) (r : AggregateReport) → lookup e (insert_new epoch new m) ≡ some r
    → IsProposable n e r
unfolding insert_new
insert_new-IsProposable n epoch new m p old e r found = elim (Bool-cases (contains_key epoch m)) [
  | inl there ↦ old e r (rw there at found)
  | inr absent ↦
      let read : (if e == epoch then some new else lookup e m) ≡ some r =
        sym (lookup-insert epoch e new m) ∙ rw absent at found in
      elim (Bool-cases (e == epoch)) [
        | inl same ↦
            let it : new ≡ r = some_injective (rw same at read) in
            let here : e ≡ epoch = (==_iff e epoch).0 same in rw (sym it, here) p
        | inr other ↦ old e r (rw other at read)
      ]
]

build_aggregate-IsCollected :
    (n : Node) (epoch : ℕ) (fallback : Bool) (rs : List (PublicKey × StateReport)) (s : Core)
    → AreReports n epoch rs
    → IsCollected n s
    → IsCollected n (build_aggregate n epoch fallback rs s)
unfolding build_aggregate
build_aggregate-IsCollected n epoch fallback rs s a h =
    elim (Bool-cases (ltb (length rs) (report_threshold n.committee fallback))) [
      | inl few ↦ rw few h
      | inr enough ↦ rw enough (record {
        reports = h.reports;
        pending =
            insert_new-IsProposable n epoch (new_aggregate epoch (values rs))
              s.pending_aggregate_reports
              (new_aggregate-IsProposable n epoch rs a
                (omega (arith, ltb_false→le _ _ enough, enough-le n.committee fallback)))
              h.pending;
      })
    ]

pub try_build_aggregate_report-IsCollected :
    (n : Node) (epoch : ℕ) (fallback : Bool) (s : Core)
    → IsCollected n s
    → IsCollected n (try_build_aggregate_report n epoch fallback s)
unfolding try_build_aggregate_report
try_build_aggregate_report-IsCollected n epoch fallback s h =
    elim (Bool-cases (contains s.aggregated_epochs epoch)) [
      | inl done ↦ rw done h
      | inr free ↦ elim (Option-cases (lookup epoch s.state_reports)) [
        | inl e ↦ rw (try_build_aggregate_report, free, e) h
        | inr (rs, e) ↦
            rw (try_build_aggregate_report, free, e)
              (build_aggregate-IsCollected n epoch fallback rs s (h.reports epoch rs e) h)
      ]
    ]

ensure_collection_timer-IsCollected :
    (n : Node) (epoch : ℕ) (s : Core)
    → IsCollected n s
    → IsCollected n (ensure_collection_timer epoch s)
unfolding ensure_collection_timer
ensure_collection_timer-IsCollected n epoch s h =
    elim (Bool-cases (contains s.active_collection_timers epoch)) [
      | inl on ↦ rw on h
      | inr off ↦ rw off (IsCollected-same n s _ refl refl h)
    ]

-- Every state report, refused, repeated or new, keeps the invariant of the collection: the reports
-- of an epoch are of that epoch, verify, and stand under distinct authors; and every pending
-- aggregate has at least `2 f + 1` reports and is accepted by `AggregateReport::verify` for its epoch.
pub handle_state_report-IsCollected :
    (n : Node) (r : StateReport) (s : Core)
    → IsCollected n s
    → IsCollected n (handle_state_report n r s)
unfolding handle_state_report
handle_state_report-IsCollected n r s h = verdict_cases (verify_report n.dalek n.committee r) refl
  where
    verdict_cases :
        (v : DagResult (Unit {0}))
        → verify_report n.dalek n.committee r ≡ v
        → IsCollected n (handle_state_report n r s)
    verdict_cases (err e) refused = rw refused h
    verdict_cases (ok tt) fine =
        let kept = record_state_report-IsCollected n r s fine h in
        elim (Bool-cases (record_state_report r s).1) [
          | inl new ↦
              rw (handle_state_report, fine, new)
                (try_build_aggregate_report-IsCollected n r.epoch false _
                  (ensure_collection_timer-IsCollected n r.epoch _ kept))
          | inr again ↦ rw (handle_state_report, fine, again) kept
        ]
