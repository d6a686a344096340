-- ===== src/Messages/Reports.antt =====
-- primary/src/messages.rs: `StateReport` and `AggregateReport`.
use auto_pilot.Crypto.{Dalek, PublicKey, verify}
use auto_pilot.Config.Committee
use auto_pilot.Config.Committee.{Committee}
use auto_pilot.Messages.Errors.{DagError, DagResult}
use auto_pilot.Messages.Types.{StateReport, AggregateReport}
use auto_pilot.Messages.Digests.{report_digest}
use auto_pilot.Prelude.{
  leb, ◌==◌, if◌then◌else◌, nat_eq, pair_eq, contains, ◌>>◌, ensure, ok, err, ℕ, not, List, [], ◌∷◌,
}

abbrev pub author_of : StateReport → PublicKey
author_of r = r.author

-- `sort_by` on the author: the stable sort, by insertion.
unfoldable pub insert_report : StateReport → List StateReport → List StateReport
insert_report r [] = r ∷ []
insert_report r (s ∷ rs) =
    let rest = insert_report r rs in if leb r.author s.author then r ∷ s ∷ rs else s ∷ rest

unfoldable pub sort_reports : List StateReport → List StateReport
unfolding insert_report
sort_reports [] = []
sort_reports (r ∷ rs) = insert_report r (sort_reports rs)

-- `AggregateReport::new`.
unfoldable pub new_aggregate : ℕ → List StateReport → AggregateReport
unfolding sort_reports
new_aggregate epoch reports = record { epoch = epoch; reports = sort_reports reports }

module _ (d : Dalek) (c : Committee) where
  unfoldable pub verify_report : StateReport → DagResult (Unit {0})
  verify_report r =
      if Committee.stake c r.author == 0
      then err (DagError.unknown_authority r.author)
      else ensure (verify d r.signature (report_digest d r) r.author) DagError.invalid_signature

  -- The loop of `AggregateReport::verify`; `seen` is `seen_authors`.
  unfoldable pub verify_reports : ℕ → List PublicKey → List StateReport → DagResult (Unit {0})
  verify_reports epoch seen [] = ok tt
  verify_reports epoch seen (r ∷ rs) = do
    ensure (r.epoch == epoch) DagError.invalid_qc_ticket
    verify_report r
    ensure (not (contains seen r.author)) (DagError.authority_reuse r.author)
    verify_reports epoch (r.author ∷ seen) rs

  unfoldable pub verify_aggregate : AggregateReport → ℕ → DagResult (Unit {0})
  unfolding verify_reports
  verify_aggregate r expected_epoch =
      if r.epoch == expected_epoch
      then verify_reports r.epoch [] r.reports
      else err DagError.invalid_qc_ticket
