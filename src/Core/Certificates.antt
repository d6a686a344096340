-- ===== src/Core/Certificates.antt =====
-- primary/src/core.rs, `persist_coordination_certificate`: the coordination certificates written.
use mathlib.Core.List.{append_assoc}
use auto_pilot.Messages.Types.{View, Slot, Qc, AggregateReport}
use auto_pilot.Core.State.{Node, Core, Effect, write_coordination}
use auto_pilot.Core.Commits.{certify_report, persist_coordination_certificate}
use auto_pilot.Prelude.{
  ◌==◌, Bool-cases, Option-cases, nat_eq, pair_eq, contains, IsDistinct, contains-append,
  IsDistinct-snoc, lookup, ℕ, ◌≡◌, refl, sym, ap, ◌∙◌, inl, inr, true, false, ◌||◌, List, [], ◌∷◌,
  ◌++◌, arith,
}

abbrev written : Effect → List ℕ
written (write_coordination cc) = cc.epoch ∷ []
written _ = []

-- The epochs whose coordination certificate was written.
abbrev pub written_epochs : List Effect → List ℕ
written_epochs [] = []
written_epochs (e ∷ es) = written e ++ written_epochs es

-- No epoch was written twice, and those written are recorded as certified.
pub record IsCertifiedOnce (s : Core) : Type 0 where
  pub distinct : IsDistinct (written_epochs s.out)
  pub recorded :
      (epoch : ℕ)
      → contains (written_epochs s.out) epoch ≡ true
      → contains s.certified_aggregate_epochs epoch ≡ true

written_epochs-append :
    (es fs : List Effect) → written_epochs (es ++ fs) ≡ written_epochs es ++ written_epochs fs
written_epochs-append [] fs = refl
written_epochs-append (e ∷ es) fs =
    ap (λ l. written e ++ l) (written_epochs-append es fs)
    ∙ sym (append_assoc (written e) (written_epochs es) (written_epochs fs))

certify_report-IsCertifiedOnce :
    (n : Node) (slot : Slot) (view : View) (qc : Qc) (report : AggregateReport) (s : Core)
    → IsCertifiedOnce s
    → IsCertifiedOnce (certify_report n slot view qc report s)
unfolding certify_report
certify_report-IsCertifiedOnce n slot view qc report s h =
    elim (Bool-cases (contains s.certified_aggregate_epochs report.epoch)) [
      | inl done ↦ rw done h
      | inr new ↦
          let writes : written_epochs (certify_report n slot view qc report s).out
              ≡ written_epochs s.out ++ report.epoch ∷ [] =
            rw (certify_report, new) (written_epochs-append s.out _) in
          let unwritten : contains (written_epochs s.out) report.epoch ≡ false =
            elim (Bool-cases (contains (written_epochs s.out) report.epoch)) [
              | inl old ↦ absurd (let both = h.recorded report.epoch old in cc)
              | inr fresh ↦ fresh
            ] in
          record {
            distinct =
                rw writes
                  (IsDistinct-snoc (written_epochs s.out) report.epoch h.distinct unwritten);
            recorded = λ epoch there.
                let split : (contains (written_epochs s.out) epoch
                      || contains (report.epoch ∷ []) epoch)
                    ≡ true =
                  sym (contains-append (written_epochs s.out) (report.epoch ∷ []) epoch)
                  ∙ (ap (λ l. contains l epoch) (sym writes) ∙ there) in
                rw new (elim (Bool-cases (epoch == report.epoch)) [
                  | inl same ↦ rw same refl
                  | inr other ↦ rw other (h.recorded epoch (ground arith))
                ]);
          }
    ]

-- A Commit writes the coordination certificate of an epoch at most once: after it, as before it, no
-- epoch was written twice, and every written epoch is recorded as certified.
pub persist_coordination_certificate-IsCertifiedOnce :
    (n : Node) (slot : Slot) (view : View) (qc : Qc) (s : Core)
    → IsCertifiedOnce s
    → IsCertifiedOnce (persist_coordination_certificate n slot view qc s)
unfolding persist_coordination_certificate
persist_coordination_certificate-IsCertifiedOnce n slot view qc s h =
    elim (Option-cases (lookup {K = Slot × View} (slot, view) s.certifiable_aggregate_reports)) [
      | inl e ↦ rw (persist_coordination_certificate, e) h
      | inr (report, e) ↦
          rw (persist_coordination_certificate, e)
            (certify_report-IsCertifiedOnce n slot view qc report s h)
    ]
