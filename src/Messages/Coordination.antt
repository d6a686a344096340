-- ===== src/Messages/Coordination.antt =====
-- primary/src/messages.rs: `AggregateReport::verify` and `AggregateReport::new`.
use mathlib.Core.List.{Permᴰ}
use auto_pilot.Crypto.{Dalek, PublicKey}
use auto_pilot.Config.Committee.{Committee}
use auto_pilot.Messages.Types.{StateReport, AggregateReport}
use auto_pilot.Messages.Reports.{
  author_of, insert_report, sort_reports, new_aggregate, verify_report, verify_reports,
  verify_aggregate,
}
use auto_pilot.Messages.Voters.{AreNew, AreNew-cons, cons-AreNew, AreNew-nil}
use auto_pilot.Prelude.{
  ◌==◌, ==_iff, nat_eq, pair_eq, All, contains, IsDistinct, ok, ℕ, ◌≡◌, refl, sym, ap, ◌∙◌, ◌≢◌,
  ◌↔◌, false, ◌||◌, List, [], ◌∷◌, map, arith,
}

insert_report_comm :
    (a b : StateReport) (rs : List StateReport)
    → a.author ≢ b.author
    → insert_report a (insert_report b rs) ≡ insert_report b (insert_report a rs)
unfolding insert_report
insert_report_comm a b [] h = ground arith
insert_report_comm a b (r ∷ rs) h = ground (arith, insert_report_comm a b rs h)

-- The reports are of one epoch, verify, and have distinct authors.
pub record IsCoordinated (d : Dalek) (c : Committee) (r : AggregateReport) : Type 0 where
  pub one_epoch : All (λ (x : StateReport). x.epoch ≡ r.epoch) r.reports
  pub verified : All (λ x. verify_report d c x ≡ ok tt) r.reports
  pub distinct : IsDistinct (map author_of r.reports)

module _ (d : Dalek) (c : Committee) where
  verify_reports_step :
      (epoch : ℕ) (seen : List PublicKey) (r : StateReport) (rs : List StateReport)
      → verify_reports d c epoch seen (r ∷ rs) ≡ ok tt
      → (r.epoch ≡ epoch)
        × (verify_report d c r ≡ ok tt)
        × (contains seen r.author ≡ false)
        × (verify_reports d c epoch (r.author ∷ seen) rs ≡ ok tt)
  unfolding verify_reports
  verify_reports_step epoch seen r rs h = ground arith

  verify_reports_sound :
      (epoch : ℕ) (seen : List PublicKey) (rs : List StateReport)
      → verify_reports d c epoch seen rs ≡ ok tt
      → All (λ (x : StateReport). x.epoch ≡ epoch) rs
        × All (λ x. verify_report d c x ≡ ok tt) rs
        × AreNew seen (map author_of rs)
        × IsDistinct (map author_of rs)
  verify_reports_sound epoch seen [] h = (tt, tt, tt, tt)
  verify_reports_sound epoch seen (r ∷ rs) h =
      let (e, v, new, rest) = verify_reports_step epoch seen r rs h in
      let (es, vs, fresh, distinct) = verify_reports_sound epoch (r.author ∷ seen) rs rest in
      let (old, absent) = AreNew-cons seen r.author (map author_of rs) fresh in
      ((e, es), (v, vs), (new, old), (absent, distinct))

  verify_reports_complete :
      (epoch : ℕ) (seen : List PublicKey) (rs : List StateReport)
      → All (λ (x : StateReport). x.epoch ≡ epoch) rs
      → All (λ x. verify_report d c x ≡ ok tt) rs
      → AreNew seen (map author_of rs)
      → IsDistinct (map author_of rs)
      → verify_reports d c epoch seen rs ≡ ok tt
  unfolding verify_reports
  verify_reports_complete epoch seen [] e v n u = refl
  verify_reports_complete epoch seen (r ∷ rs) e v n u =
      rw ((==_iff r.epoch epoch).1 e.0, v.0, n.0)
        (verify_reports_complete epoch (r.author ∷ seen) rs e.1 v.1
          (cons-AreNew seen r.author (map author_of rs) n.1 u.0) u.1)

  -- `AggregateReport::verify` accepts a report exactly if its epoch is the expected one, its state
  -- reports are of that epoch, each verifies, and no author stands twice.
  pub verify_aggregate_iff :
      (r : AggregateReport) (expected : ℕ)
      → (verify_aggregate d c r expected ≡ ok tt) ↔ ((r.epoch ≡ expected) × IsCoordinated d c r)
  unfolding verify_aggregate
  verify_aggregate_iff r expected = (sound, complete)
    where
      sound : verify_aggregate d c r expected ≡ ok tt → (r.epoch ≡ expected) × IsCoordinated d c r
      sound h =
          let e : r.epoch ≡ expected = ground arith in
          let run : verify_reports d c r.epoch [] r.reports ≡ ok tt = ground arith in
          let (es, vs, _, distinct) = verify_reports_sound r.epoch [] r.reports run in
          (e, record { one_epoch = es; verified = vs; distinct = distinct })

      complete :
          (r.epoch ≡ expected) × IsCoordinated d c r → verify_aggregate d c r expected ≡ ok tt
      complete (e, q) = rw ((==_iff r.epoch expected).1 e) (
          verify_reports_complete r.epoch [] r.reports q.one_epoch q.verified
            (AreNew-nil (map author_of r.reports)) q.distinct)

abbrev authors : List StateReport → List PublicKey
authors = map author_of

contains-perm :
    {xs ys : List StateReport} (k : PublicKey)
    → Permᴰ xs ys
    → contains (authors xs) k ≡ contains (authors ys) k
contains-perm k Permᴰ.nil = refl
contains-perm k (Permᴰ.cons {a = a} {b = b} e p) =
    rw e (ap (λ t. (k == b.author) || t) (contains-perm k p))
contains-perm k (Permᴰ.swap {a = a} {b = b} e f) = rw (e, f) (ground arith)
contains-perm k (Permᴰ.trans p q) = contains-perm k p ∙ contains-perm k q

IsDistinct-perm :
    {xs ys : List StateReport} → Permᴰ xs ys → IsDistinct (authors xs) → IsDistinct (authors ys)
IsDistinct-perm Permᴰ.nil h = tt
IsDistinct-perm (Permᴰ.cons {a = a} {b = b} e p) h =
    (rw (← e) (sym (contains-perm a.author p) ∙ h.0), IsDistinct-perm p h.1)
IsDistinct-perm (Permᴰ.swap {a = a} {b = b} e f) h = rw (← e, ← f) (ground arith)
IsDistinct-perm (Permᴰ.trans p q) h = IsDistinct-perm q (IsDistinct-perm p h)

sort_reports-perm :
    {xs ys : List StateReport}
    → Permᴰ xs ys
    → IsDistinct (authors xs)
    → sort_reports xs ≡ sort_reports ys
unfolding sort_reports
sort_reports-perm Permᴰ.nil h = refl
sort_reports-perm (Permᴰ.cons {a = a} {b = b} e p) h = rw (e, sort_reports-perm p h.1)
sort_reports-perm (Permᴰ.swap {a = a} {b = b} {l = l} e f) h =
    rw (← e, ← f) (insert_report_comm a b (sort_reports l) (ground arith))
sort_reports-perm (Permᴰ.trans p q) h =
    sort_reports-perm p h ∙ sort_reports-perm q (IsDistinct-perm p h)

-- For reports of distinct authors, `AggregateReport::new` builds one and the same report, whatever
-- the order in which the map of reports lists them.
pub new_aggregate-perm :
    (epoch : ℕ) (xs ys : List StateReport)
    → Permᴰ xs ys
    → IsDistinct (map author_of xs)
    → new_aggregate epoch xs ≡ new_aggregate epoch ys
unfolding new_aggregate
new_aggregate-perm epoch xs ys p h = rw (sort_reports-perm p h)
