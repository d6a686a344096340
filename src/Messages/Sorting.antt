-- ===== src/Messages/Sorting.antt =====
-- primary/src/messages.rs, `AggregateReport::new`: what its sort keeps.
use auto_pilot.Crypto.{PublicKey}
use auto_pilot.Messages.Types.{StateReport}
use auto_pilot.Messages.Reports.{author_of, insert_report, sort_reports}
use auto_pilot.Prelude.{
  leb, ◌==◌, Bool-cases, nat_eq, pair_eq, length, All, contains, IsDistinct, suc, ◌≡◌, refl, ap,
  ◌∙◌, inl, inr, false, ◌||◌, List, [], ◌∷◌, map, arith,
}

module _ (P : StateReport → Type 0) where
  All-insert_report :
      (r : StateReport) (rs : List StateReport) → P r → All P rs → All P (insert_report r rs)
  unfolding insert_report
  All-insert_report r [] p h = (p, tt)
  All-insert_report r (s ∷ rs) p h = elim (Bool-cases (leb r.author s.author)) [
    | inl low ↦ rw low (p, h)
    | inr high ↦ rw high (h.0, All-insert_report r rs p h.1)
  ]

  pub All-sort_reports : (rs : List StateReport) → All P rs → All P (sort_reports rs)
  unfolding sort_reports
  All-sort_reports [] h = tt
  All-sort_reports (r ∷ rs) h = All-insert_report r (sort_reports rs) h.0 (All-sort_reports rs h.1)

contains-insert_report :
    (r : StateReport) (rs : List StateReport) (k : PublicKey)
    → contains (map author_of (insert_report r rs)) k
      ≡ ((k == r.author) || contains (map author_of rs) k)
unfolding insert_report
contains-insert_report r [] k = refl
contains-insert_report r (s ∷ rs) k = ground (arith, contains-insert_report r rs k)

IsDistinct-insert_report :
    (r : StateReport) (rs : List StateReport)
    → contains (map author_of rs) r.author ≡ false
    → IsDistinct (map author_of rs)
    → IsDistinct (map author_of (insert_report r rs))
unfolding insert_report
IsDistinct-insert_report r [] new h = (refl, tt)
IsDistinct-insert_report r (s ∷ rs) new h = elim (Bool-cases (leb r.author s.author)) [
  | inl low ↦ rw low (new, h)
  | inr high ↦ rw high (
    ground (arith, contains-insert_report r rs s.author),
    IsDistinct-insert_report r rs (ground arith) h.1,
  )
]

contains-sort_reports :
    (rs : List StateReport) (k : PublicKey)
    → contains (map author_of (sort_reports rs)) k ≡ contains (map author_of rs) k
unfolding sort_reports
contains-sort_reports [] k = refl
contains-sort_reports (r ∷ rs) k =
    contains-insert_report r (sort_reports rs) k
    ∙ ap (λ b. (k == r.author) || b) (contains-sort_reports rs k)

pub IsDistinct-sort_reports :
    (rs : List StateReport)
    → IsDistinct (map author_of rs)
    → IsDistinct (map author_of (sort_reports rs))
unfolding sort_reports
IsDistinct-sort_reports [] h = tt
IsDistinct-sort_reports (r ∷ rs) h =
    IsDistinct-insert_report r (sort_reports rs) (contains-sort_reports rs r.author ∙ h.0)
      (IsDistinct-sort_reports rs h.1)

length-insert_report :
    (r : StateReport) (rs : List StateReport) → length (insert_report r rs) ≡ suc (length rs)
unfolding insert_report
length-insert_report r [] = refl
length-insert_report r (s ∷ rs) = ground (arith, length-insert_report r rs)

pub length-sort_reports : (rs : List StateReport) → length (sort_reports rs) ≡ length rs
unfolding sort_reports
length-sort_reports [] = refl
length-sort_reports (r ∷ rs) =
    length-insert_report r (sort_reports rs) ∙ ap suc (length-sort_reports rs)
