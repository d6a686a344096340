-- ===== src/Aggregators/Once.antt =====
-- primary/src/aggregators.rs, `QCMaker::append`: the certificates made over a sequence of votes.
use auto_pilot.Crypto.{Digest, PublicKey, Signature, Dalek, verify_batch}
use auto_pilot.Config.Committee
use auto_pilot.Config.Committee.{Committee, Stake, add_u32}
use auto_pilot.Config.Stakes.{IsValid, full_stake, weight, weight-le-full}
use auto_pilot.Config.Thresholds.{quorum_threshold_lem}
use auto_pilot.Messages.Errors.{DagResult}
use auto_pilot.Messages.Types.{Qc}
use auto_pilot.Messages.Certificates.{verify_qc}
use auto_pilot.Messages.Voters.{HaveStake}
use auto_pilot.Messages.Quorums.{verify_qc_iff}
use auto_pilot.Aggregators.{QcMaker, append_qc, count_vote, new_maker}
use auto_pilot.Aggregators.Quorum.{Inv, Emits, count_vote-Inv, append_qc_reuse, append_qc-Emits}
use auto_pilot.Prelude.{
  Bool-cases, nat_eq, pair_eq, length, All, contains, IsDistinct, keys, ok, err, ◌≤◌, ◌<◌, ◌≡◌,
  refl, ◌↔◌, ◌⊎◌, inl, inr, Bool, true, Option, none, some, List, [], ◌∷◌, arith,
}

abbrev pub qc_in : DagResult (Bool × Option Qc) → Option Qc
qc_in (ok (_, found)) = found
qc_in (err _) = none

abbrev cons_some {ℓ} : {A : Type ℓ} → Option A → List A → List A
cons_some none xs = xs
cons_some (some x) xs = x ∷ xs

-- The certificates that a maker emits over a sequence of votes.
unfoldable pub emitted : QcMaker → List (PublicKey × Digest × Signature) → Committee → List Qc
emitted m [] c = []
emitted m ((a, dig, s) ∷ votes) c =
    let (m', result) = append_qc m a (dig, s) c in cons_some (qc_in result) (emitted m' votes c)

module _ (c : Committee) (v : IsValid c) (some_stake : 0 < full_stake c) where
  silent_step :
      (m : QcMaker) (spent : Stake) (r : QcMaker × DagResult (Bool × Option Qc))
      → Inv c m spent
      → Committee.quorum_threshold c ≤ spent
      → Emits c m spent r
      → (qc_in r.1 ≡ none) × Inv c r.0 spent
  silent_step m spent (m', ok (ready, some qc)) i q e = absurd (
      omega (
        arith,
        i.balance,
        e.1,
        weight-le-full c (keys m.votes) v i.distinct,
        quorum_threshold_lem c v,
      ))
  silent_step m spent (m', ok (ready, none)) i q e = (refl, e.0)
  silent_step m spent (m', err x) i q e = absurd e

  emitted_spent :
      (m : QcMaker) (spent : Stake) (votes : List (PublicKey × Digest × Signature))
      → Inv c m spent
      → Committee.quorum_threshold c ≤ spent
      → emitted m votes c ≡ []
  unfolding emitted
  emitted_spent m spent [] i q = refl
  emitted_spent m spent ((a, dig, s) ∷ votes) i q = elim (Bool-cases (contains m.used a)) [
    | inl old ↦ rw (append_qc_reuse c m a (dig, s) old) (emitted_spent m spent votes i q)
    | inr new ↦
        let (none_yet, kept) =
          silent_step (count_vote m a s c) spent (append_qc m a (dig, s) c)
            (count_vote-Inv c m spent a s v i new) q
            (append_qc-Emits c m spent a dig s v some_stake i new) in
        rw none_yet (emitted_spent (append_qc m a (dig, s) c).0 spent votes kept q)
  ]

  -- A certificate of distinct voters who reach the quorum threshold.
  abbrev HasQuorum : Qc → Type 0
  HasQuorum qc =
      IsDistinct (keys qc.votes) × (Committee.quorum_threshold c ≤ weight c (keys qc.votes))

  first_step :
      (m : QcMaker) (r : QcMaker × DagResult (Bool × Option Qc))
      → Inv c m 0
      → Emits c m 0 r
      → ((qc_in r.1 ≡ none) × Inv c r.0 0)
        ⊎ ((qc : Qc) × (qc_in r.1 ≡ some qc)
            × HasQuorum qc
            × (spent : Stake) × Inv c r.0 spent
            × (Committee.quorum_threshold c ≤ spent))
  first_step m (m', ok (ready, some qc)) i e =
      let enough : Committee.quorum_threshold c ≤ weight c (keys m.votes) =
        omega (arith, i.balance, e.1) in
      inr (qc, refl, rw (e.0) (i.distinct, enough), weight c (keys m'.votes), e.3, rw (e.4) enough)
  first_step m (m', ok (ready, none)) i e = inl (refl, e.0)
  first_step m (m', err x) i e = absurd e

  emitted_from :
      (m : QcMaker) (votes : List (PublicKey × Digest × Signature))
      → Inv c m 0
      → (length (emitted m votes c) ≤ 1) × All HasQuorum (emitted m votes c)
  unfolding emitted
  emitted_from m [] i = (omega arith, tt)
  emitted_from m ((a, dig, s) ∷ votes) i = elim (Bool-cases (contains m.used a)) [
    | inl old ↦ rw (append_qc_reuse c m a (dig, s) old) (emitted_from m votes i)
    | inr new ↦
        elim (first_step (count_vote m a s c) (append_qc m a (dig, s) c)
          (count_vote-Inv c m 0 a s v i new) (append_qc-Emits c m 0 a dig s v some_stake i new)) [
            | inl (none_yet, kept) ↦
                rw none_yet (emitted_from (append_qc m a (dig, s) c).0 votes kept)
            | inr (qc, found, good, spent, kept, q) ↦
                rw (found, emitted_spent (append_qc m a (dig, s) c).0 spent votes kept q)
                  (omega arith, (good, tt))
          ]
  ]

  -- Over any sequence of votes a new maker, on the fast path or not, emits at most one certificate,
  -- and that one has distinct voters whose stake reaches the quorum threshold.
  pub emitted_once :
      (fast : Bool) (votes : List (PublicKey × Digest × Signature))
      → (length (emitted (record new_maker { try_fast = fast }) votes c) ≤ 1)
        × All
            (λ (qc : Qc).
              IsDistinct (keys qc.votes)
              × (Committee.quorum_threshold c ≤ weight c (keys qc.votes)))
            (emitted (record new_maker { try_fast = fast }) votes c)
  unfolding new_maker weight
  emitted_once fast votes =
      emitted_from (record new_maker { try_fast = fast }) votes
        (record { recorded = refl; distinct = tt; balance = refl })

-- In a valid committee a certificate whose voters are distinct and reach the quorum threshold passes
-- `QC::verify` exactly if every voter has stake and the signatures verify: one voter with no stake
-- among them makes every primary refuse it.
pub emitted_verifies :
    (d : Dalek) (c : Committee) (qc : Qc)
    → IsValid c
    → IsDistinct (keys qc.votes)
    → Committee.quorum_threshold c ≤ weight c (keys qc.votes)
    → (verify_qc d c qc ≡ ok tt)
      ↔ (HaveStake c (keys qc.votes) × (verify_batch d qc.id qc.votes ≡ true))
emitted_verifies d c qc v distinct enough = (
  (λ h. let q = (verify_qc_iff d c qc v).0 h in (q.have_stake, q.signed)),
  (λ h.
      (verify_qc_iff d c qc v).1
        (record { distinct = distinct; have_stake = h.0; enough = enough; signed = h.1 })),
)
