-- ===== src/Aggregators/Cars.antt =====
-- primary/src/aggregators.rs, `VotesAggregator`: the dissemination certificate of a header.
use auto_pilot.Prelude.{
  leb, lt→leb_false, leb→le, Bool-cases, nat_eq, pair_eq, contains, IsDistinct, IsDistinct-snoc,
  snoc_congr, keys, ok, err, ◌≤◌, ◌<◌, ◌≡◌, refl, inl, inr, Bool, true, false, not, ◌&&◌, Option,
  none, some, [], ◌∷◌, ◌++◌, arith,
}
use auto_pilot.Crypto.{PublicKey, Dalek}
use auto_pilot.Config.Committee
use auto_pilot.Config.Committee.{Committee, Stake, add_u32}
use auto_pilot.Config.Stakes.{
  IsValid, masked, weight, weight-append, weight-le-full, weight-eq-masked,
}
use auto_pilot.Config.Thresholds.{honest_member}
use auto_pilot.Messages.Errors.{DagError}
use auto_pilot.Messages.Types.{Vote, Certificate}
use auto_pilot.Messages.Certificates.{
  dag_refusals, verify_certificate, any_certificate, genesis_certificates,
}
use auto_pilot.Messages.Voters.{HaveStake, ok-add_voters}
use auto_pilot.Aggregators.{VotesAggregator, append_vote, new_votes}
use auto_pilot.Aggregators.Quorum.{keys-snoc}

-- A certificate of distinct voters who reach the validity threshold.
abbrev pub IsAvailable : Committee → Certificate → Type 0
IsAvailable c x =
    IsDistinct (keys x.votes) × (Committee.validity_threshold c ≤ weight c (keys x.votes))

abbrev pub CertIsAvailable : Committee → Option Certificate → Type 0
CertIsAvailable c none = ⊥
CertIsAvailable c (some x) = IsAvailable c x

pub record Inv (c : Committee) (m : VotesAggregator) : Type 0 where
  pub recorded : m.used ≡ keys m.votes
  pub distinct : IsDistinct (keys m.votes)
  pub balance : weight c (keys m.votes) ≡ m.dissemination_weight
  pub pending : m.complete ≡ false → m.diss_cert ≡ none
  pub done : m.complete ≡ true → CertIsAvailable c m.diss_cert

-- The new aggregator satisfies the invariant.
pub new_votes-Inv : (c : Committee) → Inv c new_votes
unfolding new_votes weight
new_votes-Inv c = record {
  recorded = refl;
  distinct = tt;
  balance = refl;
  pending = λ _. refl;
  done = λ h. cc;
}

-- In a valid committee every vote, accepted or refused, keeps the invariant: the voters are distinct,
-- the weight is their stake, there is no certificate before the aggregator is complete, and after
-- that there is one, of distinct voters who reach the validity threshold.
pub append_vote-Inv :
    (c : Committee) (m : VotesAggregator) (vote : Vote)
    → IsValid c
    → Inv c m
    → Inv c (append_vote m vote c).0
unfolding append_vote weight
append_vote-Inv c m vote v i = elim (Bool-cases m.complete) [
  | inl e ↦ simp (e) i
  | inr e ↦ elim (Bool-cases (contains m.used vote.author)) [
    | inl old ↦ simp (e, old) i
    | inr new ↦
        let names = keys-snoc m.votes vote.author vote.signature in
        let fresh : contains (keys m.votes) vote.author ≡ false = rw (i.recorded) at new in
        let more = IsDistinct-snoc (keys m.votes) vote.author i.distinct fresh in
        let sum : weight c (keys m.votes ++ vote.author ∷ [])
            ≡ add_u32 m.dissemination_weight (Committee.stake c vote.author) =
          omega (
            arith,
            weight-append c (keys m.votes) (vote.author ∷ []),
            i.balance,
            v.fits,
            weight-le-full c (keys m.votes ++ vote.author ∷ []) v more,
          ) in
        elim (Bool-cases (
          leb (Committee.validity_threshold c)
            (add_u32 m.dissemination_weight (Committee.stake c vote.author)))) [
              | inl q ↦
                  simp (e, new, q)
                    (record {
                      recorded = snoc_congr vote.author names i.recorded;
                      distinct = rw names more;
                      balance = rw names sum;
                      pending = λ h. cc;
                      done = λ _.
                          rw (i.pending e)
                            (rw names more, rw names (omega (arith, sum, leb→le _ _ q)));
                    })
              | inr q ↦
                  simp (e, new, q)
                    (record {
                      recorded = snoc_congr vote.author names i.recorded;
                      distinct = rw names more;
                      balance = rw names sum;
                      pending = λ _. i.pending e;
                      done = λ h. cc;
                    })
            ]
  ]
]

-- What `append` reports: the certificate is ready exactly if the aggregator is complete after the
-- call, and `first` is set exactly if this call completed it.
pub append_vote_flags :
    (c : Committee) (m : VotesAggregator) (vote : Vote) (ready first : Bool)
    → (append_vote m vote c).1 ≡ ok (ready, first)
    → (ready ≡ (append_vote m vote c).0.complete)
      × (first ≡ ((append_vote m vote c).0.complete && not m.complete))
unfolding append_vote
append_vote_flags c m vote ready first h = ground arith

-- The voters of an available certificate include one that passes `honest`, where the authorities
-- that fail it have less stake than the validity threshold.
IsAvailable-honest :
    (c : Committee) (honest : PublicKey → Bool) (x : Certificate)
    → IsValid c
    → masked (λ k. not (honest k)) c.authorities < Committee.validity_threshold c
    → IsAvailable c x
    → (k : PublicKey) × (contains (keys x.votes) k ≡ true) × (honest k ≡ true)
IsAvailable-honest c honest x v few h =
    honest_member c honest (contains (keys x.votes)) few
      (omega (arith, h.1, weight-eq-masked c (keys x.votes) v.distinct h.0))

-- `Certificate::verify` asks for a quorum where the aggregator asks for the validity threshold: an
-- available certificate of staked voters below the quorum threshold, other than a genesis
-- certificate, is refused with `CertificateRequiresQuorum`.
pub verify_certificate_small :
    (d : Dalek) (c : Committee) (x : Certificate)
    → IsValid c
    → IsAvailable c x
    → HaveStake c (keys x.votes)
    → weight c (keys x.votes) < Committee.quorum_threshold c
    → any_certificate d c x (genesis_certificates d c) ≡ false
    → verify_certificate d c x ≡ err DagError.certificate_requires_quorum
unfolding verify_certificate
verify_certificate_small d c x v h have few other =
    rw (other, ok-add_voters dag_refusals c (keys x.votes) v h.0 have, lt→leb_false _ _ few)
