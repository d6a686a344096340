-- ===== src/Messages/Quorums.antt =====
-- primary/src/messages.rs: certificates that are verified.
use auto_pilot.Crypto.{PublicKey, Dalek, verify_batch}
use auto_pilot.Config.Committee
use auto_pilot.Config.Committee.{Committee}
use auto_pilot.Config.Stakes.{IsValid, masked, weight}
use auto_pilot.Config.Thresholds.{both, quorum_overlap, quorum_overlap_honest}
use auto_pilot.Messages.Types.{View, Slot, Proposals, Qc, AggregateReport, Tc, confirm, commit}
use auto_pilot.Messages.Digests.{prepare_digest}
use auto_pilot.Messages.Voters.{HaveStake, add_voters, add_voters-ok, ok-add_voters}
use auto_pilot.Messages.Certificates.{consensus_refusals, verify_qc, verify_tc}
use auto_pilot.Messages.Verify.{verify_confirm, verify_commit}
use auto_pilot.Prelude.{
  le→leb, nat_eq, pair_eq, contains, IsDistinct, keys, is_ok, Result, ok, err, ℕ, ◌≤◌, ◌<◌, ◌≡◌,
  refl, ◌↔◌, Bool, true, not, Option, [], arith,
}

-- What a QC has to satisfy.
pub record IsQuorum (d : Dalek) (c : Committee) (qc : Qc) : Type 0 where
  pub distinct : IsDistinct (keys qc.votes)
  pub have_stake : HaveStake c (keys qc.votes)
  pub enough : Committee.quorum_threshold c ≤ weight c (keys qc.votes)
  pub signed : verify_batch d qc.id qc.votes ≡ true

verify_qc_cases :
    (d : Dalek) (c : Committee) (qc : Qc)
    → verify_qc d c qc ≡ ok tt
    → (w : ℕ) × (add_voters consensus_refusals c [] 0 (keys qc.votes) ≡ ok w)
      × (Committee.quorum_threshold c ≤ w)
      × (verify_batch d qc.id qc.votes ≡ true)
unfolding verify_qc
verify_qc_cases d c qc h = ground arith

pub verify_qc_iff :
    (d : Dalek) (c : Committee) (qc : Qc) → IsValid c → (verify_qc d c qc ≡ ok tt) ↔ IsQuorum d c qc
unfolding verify_qc
verify_qc_iff d c qc v = (sound, complete)
  where
    sound : verify_qc d c qc ≡ ok tt → IsQuorum d c qc
    sound h =
        let (w, run, enough, signed) = verify_qc_cases d c qc h in
        let (distinct, have, sum) = add_voters-ok consensus_refusals c (keys qc.votes) v run in
        record { distinct = distinct; have_stake = have; enough = omega arith; signed = signed }

    complete : IsQuorum d c qc → verify_qc d c qc ≡ ok tt
    complete q = rw (
      ok-add_voters consensus_refusals c (keys qc.votes) v q.distinct q.have_stake,
      le→leb _ _ q.enough,
      q.signed,
    )

-- Any two QCs that `QC::verify` accepts share voters whose stake reaches the validity threshold.
pub verify_qc-overlap :
    (d : Dalek) (c : Committee) (a b : Qc)
    → IsValid c
    → verify_qc d c a ≡ ok tt
    → verify_qc d c b ≡ ok tt
    → Committee.validity_threshold c ≤ masked (both (keys a.votes) (keys b.votes)) c.authorities
verify_qc-overlap d c a b v ha hb =
    let qa = (verify_qc_iff d c a v).0 ha in
    let qb = (verify_qc_iff d c b v).0 hb in
    quorum_overlap c (keys a.votes) (keys b.votes) v qa.distinct qb.distinct qa.enough qb.enough

is_ok-eq : {E : Type 0} (r : Result E (Unit {0})) → is_ok r ≡ true → r ≡ ok tt
is_ok-eq (ok tt) h = refl
is_ok-eq (err e) h = cc

-- Two Confirm messages of one slot and view that `verify_confirm` accepts, with PrepareQCs for
-- different digests, name an authority that voted for both digests and that passes `honest`, where
-- the authorities that fail it have less stake than the validity threshold.
pub confirm_conflict_honest :
    (d : Dalek) (c : Committee) (honest : PublicKey → Bool) (slot : Slot) (view : View) (a b : Qc)
    (p q : Proposals) (r s : Option AggregateReport)
    → IsValid c
    → masked (λ k. not (honest k)) c.authorities < Committee.validity_threshold c
    → verify_confirm d c (confirm slot view a p r) ≡ true
    → verify_confirm d c (confirm slot view b q s) ≡ true
    → (k : PublicKey) × (contains (keys a.votes) k ≡ true)
      × (contains (keys b.votes) k ≡ true)
      × (honest k ≡ true)
      × (a.id ≡ prepare_digest d slot view r)
      × (b.id ≡ prepare_digest d slot view s)
unfolding verify_confirm
confirm_conflict_honest d c honest slot view a b p q r s v few ha hb =
    let qa = (verify_qc_iff d c a v).0 (is_ok-eq (verify_qc d c a) (ground arith)) in
    let qb = (verify_qc_iff d c b v).0 (is_ok-eq (verify_qc d c b) (ground arith)) in
    let (k, ina, inb, h) =
      quorum_overlap_honest c honest (keys a.votes) (keys b.votes) v few qa.distinct qb.distinct
        qa.enough qb.enough in
    (k, ina, inb, h, ground arith, ground arith)

-- `TC::verify` accepts every timeout certificate, also one with no timeout at all: the comparison
-- with the genesis certificate, which comes first, is always true.
pub verify_tc_accepts_all : (d : Dalek) (c : Committee) (tc : Tc) → verify_tc d c tc ≡ ok tt
unfolding verify_tc
verify_tc_accepts_all d c tc = refl

-- `verify_commit` does not depend on the proposals of the Commit: with the slot, view, certificate
-- and report kept, any other proposals are accepted as well, or refused as well.
pub verify_commit_ignores_proposals :
    (d : Dalek) (c : Committee) (slot : Slot) (view : View) (qc : Qc) (p q : Proposals)
    (r : Option AggregateReport)
    → verify_commit d c (commit slot view qc p r) ≡ verify_commit d c (commit slot view qc q r)
unfolding verify_commit
verify_commit_ignores_proposals d c slot view qc p q r = refl
