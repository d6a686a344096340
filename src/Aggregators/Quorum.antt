-- ===== src/Aggregators/Quorum.antt =====
-- primary/src/aggregators.rs, `QCMaker`: its invariant, and what a call of `append` does.
use auto_pilot.Crypto.{Digest, PublicKey, Signature}
use auto_pilot.Config.Committee
use auto_pilot.Config.Committee.{Committee, Stake, add_u32}
use auto_pilot.Config.Stakes.{
  IsValid, full_stake, weight, weight-append, weight-le-full, total_votes-eq-full,
}
use auto_pilot.Config.Thresholds.{quorum_threshold_lem}
use auto_pilot.Messages.Errors.{DagError, DagResult}
use auto_pilot.Messages.Types.{Qc, Votes}
use auto_pilot.Aggregators.{QcMaker, append_qc, check_qc, count_vote, new_maker}
use auto_pilot.Prelude.{
  leb, leb→le, Bool-cases, nat_eq, pair_eq, contains, IsDistinct, IsDistinct-snoc, keys, ok, err,
  ◌+◌, ◌≤◌, ◌<◌, ◌≡◌, refl, ap, inl, inr, Bool, true, false, Option, none, some, [], ◌∷◌, ◌++◌,
  arith,
}

pub keys-snoc :
    (votes : Votes) (a : PublicKey) (s : Signature)
    → keys (votes ++ (a, s) ∷ []) ≡ keys votes ++ a ∷ []
keys-snoc [] a s = refl
keys-snoc ((k, x) ∷ votes) a s = ap (◌∷◌ k) (keys-snoc votes a s)

-- `spent` is the stake of the voters that an earlier certificate has used up.
pub record Inv (c : Committee) (m : QcMaker) (spent : Stake) : Type 0 where
  pub recorded : m.used ≡ keys m.votes
  pub distinct : IsDistinct (keys m.votes)
  pub balance : weight c (keys m.votes) ≡ spent + m.weight

pub new_maker-Inv : (c : Committee) → Inv c new_maker 0
unfolding new_maker weight
new_maker-Inv c = record { recorded = refl; distinct = tt; balance = refl }

-- A maker whose counted weight is that of its voters.
pub count_vote-Inv :
    (c : Committee) (m : QcMaker) (spent : Stake) (a : PublicKey) (s : Signature)
    → IsValid c
    → Inv c m spent
    → contains m.used a ≡ false
    → Inv c (count_vote m a s c) spent
unfolding count_vote weight
count_vote-Inv c m spent a s v i new =
    let names : keys (m.votes ++ (a, s) ∷ []) ≡ keys m.votes ++ a ∷ [] = keys-snoc m.votes a s in
    let fresh : contains (keys m.votes) a ≡ false = rw (i.recorded) at new in
    let more = IsDistinct-snoc (keys m.votes) a i.distinct fresh in
    record {
      recorded = rw (names, i.recorded);
      distinct = rw names more;
      balance = rw names (
          omega (
            arith,
            weight-append c (keys m.votes) (a ∷ []),
            i.balance,
            v.fits,
            weight-le-full c (keys m.votes ++ a ∷ []) v more,
          ));
    }

-- What a step that may emit a certificate leaves behind.
abbrev pub Emits : Committee → QcMaker → Stake → QcMaker × DagResult (Bool × Option Qc) → Type 0
Emits c m spent (m', ok (ready, some qc)) =
    (qc.votes ≡ m.votes)
    × (Committee.quorum_threshold c ≤ m.weight)
    × (ready ≡ true)
    × Inv c m' (weight c (keys m'.votes))
    × (m'.votes ≡ m.votes)
Emits c m spent (m', ok (ready, none)) = Inv c m' spent × (m'.votes ≡ m.votes)
Emits c m spent (m', err e) = ⊥

pub quorum-le-fast :
    (c : Committee)
    → IsValid c
    → 0 < full_stake c
    → Committee.quorum_threshold c ≤ Committee.fast_threshold c
unfolding Committee.fast_threshold
quorum-le-fast c v h = omega (arith, quorum_threshold_lem c v, total_votes-eq-full c v)

check_qc-Emits :
    (c : Committee) (m : QcMaker) (spent : Stake) (dig : Digest)
    → IsValid c
    → 0 < full_stake c
    → Inv c m spent
    → Emits c m spent (check_qc m dig c)
unfolding check_qc
check_qc-Emits c m spent dig v some_stake i =
    let quorum = quorum-le-fast c v some_stake in
    elim (Bool-cases m.try_fast) [
      | inl fast ↦ rw fast (elim (Bool-cases (leb (Committee.fast_threshold c) m.weight)) [
        | inl e ↦ rw e (
          refl,
          omega (arith, leb→le _ _ e),
          refl,
          record { recorded = i.recorded; distinct = i.distinct; balance = omega arith },
          refl,
        )
        | inr e ↦ rw e (elim (Bool-cases (leb (Committee.quorum_threshold c) m.weight)) [
          | inl q ↦
              rw q
                (record { recorded = i.recorded; distinct = i.distinct; balance = i.balance }, refl)
          | inr q ↦
              rw q
                (record { recorded = i.recorded; distinct = i.distinct; balance = i.balance }, refl)
        ])
      ])
      | inr slow ↦ rw slow (elim (Bool-cases (leb (Committee.quorum_threshold c) m.weight)) [
        | inl q ↦ rw q (
          refl,
          leb→le _ _ q,
          refl,
          record { recorded = i.recorded; distinct = i.distinct; balance = omega arith },
          refl,
        )
        | inr q ↦
            rw q
              (record { recorded = i.recorded; distinct = i.distinct; balance = i.balance }, refl)
      ])
    ]

-- A vote is refused if its author voted before, and changes nothing then.
pub append_qc_reuse :
    (c : Committee) (m : QcMaker) (a : PublicKey) (vote : Digest × Signature)
    → contains m.used a ≡ true
    → append_qc m a vote c ≡ (m, err (DagError.authority_reuse a))
unfolding append_qc
append_qc_reuse c m a vote h = rw h

pub append_qc-Emits :
    (c : Committee) (m : QcMaker) (spent : Stake) (a : PublicKey) (dig : Digest) (s : Signature)
    → IsValid c
    → 0 < full_stake c
    → Inv c m spent
    → contains m.used a ≡ false
    → Emits c (count_vote m a s c) spent (append_qc m a (dig, s) c)
unfolding append_qc
append_qc-Emits c m spent a dig s v pos i new =
    rw new
      (check_qc-Emits c (count_vote m a s c) spent dig v pos (count_vote-Inv c m spent a s v i new))
