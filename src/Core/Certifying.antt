-- ===== src/Core/Certifying.antt =====
-- primary/src/core.rs, `process_consensus_vote`: what the primary sends for a certificate, and the
-- invariant of its certificate makers.
use auto_pilot.Crypto.{Digest, PublicKey, Signature, default, verify}
use auto_pilot.Config.Committee
use auto_pilot.Config.Committee.{Committee, Stake}
use auto_pilot.Config.Stakes.{IsValid, full_stake, weight, weight-append}
use auto_pilot.Messages.Errors.{DagResult}
use auto_pilot.Messages.Types.{Qc, ConsensusMessage, prepare, confirm, commit}
use auto_pilot.Aggregators.{QcMaker, new_maker, check_qc, count_vote, get_qc}
use auto_pilot.Aggregators.Quorum.{Inv, new_maker-Inv, count_vote-Inv, quorum-le-fast, keys-snoc}
use auto_pilot.Core.State.{Node, Core}
use auto_pilot.Core.Tally.{set_try_fast, tally}
use auto_pilot.Prelude.{
  leb, ◌==◌, leb→le, Bool-cases, nat_eq, pair_eq, All, contains, IsDistinct, keys, ok, ◌≤◌, ◌<◌,
  ◌≡◌, refl, sym, ◌⊎◌, inl, inr, Bool, true, false, Option, none, some, List, [], ◌∷◌, ◌++◌, arith,
}

-- The voter is the primary itself, whose vote is not checked, or the signature verifies.
abbrev pub IsSigned : Node → Digest → PublicKey × Signature → Type 0
IsSigned n dig (pk, sig) = (pk ≡ n.name) ⊎ (verify n.dalek sig dig pk ≡ true)

-- A maker for the digest `dig`.
pub record Sound (n : Node) (dig : Digest) (m : QcMaker) : Type 0 where
  pub spent : Stake
  pub inv : Inv n.committee m spent
  pub signed : All (IsSigned n dig) m.votes
  -- a slow certificate that waits for the fast one
  pub slow :
      (m.qc_dig ≡ default)
      ⊎ ((m.qc_dig ≡ dig)
          × (Committee.quorum_threshold n.committee ≤ weight n.committee (keys m.votes)))

-- A certificate for the digest `dig`: distinct voters, a quorum, and enough for the fast path if it
-- is a fast one.
pub record Certified (n : Node) (dig : Digest) (fast : Bool) (qc : Qc) : Type 0 where
  pub id : qc.id ≡ dig
  pub distinct : IsDistinct (keys qc.votes)
  pub enough : Committee.quorum_threshold n.committee ≤ weight n.committee (keys qc.votes)
  pub full : fast ≡ true → Committee.fast_threshold n.committee ≤ weight n.committee (keys qc.votes)
  pub signed : All (IsSigned n dig) qc.votes

-- The answer of a maker to a vote.
pub record Answers (n : Node) (dig : Digest) (r : QcMaker × DagResult (Bool × Option Qc))
    : Type 0 where
  pub sound : Sound n dig r.0
  pub certified : (qc : Qc) → r.1 ≡ ok (true, some qc) → Certified n dig r.0.try_fast qc

All-snoc :
    {A : Type 0} (P : A → Type 0) (xs : List A) (a : A) → All P xs → P a → All P (xs ++ a ∷ [])
All-snoc P [] a h p = (p, tt)
All-snoc P (x ∷ xs) a h p = (h.0, All-snoc P xs a h.1 p)

module _ (n : Node) (dig : Digest) (v : IsValid n.committee)
    (pos : 0 < full_stake n.committee) where
  -- A maker that has made a certificate of all its voters.
  spend-Sound :
      (m m' : QcMaker)
      → Sound n dig m
      → m'.used ≡ m.used
      → m'.votes ≡ m.votes
      → m'.weight ≡ 0
      → m'.qc_dig ≡ m.qc_dig
      → Sound n dig m'
  spend-Sound m m' h used votes weightless same = record {
    spent = weight n.committee (keys m.votes);
    inv = record {
      recorded = rw (used, votes) (h.inv.recorded);
      distinct = rw votes (h.inv.distinct);
      balance = rw (votes, weightless) (omega arith);
    };
    signed = rw votes (h.signed);
    slow = rw (same, votes) (h.slow);
  }

  -- A maker that differs in its flags only.
  pub flags-Sound :
      (m m' : QcMaker)
      → Sound n dig m
      → m'.used ≡ m.used
      → m'.votes ≡ m.votes
      → m'.weight ≡ m.weight
      → m'.qc_dig ≡ m.qc_dig
      → Sound n dig m'
  flags-Sound m m' h used votes weighs same = record {
    spent = h.spent;
    inv = record {
      recorded = rw (used, votes) (h.inv.recorded);
      distinct = rw votes (h.inv.distinct);
      balance = rw (votes, weighs) (h.inv.balance);
    };
    signed = rw votes (h.signed);
    slow = rw (same, votes) (h.slow);
  }

  -- The certificate of all the voters of a maker.
  all-Certified :
      (m : QcMaker) (fast : Bool)
      → Sound n dig m
      → Committee.quorum_threshold n.committee ≤ weight n.committee (keys m.votes)
      → (fast ≡ true → Committee.fast_threshold n.committee ≤ weight n.committee (keys m.votes))
      → Certified n dig fast (record { id = dig; votes = m.votes })
  all-Certified m fast h enough full = record {
    id = refl;
    distinct = h.inv.distinct;
    enough = enough;
    full = full;
    signed = h.signed;
  }

  silent-Answers : (m : QcMaker) (b : Bool) → Sound n dig m → Answers n dig (m, ok (b, none))
  silent-Answers m b h = record { sound = h; certified = λ qc e. absurd (ground arith) }

  emits-Answers :
      (m' : QcMaker) (qc : Qc)
      → Sound n dig m'
      → Certified n dig m'.try_fast qc
      → Answers n dig (m', ok (true, some qc))
  emits-Answers m' qc h cert = record {
    sound = h;
    certified = λ qc' e. let same : qc ≡ qc' = cc in rw (sym same) cert;
  }

  pub new_maker-Sound : Sound n dig new_maker
  unfolding new_maker
  new_maker-Sound = record {
    spent = 0;
    inv = new_maker-Inv n.committee;
    signed = tt;
    slow = inl refl;
  }

  pub set_try_fast-Sound :
      (s : Core) (inst : ConsensusMessage) (m : QcMaker)
      → Sound n dig m
      → Sound n dig (set_try_fast s inst m)
  unfolding set_try_fast
  set_try_fast-Sound s (prepare _ _ _ _ _ _) m h = flags-Sound m _ h refl refl refl refl
  set_try_fast-Sound s (confirm _ _ _ _ _) m h = flags-Sound m _ h refl refl refl refl
  set_try_fast-Sound s (commit _ _ _ _ _) m h = flags-Sound m _ h refl refl refl refl

  check_qc-Answers : (m : QcMaker) → Sound n dig m → Answers n dig (check_qc m dig n.committee)
  unfolding check_qc
  check_qc-Answers m h =
      let c = n.committee in
      let some_weight : m.weight ≤ weight c (keys m.votes) = omega (arith, h.inv.balance) in
      elim (Bool-cases m.try_fast) [
        | inl fast ↦ rw fast (elim (Bool-cases (leb (Committee.fast_threshold c) m.weight)) [
          | inl e ↦ rw e (
              emits-Answers _ _ (spend-Sound m _ h refl refl refl refl) (
                all-Certified m true h (omega (arith, leb→le _ _ e, quorum-le-fast c v pos))
                  (λ _. omega (arith, leb→le _ _ e))))
          | inr e ↦ rw e (elim (Bool-cases (leb (Committee.quorum_threshold c) m.weight)) [
            | inl q ↦ rw q (
                silent-Answers _ m.first (record {
                  spent = h.spent;
                  inv = record {
                    recorded = h.inv.recorded;
                    distinct = h.inv.distinct;
                    balance = h.inv.balance;
                  };
                  signed = h.signed;
                  slow = inr (refl, omega (arith, leb→le _ _ q));
                }))
            | inr q ↦ rw q (silent-Answers _ false (flags-Sound m _ h refl refl refl refl))
          ])
        ])
        | inr slow ↦ rw slow (elim (Bool-cases (leb (Committee.quorum_threshold c) m.weight)) [
          | inl q ↦ rw q (
              emits-Answers _ _ (spend-Sound m _ h refl refl refl refl) (
                all-Certified m false h (omega (arith, leb→le _ _ q))
                  (λ bad. absurd (ground arith))))
          | inr q ↦ rw q (silent-Answers _ false (flags-Sound m _ h refl refl refl refl))
        ])
      ]

  count_vote-Sound :
      (m : QcMaker) (a : PublicKey) (s : Signature)
      → Sound n dig m
      → IsSigned n dig (a, s)
      → contains m.used a ≡ false
      → Sound n dig (count_vote m a s n.committee)
  unfolding count_vote
  count_vote-Sound m a s h signed fresh =
      let c = n.committee in
      let names : keys (m.votes ++ (a, s) ∷ []) ≡ keys m.votes ++ a ∷ [] = keys-snoc m.votes a s in
      record {
        spent = h.spent;
        inv = count_vote-Inv c m h.spent a s v h.inv fresh;
        signed = All-snoc (IsSigned n dig) m.votes (a, s) h.signed signed;
        slow = elim (h.slow) [
          | inl none_yet ↦ inl none_yet
          | inr (here, enough) ↦
              inr (here, rw names (omega (arith, weight-append c (keys m.votes) (a ∷ []))))
        ];
      }

  get_qc-Answers : (m : QcMaker) → m.try_fast ≡ false → Sound n dig m → Answers n dig (m, get_qc m)
  unfolding get_qc
  get_qc-Answers m slow h = elim (Bool-cases m.completed_fast) [
    | inl e ↦ rw e (silent-Answers _ false (flags-Sound m _ h refl refl refl refl))
    | inr e ↦ rw e (elim (Bool-cases (m.qc_dig == default)) [
      | inl z ↦ rw z (record {
        sound = flags-Sound m _ h refl refl refl refl;
        certified = λ qc bad. absurd (ground arith);
      })
      | inr z ↦ rw z (elim (h.slow) [
        | inl unset ↦ absurd (ground arith)
        | inr (here, enough) ↦ emits-Answers _ _ (flags-Sound m _ h refl refl refl refl) (record {
          id = here;
          distinct = h.inv.distinct;
          enough = enough;
          full = λ bad. absurd (let both = slow in cc);
          signed = h.signed;
        })
      ])
    ])
  ]

  pub tally-Answers :
      (m : QcMaker) (a : PublicKey) (s : Signature) (loopback : Bool)
      → Sound n dig m
      → (loopback ≡ false → IsSigned n dig (a, s))
      → Answers n dig (tally n.committee a dig s loopback m)
  unfolding tally
  tally-Answers m a s true h signed = get_qc-Answers _ refl (flags-Sound m _ h refl refl refl refl)
  tally-Answers m a s false h signed = elim (Bool-cases (contains m.used a)) [
    | inl old ↦ rw old (record { sound = h; certified = λ qc bad. absurd (ground arith) })
    | inr fresh ↦ rw fresh (
        check_qc-Answers (count_vote m a s n.committee)
          (count_vote-Sound m a s h (signed refl) fresh))
  ]
