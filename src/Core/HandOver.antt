-- ===== src/Core/HandOver.antt =====
-- primary/src/core.rs, `process_vote`: what the primary sends for the votes on its header.
use auto_pilot.Crypto.{Digest, PublicKey, Signature}
use auto_pilot.Config.Committee.{Committee}
use auto_pilot.Config.Stakes.{IsValid}
use auto_pilot.Messages.Errors.{DagResult}
use auto_pilot.Messages.Types.{
  Slot, Qc, ConsensusMessage, Certificate, Vote, prepare, confirm, commit,
}
use auto_pilot.Messages.Digests.{digest}
use auto_pilot.Aggregators.{QcMaker, VotesAggregator, append_vote, get_certificate}
use auto_pilot.Aggregators.Cars.{
  Inv, IsAvailable, CertIsAvailable, append_vote-Inv, append_vote_flags,
}
use auto_pilot.Core.State.{Node, Core, Effect, start_fast_timer, send_info, send_proposer}
use auto_pilot.Core.Voting.{Ballot}
use auto_pilot.Core.Tally.{
  tally_instance, count_instance, with_maker, is_refused, next_info, after_ballot, count_ballot,
  count_ballots, hand_over, after_append, append_header_vote, empty?, process_vote,
}
use mathlib.Core.List.{append-nil, append_assoc}
use auto_pilot.Prelude.{
  ◌==◌, if◌then◌else◌, Bool-cases, Option-cases, nat_eq, pair_eq, All, lookup, is_ok, ok, err, ◌≡◌,
  refl, sym, ap, ◌∙◌, ◌⊎◌, inl, inr, Bool, true, false, not, ◌&&◌, ◌||◌, Option, none, some, List,
  [], ◌∷◌, ◌++◌,
}

-- The timer of a fast path, or a message for the proposer.
abbrev pub IsPhase : Effect → Type 0
IsPhase (start_fast_timer _ _) = Unit
IsPhase (send_info _) = Unit
IsPhase _ = ⊥

-- Only phases are sent, and the aggregator of the header is untouched.
pub record SendsPhases (s s' : Core) : Type 0 where
  pub phases : List Effect
  pub are_phases : All IsPhase phases
  pub sent : s'.out ≡ s.out ++ phases
  pub aggregator : s'.votes_aggregator ≡ s.votes_aggregator
  pub flag : s'.sent_cert_to_proposer ≡ s.sent_cert_to_proposer
  pub voted : s'.last_voted ≡ s.last_voted

pub All-append :
    {A : Type 0} (P : A → Type 0) (xs ys : List A) → All P xs → All P ys → All P (xs ++ ys)
All-append P [] ys h k = k
All-append P (x ∷ xs) ys h k = (h.0, All-append P xs ys h.1 k)

SendsPhases-none :
    (s s' : Core)
    → s'.out ≡ s.out
    → s'.votes_aggregator ≡ s.votes_aggregator
    → s'.sent_cert_to_proposer ≡ s.sent_cert_to_proposer
    → s'.last_voted ≡ s.last_voted
    → SendsPhases s s'
SendsPhases-none s s' e a f v = record {
  phases = [];
  are_phases = tt;
  sent = e ∙ sym (append-nil s.out);
  aggregator = a;
  flag = f;
  voted = v;
}

SendsPhases-one :
    (s s' : Core) (e : Effect)
    → IsPhase e
    → s'.out ≡ s.out ++ e ∷ []
    → s'.votes_aggregator ≡ s.votes_aggregator
    → s'.sent_cert_to_proposer ≡ s.sent_cert_to_proposer
    → s'.last_voted ≡ s.last_voted
    → SendsPhases s s'
SendsPhases-one s s' e p sent a f v = record {
  phases = e ∷ [];
  are_phases = (p, tt);
  sent = sent;
  aggregator = a;
  flag = f;
  voted = v;
}

SendsPhases-trans : (a b c : Core) → SendsPhases a b → SendsPhases b c → SendsPhases a c
SendsPhases-trans a b c h k = record {
  phases = h.phases ++ k.phases;
  are_phases = All-append IsPhase h.phases k.phases h.are_phases k.are_phases;
  sent = k.sent ∙ (ap (λ o. o ++ k.phases) h.sent ∙ append_assoc a.out h.phases k.phases);
  aggregator = k.aggregator ∙ h.aggregator;
  flag = k.flag ∙ h.flag;
  voted = k.voted ∙ h.voted;
}

after_ballot-SendsPhases :
    (key : Slot × Digest) (inst : ConsensusMessage) (m : QcMaker)
    (answer : DagResult (Bool × Option Qc)) (s : Core)
    → SendsPhases s (after_ballot key inst m answer s).0
unfolding after_ballot next_info
after_ballot-SendsPhases key (prepare slot view _ _ proposals report) m (ok (true, some qc)) s =
    SendsPhases-one s _
      (send_info (
        if m.try_fast
        then commit slot view qc proposals report
        else confirm slot view qc proposals report))
      tt refl refl refl refl
after_ballot-SendsPhases key (confirm slot view _ proposals report) m (ok (true, some qc)) s =
    SendsPhases-one s _ (send_info (commit slot view qc proposals report)) tt refl refl refl refl
after_ballot-SendsPhases key (commit _ _ _ _ _) m (ok (true, some qc)) s =
    SendsPhases-none _ _ refl refl refl refl
after_ballot-SendsPhases key inst m (ok (true, none)) s = elim (Bool-cases s.use_fast_path) [
  | inl e ↦
      SendsPhases-one s _ (start_fast_timer key.0 key.1) tt (rw e refl) (rw e refl) (rw e refl)
        (rw e refl)
  | inr e ↦ SendsPhases-none s _ (rw e refl) (rw e refl) (rw e refl) (rw e refl)
]
after_ballot-SendsPhases key inst m (ok (false, o)) s = SendsPhases-none _ _ refl refl refl refl
after_ballot-SendsPhases key inst m (err e) s = SendsPhases-none _ _ refl refl refl refl

count_instance-SendsPhases :
    (n : Node) (a : PublicKey) (loopback : Bool) (key : Slot × Digest) (sig : Signature)
    (inst : ConsensusMessage) (s : Core)
    → SendsPhases s (count_instance n a loopback key sig inst s).0
unfolding count_instance
count_instance-SendsPhases n a loopback key sig inst s =
    elim (Bool-cases (is_refused n a sig (digest n.dalek inst) loopback)) [
      | inl bad ↦ rw bad (SendsPhases-none s s refl refl refl refl)
      | inr fine ↦
          let t = tally_instance n a sig loopback key inst s in
          rw fine (
            SendsPhases-trans s (with_maker key t.0 s) _ (SendsPhases-none s _ refl refl refl refl)
              (after_ballot-SendsPhases key inst t.0 t.1 (with_maker key t.0 s)))
    ]

count_ballot-SendsPhases :
    (n : Node) (a : PublicKey) (loopback : Bool) (b : Ballot) (s : Core)
    → SendsPhases s (count_ballot n a loopback b s).0
unfolding count_ballot
count_ballot-SendsPhases n a loopback (slot, dig, sig) s =
    elim (Option-cases (lookup {K = Slot × Digest} (slot, dig) s.consensus_instances)) [
      | inl e ↦ rw (count_ballot, e) (SendsPhases-none s s refl refl refl refl)
      | inr (inst, e) ↦
          rw (count_ballot, e) (count_instance-SendsPhases n a loopback (slot, dig) sig inst s)
    ]

pub count_ballots-SendsPhases :
    (n : Node) (a : PublicKey) (loopback : Bool) (bs : List Ballot) (s : Core)
    → SendsPhases s (count_ballots n a loopback bs s).0
unfolding count_ballots
count_ballots-SendsPhases n a loopback [] s = SendsPhases-none s s refl refl refl refl
count_ballots-SendsPhases n a loopback (b ∷ bs) s =
    let first = count_ballot n a loopback b s in
    elim (Bool-cases (is_ok first.1)) [
      | inl fine ↦ rw fine (
          SendsPhases-trans s first.0 _ (count_ballot-SendsPhases n a loopback b s)
            (count_ballots-SendsPhases n a loopback bs first.0))
      | inr bad ↦ rw bad (count_ballot-SendsPhases n a loopback b s)
    ]

-- A certificate goes to the proposer, or none.
pub record HandsOver (c : Committee) (s s' : Core) : Type 0 where
  pub inv : Inv c s'.votes_aggregator
  pub phases : List Effect
  pub are_phases : All IsPhase phases
  pub sent :
      ((s'.out ≡ s.out ++ phases) × (s'.sent_cert_to_proposer ≡ s.sent_cert_to_proposer))
      ⊎ ((cert : Certificate) × (s'.out ≡ s.out ++ (phases ++ send_proposer cert ∷ []))
          × (s.sent_cert_to_proposer ≡ false)
          × (s'.sent_cert_to_proposer ≡ true)
          × IsAvailable c cert)

quiet-HandsOver :
    (c : Committee) (s s' : Core)
    → Inv c s'.votes_aggregator
    → s'.out ≡ s.out
    → s'.sent_cert_to_proposer ≡ s.sent_cert_to_proposer
    → HandsOver c s s'
quiet-HandsOver c s s' i e f = record {
  inv = i;
  phases = [];
  are_phases = tt;
  sent = inl (e ∙ sym (append-nil s.out), f);
}

hand_over-HandsOver :
    (c : Committee) (id : Digest) (first : Bool) (found : Option Certificate) (s : Core)
    → Inv c s.votes_aggregator
    → CertIsAvailable c found
    → HandsOver c s (hand_over id true true first (ok found) s).0
unfolding hand_over
hand_over-HandsOver c id first none s i a = absurd a
hand_over-HandsOver c id first (some cert) s i a = elim (Bool-cases s.sent_cert_to_proposer) [
  | inl e ↦
      quiet-HandsOver c s (hand_over id true true first (ok (some cert)) s).0 (rw e i) (rw e refl)
        (rw e refl)
  | inr e ↦ record {
    inv = rw e i;
    phases = [];
    are_phases = tt;
    sent = inr (cert, rw e refl, e, rw e refl, a);
  }
]

get_once-Inv :
    (c : Committee) (m : VotesAggregator) (b : Bool) → Inv c m → Inv c (record m { get_once = b })
get_once-Inv c m b i = record {
  recorded = i.recorded;
  distinct = i.distinct;
  balance = i.balance;
  pending = i.pending;
  done = i.done;
}

-- The certificate of a complete aggregator.
get_certificate-HandsOver :
    (c : Committee) (id : Digest) (first : Bool) (m : VotesAggregator) (s : Core)
    → Inv c m
    → m.complete ≡ true
    → HandsOver c s (after_append id true m (ok (true, first)) s).0
unfolding after_append get_certificate
get_certificate-HandsOver c id first m s i full = elim (Bool-cases m.get_once) [
  | inl e ↦
      let h =
        hand_over-HandsOver c id first m.diss_cert
          (record s { votes_aggregator = record m { get_once = false } }) (get_once-Inv c m false i)
          (i.done full) in
      rw e (record { inv = h.inv; phases = h.phases; are_phases = h.are_phases; sent = h.sent })
  | inr e ↦
      quiet-HandsOver c s (after_append id true m (ok (true, first)) s).0
        (rw e (get_once-Inv c m false i)) (rw e refl) (rw e refl)
]

after_append-HandsOver :
    (c : Committee) (id : Digest) (consensus : Bool) (m : VotesAggregator)
    (answer : DagResult (Bool × Bool)) (s : Core)
    → Inv c m
    → ((ready first : Bool) → answer ≡ ok (ready, first) → ready ≡ m.complete)
    → HandsOver c s (after_append id consensus m answer s).0
unfolding after_append
after_append-HandsOver c id consensus m (err e) s i flags = quiet-HandsOver c s _ i refl refl
after_append-HandsOver c id false m (ok (true, first)) s i flags = quiet-HandsOver c s _ i refl refl
after_append-HandsOver c id consensus m (ok (false, first)) s i flags =
    quiet-HandsOver c s _ i refl refl
after_append-HandsOver c id true m (ok (true, first)) s i flags =
    get_certificate-HandsOver c id first m s i (sym (flags true first refl))

append_header_vote-HandsOver :
    (n : Node) (vote : Vote) (loopback : Bool) (s : Core)
    → IsValid n.committee
    → Inv n.committee s.votes_aggregator
    → HandsOver n.committee s (append_header_vote n vote loopback s).0
unfolding append_header_vote
append_header_vote-HandsOver n vote loopback s v i =
    let c = n.committee in
    let r = append_vote s.votes_aggregator vote c in
    after_append-HandsOver c vote.id _ r.0 r.1 s (append_vote-Inv c s.votes_aggregator vote v i)
      (λ ready first e. (append_vote_flags c s.votes_aggregator vote ready first e).0)

after_phases-HandsOver :
    (c : Committee) (s t s' : Core) → SendsPhases s t → HandsOver c t s' → HandsOver c s s'
after_phases-HandsOver c s t s' p h = record {
  inv = h.inv;
  phases = p.phases ++ h.phases;
  are_phases = All-append IsPhase p.phases h.phases p.are_phases h.are_phases;
  sent = elim (h.sent) [
    | inl (e, f) ↦
        inl
          (e ∙ (ap (λ o. o ++ h.phases) p.sent ∙ append_assoc s.out p.phases h.phases), f ∙ p.flag)
    | inr (cert, e, before, after, a) ↦ inr (
      cert,
      e
          ∙ (ap (λ o. o ++ (h.phases ++ send_proposer cert ∷ [])) p.sent
              ∙ (append_assoc s.out p.phases (h.phases ++ send_proposer cert ∷ [])
                  ∙ ap (λ o. s.out ++ o)
                      (sym (append_assoc p.phases h.phases (send_proposer cert ∷ []))))),
      sym p.flag ∙ before,
      after,
      a,
    )
  ];
}

-- In a valid committee a vote for a header, or a car timer, keeps the invariant of the votes
-- aggregator. It sends messages of consensus phases and fast timers, and after them at most one
-- certificate to the proposer: only if none was sent for this header, which is recorded, and then a
-- certificate of distinct voters who reach the validity threshold. It never starts a car timer.
pub process_vote-HandsOver :
    (n : Node) (vote : Vote) (loopback : Bool) (s : Core)
    → IsValid n.committee
    → Inv n.committee s.votes_aggregator
    → HandsOver n.committee s (process_vote n vote loopback s).0
unfolding process_vote
process_vote-HandsOver n vote loopback s v i =
    let ballots = count_ballots n vote.author loopback vote.consensus_votes s in
    let p = count_ballots-SendsPhases n vote.author loopback vote.consensus_votes s in
    let kept : Inv n.committee ballots.0.votes_aggregator = rw (p.aggregator) i in
    elim (Bool-cases
      (not (vote.id == s.current_header.id) || (loopback && not (empty? vote.consensus_votes)))) [
        | inl other ↦ rw other (quiet-HandsOver n.committee s s i refl refl)
        | inr here ↦ rw here (elim (Bool-cases (is_ok ballots.1)) [
          | inl fine ↦ rw fine (
              after_phases-HandsOver n.committee s ballots.0 _ p
                (append_header_vote-HandsOver n vote loopback ballots.0 v kept))
          | inr bad ↦ rw bad (
              after_phases-HandsOver n.committee s ballots.0 ballots.0 p
                (quiet-HandsOver n.committee ballots.0 ballots.0 kept refl refl))
        ])
      ]
