-- ===== src/Core/Phases.antt =====
-- primary/src/core.rs, `process_consensus_vote`: the messages that follow a vote.
use auto_pilot.Crypto.{Digest, PublicKey, Signature}
use auto_pilot.Config.Stakes.{IsValid, full_stake}
use auto_pilot.Messages.Errors.{DagResult}
use auto_pilot.Messages.Types.{
  View, Slot, Proposals, Qc, AggregateReport, CommitQc, ConsensusMessage, OptionTc, ConsensusVote,
  prepare, confirm, commit,
}
use auto_pilot.Aggregators.{QcMaker, new_maker}
use auto_pilot.Core.State.{Node, Core, send_request, start_fast_timer, get_or, emit}
use auto_pilot.Core.ViewChange.{set_consensus_proposal, send_consensus_req}
use auto_pilot.Core.Tally.{
  tally_instance, set_try_fast, send_and_process, after_qc, after_tally, with_maker, is_refused,
  process_instance_vote, process_consensus_vote,
}
use auto_pilot.Core.Accepted.{some_injective}
use auto_pilot.Core.Certifying.{
  IsSigned, Sound, Certified, Answers, flags-Sound, new_maker-Sound, set_try_fast-Sound,
  tally-Answers,
}
use auto_pilot.Prelude.{
  ◌==◌, if◌then◌else◌, ==_iff, Bool-cases, Option-cases, nat_eq, pair_beq, pair_beq_iff, pair_eq,
  lookup, insert, lookup-insert, ok, err, ◌<◌, ◌≡◌, refl, sym, ap, ◌∙◌, ◌⊎◌, inl, inr, Bool, true,
  false, ◌||◌, Option, none, some, [], ◌∷◌, ◌++◌, arith,
}

-- Every certificate maker of the primary is sound for its digest.
pub record HasQcMakers (n : Node) (s : Core) : Type 0 where
  pub makers :
      (key : Slot × Digest) (m : QcMaker) → lookup key s.qc_makers ≡ some m → Sound n key.1 m

-- The message that a certificate of an own consensus message allows.
pub data Follows (n : Node) (dig : Digest) : ConsensusMessage → ConsensusMessage → Type 0 where
  slow_path :
      (slot : Slot) (view : View) (tc : OptionTc) (ticket : Option CommitQc) (proposals : Proposals)
      (report : Option AggregateReport) (qc : Qc)
      → Certified n dig false qc
      → Follows n dig
          (prepare slot view tc ticket proposals report)
          (confirm slot view qc proposals report)
  fast_path :
      (slot : Slot) (view : View) (tc : OptionTc) (ticket : Option CommitQc) (proposals : Proposals)
      (report : Option AggregateReport) (qc : Qc)
      → Certified n dig true qc
      → Follows n dig
          (prepare slot view tc ticket proposals report)
          (commit slot view qc proposals report)
  confirmed :
      (slot : Slot) (view : View) (old qc : Qc) (proposals : Proposals)
      (report : Option AggregateReport) (fast : Bool)
      → Certified n dig fast qc
      → Follows n dig
          (confirm slot view old proposals report)
          (commit slot view qc proposals report)

HasQcMakers-insert :
    (n : Node) (s out : Core) (key : Slot × Digest) (m : QcMaker)
    → HasQcMakers n s
    → Sound n key.1 m
    → out.qc_makers ≡ insert key m s.qc_makers
    → HasQcMakers n out
HasQcMakers-insert n s out key m h i e = record {
  makers = λ k m' found.
      let read : (if pair_beq k key then some m else lookup k s.qc_makers) ≡ some m' =
        sym (lookup-insert key k m s.qc_makers) ∙ (ap (λ t. lookup k t) (sym e) ∙ found) in
      elim (Bool-cases (pair_beq k key)) [
        | inl same ↦
            let hit : some m ≡ some m' = rw same at read in
            let here : m ≡ m' = cc in
            let keyed : k ≡ key = (pair_beq_iff k key).0 same in rw (sym here, keyed) i
        | inr other ↦
            let miss : lookup k s.qc_makers ≡ some m' = rw other at read in h.makers k m' miss
      ];
}

maker_or_new-Sound :
    (n : Node) (s : Core) (key : Slot × Digest) (o : Option QcMaker)
    → IsValid n.committee
    → 0 < full_stake n.committee
    → lookup key s.qc_makers ≡ o
    → HasQcMakers n s
    → Sound n key.1 (get_or new_maker o)
maker_or_new-Sound n s key none v pos e h = new_maker-Sound n key.1 v pos
maker_or_new-Sound n s key (some m) v pos e h = h.makers key m e

tally_instance-Answers :
    (n : Node) (a : PublicKey) (sig : Signature) (loopback : Bool) (key : Slot × Digest)
    (inst : ConsensusMessage) (s : Core)
    → IsValid n.committee
    → 0 < full_stake n.committee
    → HasQcMakers n s
    → (loopback ≡ false → IsSigned n key.1 (a, sig))
    → Answers n key.1 (tally_instance n a sig loopback key inst s)
unfolding tally_instance
tally_instance-Answers n a sig loopback key inst s v pos h signed =
    tally-Answers n key.1 v pos (set_try_fast s inst (get_or new_maker (lookup key s.qc_makers))) a
      sig loopback
      (set_try_fast-Sound n key.1 v pos s inst (get_or new_maker (lookup key s.qc_makers))
        (maker_or_new-Sound n s key (lookup key s.qc_makers) v pos refl h))
      signed

HasQcMakers-same :
    (n : Node) (s s' : Core) → HasQcMakers n s → s'.qc_makers ≡ s.qc_makers → HasQcMakers n s'
HasQcMakers-same n s s' h e = record {
  makers = λ key m found. h.makers key m (ap (λ t. lookup key t) (sym e) ∙ found);
}

-- A vote that is not refused is signed, or it is a loopback.
is_refused-IsSigned :
    (n : Node) (a : PublicKey) (sig : Signature) (dig : Digest) (loopback : Bool)
    → is_refused n a sig dig loopback ≡ false
    → loopback ≡ false
    → IsSigned n dig (a, sig)
is_refused-IsSigned n a sig dig loopback ok_vote here = elim (Bool-cases (a == n.name)) [
  | inl own ↦ inl ((==_iff a n.name).0 own)
  | inr other ↦ inr (ground arith)
]

module _ {W : Type 0} (keep : Core → W)
    (own : ConsensusMessage → Core → Option (W × DagResult (Unit {0}))) where
  -- From the state `state` the handler returns, with nothing sent or the fast timer started; or a
  -- message that follows from the own one under the key is sent, and what the handler returns is
  -- what the processing of that message by the primary itself returns.
  pub record Advances (n : Node) (key : Slot × Digest) (inst : ConsensusMessage) (s : Core) (w : W)
      (r : DagResult (Unit {0})) : Type 0 where
    pub state : Core
    pub makers : HasQcMakers n state
    pub sent :
        (((state.out ≡ s.out) ⊎ (state.out ≡ s.out ++ start_fast_timer key.0 key.1 ∷ []))
          × (w ≡ keep state))
        ⊎ ((m : ConsensusMessage) × (state.out ≡ s.out ++ send_request m ∷ [])
            × Follows n key.1 inst m
            × (own m state ≡ some (w, r)))

  -- Nothing is sent and the makers stay.
  same-Advances :
      (n : Node) (key : Slot × Digest) (inst : ConsensusMessage) (s : Core) (w : W)
      (r : DagResult (Unit {0}))
      → HasQcMakers n s
      → keep s ≡ w
      → Advances n key inst s w r
  same-Advances n key inst s w r h e = record {
    state = s;
    makers = h;
    sent = inl (inl refl, sym e);
  }

  -- A Prepare with a certificate.
  prepare-Advances :
      (n : Node) (key : Slot × Digest) (slot : Slot) (view : View) (tc : OptionTc)
      (ticket : Option CommitQc) (proposals : Proposals) (report : Option AggregateReport)
      (m : QcMaker) (qc : Qc) (s : Core) (w : W) (r : DagResult (Unit {0}))
      → IsValid n.committee
      → 0 < full_stake n.committee
      → HasQcMakers n s
      → Sound n key.1 m
      → Certified n key.1 m.try_fast qc
      → after_qc keep own n key (prepare slot view tc ticket proposals report) m qc s ≡ some (w, r)
      → Advances n key (prepare slot view tc ticket proposals report) s w r
  unfolding after_qc send_and_process set_consensus_proposal send_consensus_req
  prepare-Advances n key slot view tc ticket proposals report m qc s w r v pos h i cert run =
      elim (Bool-cases m.try_fast) [
        | inl fast ↦ record {
          state = send_consensus_req n (commit slot view qc proposals report) s;
          makers = record { makers = h.makers };
          sent = inr (
            commit slot view qc proposals report,
            refl,
            fast_path slot view tc ticket proposals report qc (rw fast at cert),
            rw fast at run,
          );
        }
        | inr slow ↦ elim (Bool-cases (m.sent_confirm || m.completed_fast)) [
          | inl done ↦
              same-Advances n key _ s w r h
                (ap (λ p. p.0) (some_injective (rw (slow, done) at run)))
          | inr fresh ↦
              let told = record m { try_fast = false; sent_confirm = true } in
              let marked = record s { qc_makers = insert key told s.qc_makers } in
              record {
                state = send_consensus_req n (confirm slot view qc proposals report) marked;
                makers =
                    HasQcMakers-insert n s _ key told h
                      (flags-Sound n key.1 v pos m told i refl refl refl refl) refl;
                sent = inr (
                  confirm slot view qc proposals report,
                  refl,
                  slow_path slot view tc ticket proposals report qc (rw slow at cert),
                  rw (slow, fresh) at run,
                );
              }
        ]
      ]

  after_qc-Advances :
      (n : Node) (key : Slot × Digest) (inst : ConsensusMessage) (m : QcMaker) (qc : Qc) (s : Core)
      (w : W) (r : DagResult (Unit {0}))
      → IsValid n.committee
      → 0 < full_stake n.committee
      → HasQcMakers n s
      → Sound n key.1 m
      → Certified n key.1 m.try_fast qc
      → after_qc keep own n key inst m qc s ≡ some (w, r)
      → Advances n key inst s w r
  unfolding after_qc send_and_process set_consensus_proposal send_consensus_req
  after_qc-Advances n key (prepare slot view tc ticket proposals report) m qc s w r v pos h i cert
        run =
      prepare-Advances n key slot view tc ticket proposals report m qc s w r v pos h i cert run
  after_qc-Advances n key (confirm slot view old proposals report) m qc s w r v pos h i cert run =
      record {
        state = send_consensus_req n (commit slot view qc proposals report) s;
        makers = record { makers = h.makers };
        sent = inr (
          commit slot view qc proposals report,
          refl,
          confirmed slot view old qc proposals report m.try_fast cert,
          run,
        );
      }
  after_qc-Advances n key (commit _ _ _ _ _) m qc s w r v pos h i cert run =
      absurd (let bad = run in cc)

  after_tally-Advances :
      (n : Node) (key : Slot × Digest) (inst : ConsensusMessage) (m : QcMaker)
      (answer : DagResult (Bool × Option Qc)) (s : Core) (w : W) (r : DagResult (Unit {0}))
      → IsValid n.committee
      → 0 < full_stake n.committee
      → HasQcMakers n s
      → Answers n key.1 (m, answer)
      → after_tally keep own n key inst m answer s ≡ some (w, r)
      → Advances n key inst s w r
  unfolding after_tally
  after_tally-Advances n key inst m (ok (true, some qc)) s w r v pos h i run =
      after_qc-Advances n key inst m qc s w r v pos h i.sound (i.certified qc refl) run
  after_tally-Advances n key inst m (ok (true, none)) s w r v pos h i run =
      elim (Bool-cases s.use_fast_path) [
        | inl fast ↦ record {
          state = if s.use_fast_path then emit s (start_fast_timer key.0 key.1) else s;
          makers = rw fast (record { makers = h.makers });
          sent = inl (inr (rw fast refl), sym (ap (λ p. p.0) (some_injective run)));
        }
        | inr slow ↦ record {
          state = if s.use_fast_path then emit s (start_fast_timer key.0 key.1) else s;
          makers = rw slow (record { makers = h.makers });
          sent = inl (inl (rw slow refl), sym (ap (λ p. p.0) (some_injective run)));
        }
      ]
  after_tally-Advances n key inst m (ok (false, o)) s w r v pos h i run =
      same-Advances n key inst s w r h (ap (λ p. p.0) (some_injective run))
  after_tally-Advances n key inst m (err e) s w r v pos h i run =
      same-Advances n key inst s w r h (ap (λ p. p.0) (some_injective run))

  process_instance_vote-Advances :
      (n : Node) (vote : ConsensusVote) (loopback : Bool) (inst : ConsensusMessage) (s : Core)
      (w : W) (r : DagResult (Unit {0}))
      → IsValid n.committee
      → 0 < full_stake n.committee
      → HasQcMakers n s
      → process_instance_vote keep own n vote loopback inst s ≡ some (w, r)
      → Advances n (vote.slot, vote.digest) inst s w r
  unfolding process_instance_vote
  process_instance_vote-Advances n vote loopback inst s w r v pos h run =
      let key : Slot × Digest = (vote.slot, vote.digest) in
      elim (Bool-cases (is_refused n vote.author vote.sig vote.digest loopback)) [
        | inl bad ↦
            same-Advances n key inst s w r h (ap (λ p. p.0) (some_injective (rw bad at run)))
        | inr fine ↦
            let a =
              tally_instance-Answers n vote.author vote.sig loopback key inst s v pos h
                (is_refused-IsSigned n vote.author vote.sig vote.digest loopback fine) in
            let t = tally_instance n vote.author vote.sig loopback key inst s in
            let moved =
              after_tally-Advances n key inst t.0 t.1 (with_maker key t.0 s) w r v pos
                (HasQcMakers-insert n s (with_maker key t.0 s) key t.0 h a.sound refl) a
                (rw fine at run) in
            record { state = moved.state; makers = moved.makers; sent = moved.sent }
      ]

  -- Let `own` be the processing of a request of the primary's own. In a valid committee with stake,
  -- from sound certificate makers, a consensus vote or a fast timer that is handled with a return
  -- sends nothing, or starts the fast timer of the instance, and returns; or it sends the one message
  -- that follows from the own message under the slot and digest of the vote, with a certificate for
  -- that digest of distinct voters who reach the quorum threshold, and the fast threshold where a
  -- Commit follows from a Prepare, and returns what `own` returns for that message. Every vote in the
  -- certificate was verified or is the own one. At the return, or at the call of `own`, the makers
  -- are sound.
  pub process_consensus_vote-Advances :
      (n : Node) (vote : ConsensusVote) (loopback : Bool) (s : Core) (w : W)
      (r : DagResult (Unit {0}))
      → IsValid n.committee
      → 0 < full_stake n.committee
      → HasQcMakers n s
      → process_consensus_vote keep own n vote loopback s ≡ some (w, r)
      → (w ≡ keep s)
        ⊎ ((inst : ConsensusMessage) × (lookup {K = Slot × Digest}
                (vote.slot, vote.digest)
                s.consensus_instances
              ≡ some inst)
            × Advances n (vote.slot, vote.digest) inst s w r)
  unfolding process_consensus_vote
  process_consensus_vote-Advances n vote loopback s w r v pos h run =
      elim (Option-cases
        (lookup {K = Slot × Digest} (vote.slot, vote.digest) s.consensus_instances)) [
          | inl e ↦
              inl (sym (ap (λ p. p.0) (some_injective (rw (process_consensus_vote, e) at run))))
          | inr (inst, e) ↦ inr (
            inst,
            e,
            process_instance_vote-Advances n vote loopback inst s w r v pos h
                (rw (process_consensus_vote, e) at run),
          )
        ]
